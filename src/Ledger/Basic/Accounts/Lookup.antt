-- ===== src/Ledger/Basic/Accounts/Lookup.antt =====
-- Finding an account by its bytes (`retrieve_account` of `cma_ledger_basic`).
use machine_asset_tools.Prelude.{
  ℕ, ◌≡◌, refl, ap, ◌∙◌, true, Option, none, some, ◌++◌, take, replicate, nat_key, bytes_key,
  Result, ok, inl, inr, arith, Option-cases, beq_refl,
}
use native.Mathlib.Nat.{le_refl}
use machine_asset_tools.Map.{find, insert, size}
use machine_asset_tools.Map.Laws.{find-cons}
use machine_asset_tools.Ledger.Types.{Bytes, Account, AccountType, Operation, write, finds, creates}
use machine_asset_tools.Ledger.Basic.{get_account_count}
use machine_asset_tools.Ledger.Basic.Accounts.{
  AccountCall, local_account, resolve_pointed, start_with_zeros, insert_account, insert_account_key,
  find_by_key, retrieve_by_bytes, retrieve_by_type, retrieve_account,
}
use machine_asset_tools.Ledger.Basic.Accounts.Registry.{IsAccounts, with_keyed_account}

-- The call with bytes of a type at the pointer.
abbrev pub asks : AccountType → Bytes → AccountCall → AccountCall
asks t bytes c = record c { args = record c.args { addr_accid = some bytes; account_type = t } }

-- A wallet's address and the account id that pads it with 12 zeros name one account.
local_account-padded :
    (address : Bytes) (a : Option Account)
    → local_account AccountType.account_id (some (replicate 12 0 ++ address)) a
      ≡ local_account AccountType.wallet_address (some address) a
unfolding local_account resolve_pointed start_with_zeros
local_account-padded address a = refl

-- What a search by bytes that are registered leaves.
pub record Located (i : ℕ) (c : AccountCall) (r : Result (Unit {0}) × AccountCall) : Type 0 where
  pub returns : r.0 ≡ ok tt
  pub ledger : r.1.ledger ≡ c.ledger
  pub account_id : r.1.args.account_id ≡ write c.args.account_id i

retrieve_by_bytes-Located :
    (t : AccountType) (n i : ℕ) (op : Operation) (c : AccountCall) (a b : Account)
    → local_account t c.args.addr_accid c.args.account ≡ ok a
    → finds op ≡ true
    → find a.account_id c.ledger.account_to_laccid ≡ some i
    → find i c.ledger.laccid_to_account ≡ some b
    → Located i c (retrieve_by_bytes t n op c)
unfolding retrieve_by_bytes find_by_key
retrieve_by_bytes-Located t n i op c a b l f k s = record {
  returns = ground arith;
  ledger = ground arith;
  account_id = ground arith;
}

-- What a registration by bytes leaves.
pub record Added (a : Account) (c : AccountCall) (r : Result (Unit {0}) × AccountCall)
    : Type 0 where
  pub returns : r.0 ≡ ok tt
  pub ledger : r.1.ledger ≡ with_keyed_account a c.ledger
  pub account_id : r.1.args.account_id ≡ write c.args.account_id (size c.ledger.laccid_to_account)

retrieve_by_bytes-Added :
    (t : AccountType) (op : Operation) (c : AccountCall) (a : Account)
    → IsAccounts c.ledger
    → local_account t c.args.addr_accid c.args.account ≡ ok a
    → creates op ≡ true
    → find a.account_id c.ledger.account_to_laccid ≡ none
    → Added a c (retrieve_by_bytes t (size c.ledger.laccid_to_account) op c)
unfolding retrieve_by_bytes find_by_key insert_account insert_account_key insert
retrieve_by_bytes-Added t op c a r l f k =
    let new = r.fresh (size c.ledger.laccid_to_account) (le_refl _) in
    record { returns = ground arith; ledger = ground arith; account_id = ground arith }

-- The account that a wallet's address stands for.
abbrev pub wallet_account : Bytes → Account
wallet_account address = record {
  type = AccountType.wallet_address;
  account_id = replicate 12 0 ++ take 20 address;
}

-- On a ledger whose account maps agree, `find_or_create` by the address of a wallet returns an id,
-- and `find` by the account id that pads the address with 12 zeros, on the ledger that this left,
-- then returns the same id and changes nothing.
pub find_or_create-find :
    (address : Bytes) (c d : AccountCall)
    → IsAccounts c.ledger
    → d.ledger
      ≡ (retrieve_account Operation.find_or_create
          (asks AccountType.wallet_address address c)).1.ledger
    → ((retrieve_account Operation.find_or_create (asks AccountType.wallet_address address c)).0
        ≡ ok tt)
      × ((i : ℕ) × ((retrieve_account Operation.find_or_create
              (asks AccountType.wallet_address address c)).1.args.account_id
            ≡ write c.args.account_id i)
          × Located i (asks AccountType.account_id (replicate 12 0 ++ address) d) (
              retrieve_account Operation.find
                (asks AccountType.account_id (replicate 12 0 ++ address) d)))
unfolding retrieve_account retrieve_by_type get_account_count local_account resolve_pointed
    start_with_zeros
find_or_create-find address c d r same =
    elim (Option-cases (find (wallet_account address).account_id c.ledger.account_to_laccid)) [
      | inr (i, known) ↦
          let (b, at_i, _) = r.key_to_account _ i known in
          let f =
            retrieve_by_bytes-Located AccountType.wallet_address (size c.ledger.laccid_to_account) i
              Operation.find_or_create (asks AccountType.wallet_address address c)
              (wallet_account address) b refl refl known at_i in
          let e : d.ledger ≡ c.ledger = same ∙ f.ledger in
          (
            f.returns,
            (
              i,
              f.account_id,
              search i b
                  (ap (λ l. find (wallet_account address).account_id l.account_to_laccid) e ∙ known)
                  (ap (λ l. find i l.laccid_to_account) e ∙ at_i),
            ),
          )
      | inl new ↦
          let f =
            retrieve_by_bytes-Added AccountType.wallet_address Operation.find_or_create
              (asks AccountType.wallet_address address c) (wallet_account address) r refl refl
              new in
          let i = size c.ledger.laccid_to_account in
          let key = (wallet_account address).account_id in
          let e : d.ledger ≡ with_keyed_account (wallet_account address) c.ledger =
            same ∙ f.ledger in
          (
            f.returns,
            (
              i,
              f.account_id,
              search i (wallet_account address)
                  (ap (λ l. find key l.account_to_laccid) e
                    ∙ ground (arith, beq_refl key, find-cons key key i c.ledger.account_to_laccid))
                  (ap (λ l. find i l.laccid_to_account) e
                    ∙ ground
                        (arith, find-cons i i (wallet_account address) c.ledger.laccid_to_account)),
            ),
          )
    ]
  where
    search :
        (i : ℕ) (b : Account)
        → find (wallet_account address).account_id d.ledger.account_to_laccid ≡ some i
        → find i d.ledger.laccid_to_account ≡ some b
        → Located i (asks AccountType.account_id (replicate 12 0 ++ address) d) (
            retrieve_account Operation.find
              (asks AccountType.account_id (replicate 12 0 ++ address) d))
    search i b k s =
        retrieve_by_bytes-Located AccountType.account_id (size d.ledger.laccid_to_account) i
          Operation.find (asks AccountType.account_id (replicate 12 0 ++ address) d)
          (wallet_account address) b refl refl k s
