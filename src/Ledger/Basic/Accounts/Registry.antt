-- ===== src/Ledger/Basic/Accounts/Registry.antt =====
-- The two account maps of `cma_ledger_basic` agree, and stay so under every `retrieve_account`.
use machine_asset_tools.Prelude.{
  ℕ, ◌≤◌, ◌≡◌, ◌≢◌, refl, true, false, none, some, ◌∷◌, nat_key, bytes_key, ok, ◌⊎◌, inl, inr,
  arith, Bool-cases, Result-cases, bytes_eq, bytes_eq_iff, replicate,
}
use native.Mathlib.Nat.{le_refl}
use machine_asset_tools.Amount.{Amount}
use machine_asset_tools.Map.{find, insert, size}
use machine_asset_tools.Map.Laws.{find-cons}
use machine_asset_tools.Ledger.Types.{Bytes, Account, AccountType, Operation}
use machine_asset_tools.Ledger.Basic.{BasicLedger, set_account_asset_balance, get_account_count}
use machine_asset_tools.Ledger.Basic.Accounts.{
  AccountCall, local_account, insert_account, insert_account_key, find_by_id, retrieve_by_id,
  find_by_key, retrieve_by_bytes, retrieve_by_type, retrieve_account,
}

pub record IsAccounts (l : BasicLedger) : Type 0 where
  -- Ids are given out in order.
  pub fresh : (i : ℕ) → size l.laccid_to_account ≤ i → find i l.laccid_to_account ≡ none
  -- A key leads to an account that holds these bytes.
  pub key_to_account :
      (key : Bytes) (i : ℕ)
      → find key l.account_to_laccid ≡ some i
      → (a : Account) × (find i l.laccid_to_account ≡ some a) × (a.account_id ≡ key)
  -- An account with a wallet address or an account id is found by its bytes.
  pub account_to_key :
      (i : ℕ) (a : Account)
      → find i l.laccid_to_account ≡ some a
      → a.type ≢ AccountType.id
      → find a.account_id l.account_to_laccid ≡ some i

abbrev pub with_account : Account → BasicLedger → BasicLedger
with_account a l = record l {
  laccid_to_account = (size l.laccid_to_account, a) ∷ l.laccid_to_account;
}

abbrev pub with_keyed_account : Account → BasicLedger → BasicLedger
with_keyed_account a l = record l {
  account_to_laccid = (a.account_id, size l.laccid_to_account) ∷ l.account_to_laccid;
  laccid_to_account = (size l.laccid_to_account, a) ∷ l.laccid_to_account;
}

with_account-IsAccounts :
    (a : Account) (l : BasicLedger)
    → a.type ≡ AccountType.id
    → IsAccounts l
    → IsAccounts (with_account a l)
with_account-IsAccounts a l no_key r =
    let n = size l.laccid_to_account in
    let new = r.fresh n (le_refl n) in
    record {
      fresh = λ i h. ground (arith, find-cons n i a l.laccid_to_account, r.fresh i);
      key_to_account = λ key i e.
          let (b, at_i, k) = r.key_to_account key i e in
          (b, ground (arith, find-cons n i a l.laccid_to_account), k);
      account_to_key =
          λ i b e t. ground (arith, find-cons n i a l.laccid_to_account, r.account_to_key i b);
    }

with_keyed_account-IsAccounts :
    (a : Account) (l : BasicLedger)
    → find a.account_id l.account_to_laccid ≡ none
    → IsAccounts l
    → IsAccounts (with_keyed_account a l)
with_keyed_account-IsAccounts a l new_key r =
    let n = size l.laccid_to_account in
    let new = r.fresh n (le_refl n) in
    record {
      fresh = λ i h. ground (arith, find-cons n i a l.laccid_to_account, r.fresh i);
      key_to_account = λ k i e. key_case k i (Bool-cases (bytes_eq a.account_id k)) e;
      account_to_key = λ i b e t. ground (
        arith,
        find-cons n i a l.laccid_to_account,
        find-cons a.account_id b.account_id n l.account_to_laccid,
        bytes_eq_iff a.account_id b.account_id,
        r.account_to_key i b,
      );
    }
  where
    key_case :
        (k : Bytes) (i : ℕ)
        → (bytes_eq a.account_id k ≡ true) ⊎ (bytes_eq a.account_id k ≡ false)
        → find k (with_keyed_account a l).account_to_laccid ≡ some i
        → (b : Account) × (find i (with_keyed_account a l).laccid_to_account ≡ some b)
          × (b.account_id ≡ k)
    key_case k i (inl this) e = (
      a,
      ground (
        arith,
        find-cons a.account_id k (size l.laccid_to_account) l.account_to_laccid,
        find-cons (size l.laccid_to_account) i a l.laccid_to_account,
      ),
      ground (arith, bytes_eq_iff a.account_id k),
    )
    key_case k i (inr other) e =
        let (b, at_i, h) = r.key_to_account k i (
          ground
            (arith, find-cons a.account_id k (size l.laccid_to_account) l.account_to_laccid)) in
        (
          b,
          ground (
            arith,
            find-cons (size l.laccid_to_account) i a l.laccid_to_account,
            r.fresh (size l.laccid_to_account) (le_refl _),
          ),
          h,
        )

-- By id: the ledger is as it was, or has an account without bytes under the next id.
retrieve_by_id-ledger :
    (op : Operation) (c : AccountCall)
    → IsAccounts c.ledger
    → let c' = (retrieve_by_id (size c.ledger.laccid_to_account) op c).1 in
      (c'.ledger ≡ c.ledger)
      ⊎ (c'.ledger
          ≡ with_account (record { type = AccountType.id; account_id = replicate 32 0 }) c.ledger)
unfolding retrieve_by_id find_by_id insert_account insert
retrieve_by_id-ledger op c r = ground (arith, r.fresh (size c.ledger.laccid_to_account) (le_refl _))

-- By bytes: the ledger is as it was, or the account is new and stands under the next id.
retrieve_by_bytes-ledger :
    (t : AccountType) (op : Operation) (c : AccountCall)
    → IsAccounts c.ledger
    → let c' = (retrieve_by_bytes t (size c.ledger.laccid_to_account) op c).1 in
      (c'.ledger ≡ c.ledger)
      ⊎ ((a : Account) × (find a.account_id c.ledger.account_to_laccid ≡ none)
          × (c'.ledger ≡ with_keyed_account a c.ledger))
unfolding retrieve_by_bytes find_by_key insert_account insert_account_key insert
retrieve_by_bytes-ledger t op c r =
    elim (Result-cases (local_account t c.args.addr_accid c.args.account)) [
      | inr (m, k, e) ↦ inl (ground arith)
      | inl (a, e) ↦ elim (local_case a e) [ inl same ↦ inl same | inr (new, k) ↦ inr (a, new, k) ]
    ]
  where
    local_case :
        (a : Account)
        → local_account t c.args.addr_accid c.args.account ≡ ok a
        → ((retrieve_by_bytes t (size c.ledger.laccid_to_account) op c).1.ledger ≡ c.ledger)
          ⊎ ((find a.account_id c.ledger.account_to_laccid ≡ none)
              × ((retrieve_by_bytes t (size c.ledger.laccid_to_account) op c).1.ledger
                  ≡ with_keyed_account a c.ledger))
    local_case a e = ground (arith, r.fresh (size c.ledger.laccid_to_account) (le_refl _))

by_bytes-IsAccounts :
    (t : AccountType) (op : Operation) (c : AccountCall)
    → IsAccounts c.ledger
    → IsAccounts (retrieve_by_bytes t (size c.ledger.laccid_to_account) op c).1.ledger
by_bytes-IsAccounts t op c r = elim (retrieve_by_bytes-ledger t op c r) [
  | inl e ↦ rw e r
  | inr (a, new, e) ↦ rw e (with_keyed_account-IsAccounts a c.ledger new r)
]

by_id-IsAccounts :
    (op : Operation) (c : AccountCall)
    → IsAccounts c.ledger
    → IsAccounts (retrieve_by_id (size c.ledger.laccid_to_account) op c).1.ledger
by_id-IsAccounts op c r = elim (retrieve_by_id-ledger op c r) [
  | inl e ↦ rw e r
  | inr e ↦ rw e (with_account-IsAccounts _ c.ledger refl r)
]

-- On a ledger whose account maps agree, `retrieve_account` leaves a ledger whose account maps
-- agree, for every operation and every arguments, whether it returns or throws.
pub retrieve_account-IsAccounts :
    (op : Operation) (c : AccountCall)
    → IsAccounts c.ledger
    → IsAccounts (retrieve_account op c).1.ledger
unfolding retrieve_account retrieve_by_type get_account_count
retrieve_account-IsAccounts op c r = by_type c.args.account_type
  where
    by_type :
        (t : AccountType)
        → IsAccounts (retrieve_by_type t (size c.ledger.laccid_to_account) op c).1.ledger
    by_type AccountType.id = by_id-IsAccounts op c r
    by_type AccountType.wallet_address = by_bytes-IsAccounts AccountType.wallet_address op c r
    by_type AccountType.account_id = by_bytes-IsAccounts AccountType.account_id op c r

-- Both maps as they were.
pub IsAccounts-maps :
    (l l' : BasicLedger)
    → l'.laccid_to_account ≡ l.laccid_to_account
    → l'.account_to_laccid ≡ l.account_to_laccid
    → IsAccounts l
    → IsAccounts l'
IsAccounts-maps l l' accounts keys r = record {
  fresh = rw accounts r.fresh;
  key_to_account = rw (accounts, keys) r.key_to_account;
  account_to_key = rw (accounts, keys) r.account_to_key;
}

set_balance-accounts :
    (i a : ℕ) (v : Amount) (l : BasicLedger)
    → (set_account_asset_balance i a v l).laccid_to_account ≡ l.laccid_to_account
unfolding set_account_asset_balance
set_balance-accounts i a v l = ground arith

set_balance-account_keys :
    (i a : ℕ) (v : Amount) (l : BasicLedger)
    → (set_account_asset_balance i a v l).account_to_laccid ≡ l.account_to_laccid
unfolding set_account_asset_balance
set_balance-account_keys i a v l = ground arith

pub set_balance-IsAccounts :
    (i a : ℕ) (v : Amount) (l : BasicLedger)
    → IsAccounts l
    → IsAccounts (set_account_asset_balance i a v l)
set_balance-IsAccounts i a v l =
    IsAccounts-maps l _ (set_balance-accounts i a v l) (set_balance-account_keys i a v l)
