-- ===== src/Ledger/Memory/Accounts.antt =====
-- `retrieve_account` and `remove_account` of `cma_ledger_memory` (src/ledger_impl.cpp).
use machine_asset_tools.Prelude.{
  ℕ, ◌+◌, ◌%◌, ◌^◌, Bool, true, false, not, ◌&&◌, Option, none, some, ◌++◌, if◌then◌else◌, Result,
  ok, err, Throws, pure, gets, ◌>>=◌, ◌>>◌, modify, throw_if, or_throw, nat_key, bytes_key, take,
  drop, replicate, leb, ltb,
}
use machine_asset_tools.Map.{find, insert, erase}
use machine_asset_tools.Ledger.Types.{
  Bytes, Account, AccountType, Operation, write, creates, searches, must_find, removes,
}
use machine_asset_tools.Ledger.Code
use machine_asset_tools.Ledger.Basic.Accounts.{start_with_zeros}
use machine_asset_tools.Ledger.Memory.{MemoryLedger, find_account}

-- `account_to_laccid.erase(account_key)`, which throws if nothing was erased.
unfoldable pub erase_account_key : Bytes → Throws MemoryLedger (Unit {0})
unfolding find erase
erase_account_key key l = elim (find key l.account_to_laccid) [
  | none ↦ (err "Coundn't erase account key map" Code.remove, l)
  | some _ ↦ (ok tt, record l { account_to_laccid = erase key l.account_to_laccid })
]

unfoldable pub erase_account : ℕ → Throws MemoryLedger (Unit {0})
unfolding find erase
erase_account account_id l = elim (find account_id l.laccid_to_account) [
  | none ↦ (err "Coundn't erase account id map" Code.remove, l)
  | some _ ↦ (ok tt, record l { laccid_to_account = erase account_id l.laccid_to_account })
]

unfoldable pub unregister_account : AccountType → Account → Throws MemoryLedger (Unit {0})
unregister_account AccountType.id a = pure tt
unregister_account t a = erase_account_key a.account_id

unfoldable pub remove_account : ℕ → Throws MemoryLedger (Unit {0})
remove_account account_id = do
  found ← gets (λ l. find account_id l.laccid_to_account)
  a ← or_throw found "Account not found" Code.account_not_found
  throw_if (ltb 0 a.n_balances) "Account still have balances" Code.account_balance
  unregister_account a.account.type a.account
  erase_account account_id

-- The caller's variables; `addr_accid` points to bytes that the call only reads.
pub record AccountArgs : Type 0 where
  pub account_id : Option ℕ
  pub account : Option Account
  pub addr_accid : Option Bytes
  pub n_balances : Option ℕ
  pub account_type : AccountType

pub record AccountCall : Type 0 where
  pub ledger : MemoryLedger
  pub args : AccountArgs

abbrev pub on_ledger : {A : Type 0} → Throws MemoryLedger A → Throws AccountCall A
on_ledger m c = let (r, l) = m c.ledger in (r, record c { ledger = l })

-- The local type and bytes where `addr_accid` is given: an account id that starts with 12 zeros is
-- a wallet's address.
unfoldable pub resolve_pointed : AccountType → Bytes → Account
unfolding start_with_zeros
resolve_pointed AccountType.account_id bytes =
    if start_with_zeros bytes 12
    then record {
      type = AccountType.wallet_address;
      account_id = replicate 12 0 ++ take 20 (drop 12 bytes);
    }
    else record { type = AccountType.account_id; account_id = take 32 bytes }
resolve_pointed t bytes = record { type = t; account_id = replicate 12 0 ++ take 20 bytes }

-- The first 12 bytes of a wallet's are set to zero (`fix`).
unfoldable pub resolve_given : AccountType → Account → Account
resolve_given AccountType.wallet_address account = record {
  type = AccountType.wallet_address;
  account_id = replicate 12 0 ++ drop 12 account.account_id;
}
resolve_given t account = record { type = t; account_id = account.account_id }

unfoldable pub local_account : AccountType → Option Bytes → Option Account → Result Account
unfolding resolve_pointed resolve_given
local_account t (some bytes) account = ok (resolve_pointed t bytes)
local_account t none (some account) = ok (resolve_given t account)
local_account t none none = err "Invalid account ptr" Code.e_inval

abbrev pub write_account_id : ℕ → AccountCall → AccountCall
write_account_id i c = record c { args = record c.args { account_id = write c.args.account_id i } }

abbrev pub write_account_type : AccountType → AccountCall → AccountCall
write_account_type t c = record c { args = record c.args { account_type = t } }

-- The account's bytes and type for the caller, where the pointer is given; the reference to the
-- type follows the pointer.
abbrev pub write_account : Account → AccountCall → AccountCall
write_account a c = elim c.args.account [
  | none ↦ c
  | some _ ↦ record c { args = record c.args { account = some a; account_type = a.type } }
]

-- `find_account(*account_id, account, n_balances)` with the type that it found.
unfoldable pub find_by_id : ℕ → Throws AccountCall Bool
unfolding find_account
find_by_id i c =
    let (found, out) =
      find_account i c.ledger
        (record { account = c.args.account; n_balances = c.args.n_balances }) in
    if found
    then elim out.account [
      | none ↦ (ok true, record c { args = record c.args { n_balances = out.n_balances } })
      | some a ↦ (
        ok true,
        record c {
          args = record c.args {
            account = some a;
            n_balances = out.n_balances;
            account_type = a.type;
          };
        },
      )
    ]
    else (ok false, c)

unfoldable pub insert_account : ℕ → Account → Throws MemoryLedger (Unit {0})
insert_account i a l =
    let (m, inserted) = insert i (record { account = a; n_balances = 0 }) l.laccid_to_account in
    if inserted
    then (ok tt, record l { laccid_to_account = m })
    else (err "Account ID already exists" Code.insertion_error, l)

unfoldable pub insert_account_key : Bytes → ℕ → Throws MemoryLedger (Unit {0})
insert_account_key key i l =
    let (m, inserted) = insert key i l.account_to_laccid in
    if inserted
    then (ok tt, record l { account_to_laccid = m })
    else (err "Account Key already exists" Code.insertion_error, l)

-- `next_account_id++`, a 64-bit number.
abbrev pub advance_account_id : MemoryLedger → MemoryLedger
advance_account_id l = record l { next_account_id = (l.next_account_id + 1) % 2 ^ 64 }

-- The limit on the ids that a ledger ever gives out.
unfoldable pub check_max_accounts : Throws MemoryLedger (Unit {0})
check_max_accounts = do
  full ← gets (λ l. leb l.max_accounts l.next_account_id)
  throw_if full "Max accounts reached" Code.max_accounts_reached

-- Step 2 of the branch with no key. The new account's bytes are zero.
unfoldable pub create_by_id : Throws MemoryLedger ℕ
create_by_id = do
  check_max_accounts
  i ← gets (λ l. l.next_account_id)
  insert_account i (record { type = AccountType.id; account_id = replicate 32 0 })
  modify advance_account_id
  pure i

-- The branch of CMA_LEDGER_ACCOUNT_TYPE_ID.
unfoldable pub retrieve_by_id : Operation → Throws AccountCall (Unit {0})
retrieve_by_id operation = do
  given ← gets (λ c. c.args.account_id)
  i ← or_throw given "Invalid account id ptr" Code.e_inval
  found ← if searches operation then find_by_id i else pure false
  if found && removes operation then on_ledger (remove_account i) else pure tt
  throw_if (not found && must_find operation) "Account not found" Code.account_not_found
  if not found && creates operation
      then on_ledger create_by_id >>= (λ j. modify (write_account_id j))
      else pure tt

-- Step 1 of the branch with a key: the stored account is copied to the caller.
unfoldable pub search_by_key : Bytes → Operation → Throws AccountCall Bool
search_by_key key operation = do
  known ← gets (λ c. find key c.ledger.account_to_laccid)
  elim known [
    | none ↦ throw_if (must_find operation) "Account not found" Code.account_not_found >> pure false
    | some i ↦ do
      stored ← gets (λ c. find i c.ledger.laccid_to_account)
      a ← or_throw stored "Account by id not found" Code.account_not_found
      modify (λ c. record c {
        args = record c.args { n_balances = write c.args.n_balances a.n_balances };
      })
      modify (write_account_id i)
      modify (write_account a.account)
      if removes operation then on_ledger (remove_account i) else pure tt
      pure true
  ]

-- Step 2 of the branch with a key.
unfoldable pub create_by_key : Account → Throws MemoryLedger ℕ
create_by_key a = do
  check_max_accounts
  i ← gets (λ l. l.next_account_id)
  insert_account_key a.account_id i
  insert_account i a
  modify advance_account_id
  pure i

-- The branch of the wallet address and the account id.
unfoldable pub retrieve_by_bytes : AccountType → Operation → Throws AccountCall (Unit {0})
retrieve_by_bytes account_type operation = do
  a ← λ c. (local_account account_type c.args.addr_accid c.args.account, c)
  found ← if searches operation then search_by_key a.account_id operation else pure false
  if not found && creates operation
      then (do
        i ← on_ledger (create_by_key a)
        modify (write_account_id i)
        modify (write_account a)
        modify (write_account_type a.type))
      else pure tt

unfoldable pub retrieve_by_type : AccountType → Operation → Throws AccountCall (Unit {0})
retrieve_by_type AccountType.id operation = retrieve_by_id operation
retrieve_by_type t operation = retrieve_by_bytes t operation

unfoldable pub retrieve_account : Operation → Throws AccountCall (Unit {0})
retrieve_account operation c = retrieve_by_type c.args.account_type operation c
