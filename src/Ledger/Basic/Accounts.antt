-- ===== src/Ledger/Basic/Accounts.antt =====
-- `cma_ledger_basic::retrieve_account` (src/ledger_impl.cpp): find an account or register a new
-- one, by its id, by a wallet address or by a 32-byte account id.
pub mod Outcome
pub mod Registry
pub mod Lookup
use machine_asset_tools.Prelude.{
  ℕ, Bool, true, false, not, Option, none, some, ◌++◌, if◌then◌else◌, Result, ok, err, Throws, pure,
  throw, gets, ◌>>=◌, ◌>>◌, modify, throw_if, or_throw, nat_key, bytes_key, take, drop, replicate,
  bytes_eq,
}
use machine_asset_tools.Map.{find, insert}
use machine_asset_tools.Ledger.Types.{
  Bytes, Account, AccountType, Operation, write, finds, creates, is_find,
}
use machine_asset_tools.Ledger.Code
use machine_asset_tools.Ledger.Basic.{BasicLedger, find_account, get_account_count}

-- The caller's variables; `addr_accid` points to bytes that the call only reads.
pub record AccountArgs : Type 0 where
  pub account_id : Option ℕ
  pub account : Option Account
  pub addr_accid : Option Bytes
  pub account_type : AccountType

pub record AccountCall : Type 0 where
  pub ledger : BasicLedger
  pub args : AccountArgs

-- `memcmp` with zeros.
unfoldable pub start_with_zeros : Bytes → ℕ → Bool
unfolding bytes_eq
start_with_zeros bytes len = bytes_eq (take len bytes) (replicate len 0)

-- The local copy of the account: its type and its 32 bytes. The first 12 bytes of a wallet's are
-- set to zero (`fix`).
unfoldable pub resolve_pointed : AccountType → Bytes → Account
unfolding start_with_zeros
resolve_pointed AccountType.account_id bytes =
    if start_with_zeros bytes 12
    then record {
      type = AccountType.wallet_address;
      account_id = replicate 12 0 ++ take 20 (drop 12 bytes);
    }
    else record { type = AccountType.account_id; account_id = take 32 bytes }
resolve_pointed t bytes = record { type = t; account_id = replicate 12 0 ++ take 20 bytes }

unfoldable pub resolve_given : AccountType → Account → Account
resolve_given AccountType.account_id account = record {
  type = AccountType.account_id;
  account_id = account.account_id;
}
resolve_given t account = record {
  type = t;
  account_id = replicate 12 0 ++ drop 12 account.account_id;
}

unfoldable pub local_account : AccountType → Option Bytes → Option Account → Result Account
unfolding resolve_pointed resolve_given
local_account t (some bytes) account = ok (resolve_pointed t bytes)
local_account t none (some account) = ok (resolve_given t account)
local_account t none none = err "Invalid account ptr" Code.e_inval

abbrev pub write_account_id : ℕ → AccountCall → AccountCall
write_account_id i c = record c { args = record c.args { account_id = write c.args.account_id i } }

abbrev pub write_account : Account → AccountCall → AccountCall
write_account a c = record c { args = record c.args { account = write c.args.account a } }

abbrev pub write_account_type : AccountType → AccountCall → AccountCall
write_account_type t c = record c { args = record c.args { account_type = t } }

-- `if (account != nullptr) account_type = account->type;`
abbrev pub type_of_account : AccountCall → AccountCall
type_of_account c = elim c.args.account [ none ↦ c | some a ↦ write_account_type a.type c ]

unfoldable pub insert_account : ℕ → Account → Throws AccountCall (Unit {0})
insert_account i a c =
    let (m, inserted) = insert i a c.ledger.laccid_to_account in
    if inserted
    then (ok tt, record c { ledger = record c.ledger { laccid_to_account = m } })
    else (err "Account ID already exists" Code.insertion_error, c)

unfoldable pub insert_account_key : Bytes → ℕ → Throws AccountCall (Unit {0})
insert_account_key key i c =
    let (m, inserted) = insert key i c.ledger.account_to_laccid in
    if inserted
    then (ok tt, record c { ledger = record c.ledger { account_to_laccid = m } })
    else (err "Account Key already exists" Code.insertion_error, c)

-- `find_account(*account_id, account, nullptr)` with the type that it found.
unfoldable pub find_by_id : ℕ → Throws AccountCall Bool
find_by_id i c =
    let (found, account) = find_account i c.ledger c.args.account in
    if found
    then (ok true, type_of_account (record c { args = record c.args { account = account } }))
    else (ok false, c)

-- The branch of CMA_LEDGER_ACCOUNT_TYPE_ID. The new account's bytes are zero.
unfoldable pub retrieve_by_id : ℕ → Operation → Throws AccountCall (Unit {0})
retrieve_by_id curr_size operation = do
  given ← gets (λ c. c.args.account_id)
  i ← or_throw given "Invalid account id ptr" Code.e_inval
  found ← if finds operation then find_by_id i else pure false
  if found
      then pure tt
      else if is_find operation
      then throw "Account not found" Code.account_not_found
      else if creates operation
      then insert_account curr_size (record { type = AccountType.id; account_id = replicate 32 0 })
        >> modify (write_account_id curr_size)
      else pure tt

-- The search by key: the stored account is copied to the caller.
unfoldable pub find_by_key : Bytes → Throws AccountCall Bool
find_by_key key = do
  known ← gets (λ c. find key c.ledger.account_to_laccid)
  elim known [
    | none ↦ pure false
    | some i ↦ do
      stored ← gets (λ c. find i c.ledger.laccid_to_account)
      a ← or_throw stored "Account by id not found" Code.account_not_found
      modify (write_account_id i)
      modify (λ c. type_of_account (write_account a c))
      pure true
  ]

-- The branch of the wallet address and the account id.
unfoldable pub retrieve_by_bytes : AccountType → ℕ → Operation → Throws AccountCall (Unit {0})
retrieve_by_bytes account_type curr_size operation = do
  a ← λ c. (local_account account_type c.args.addr_accid c.args.account, c)
  found ← if finds operation then find_by_key a.account_id else pure false
  if found
      then pure tt
      else if is_find operation
      then throw "Account not found" Code.account_not_found
      else if creates operation
      then (do
        insert_account_key a.account_id curr_size
        insert_account curr_size a
        modify (write_account_id curr_size)
        modify (write_account a)
        modify (write_account_type a.type))
      else pure tt

unfoldable pub retrieve_by_type : AccountType → ℕ → Operation → Throws AccountCall (Unit {0})
retrieve_by_type AccountType.id curr_size operation = retrieve_by_id curr_size operation
retrieve_by_type AccountType.wallet_address curr_size operation =
    retrieve_by_bytes AccountType.wallet_address curr_size operation
retrieve_by_type AccountType.account_id curr_size operation =
    retrieve_by_bytes AccountType.account_id curr_size operation

unfoldable pub retrieve_account : Operation → Throws AccountCall (Unit {0})
retrieve_account operation c =
    retrieve_by_type c.args.account_type (get_account_count c.ledger) operation c
