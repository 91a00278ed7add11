-- ===== src/Ledger/Basic/Accounts/Outcome.antt =====
-- What `retrieve_account` of `cma_ledger_basic` leaves in the ledger: no asset and no balance moves.
use machine_asset_tools.Prelude.{ℕ, ◌≡◌, nat_key, bytes_key, arith}
use machine_asset_tools.Ledger.Types.{Bytes, AccountType, Operation}
use machine_asset_tools.Ledger.Basic.{BasicLedger, get_account_count}
use machine_asset_tools.Ledger.Basic.Accounts.{
  AccountCall, insert_account, insert_account_key, find_by_id, retrieve_by_id, find_by_key,
  retrieve_by_bytes, retrieve_by_type, retrieve_account,
}

-- Assets and balances are as they were.
pub record SameFunds (l l' : BasicLedger) : Type 0 where
  pub assets : l'.lassid_to_asset ≡ l.lassid_to_asset
  pub asset_keys : l'.asset_to_lassid ≡ l.asset_to_lassid
  pub balances : l'.account_asset_balance ≡ l.account_asset_balance

retrieve_by_id-SameFunds :
    (n : ℕ) (op : Operation) (c : AccountCall) → SameFunds c.ledger (retrieve_by_id n op c).1.ledger
unfolding retrieve_by_id find_by_id insert_account
retrieve_by_id-SameFunds n op c = record {
  assets = ground arith;
  asset_keys = ground arith;
  balances = ground arith;
}

find_by_key-SameFunds :
    (key : Bytes) (c : AccountCall) → SameFunds c.ledger (find_by_key key c).1.ledger
unfolding find_by_key
find_by_key-SameFunds key c = record {
  assets = ground arith;
  asset_keys = ground arith;
  balances = ground arith;
}

retrieve_by_bytes-SameFunds :
    (t : AccountType) (n : ℕ) (op : Operation) (c : AccountCall)
    → SameFunds c.ledger (retrieve_by_bytes t n op c).1.ledger
unfolding retrieve_by_bytes find_by_key insert_account insert_account_key
retrieve_by_bytes-SameFunds t n op c = record {
  assets = ground arith;
  asset_keys = ground arith;
  balances = ground arith;
}

pub retrieve_account-SameFunds :
    (op : Operation) (c : AccountCall) → SameFunds c.ledger (retrieve_account op c).1.ledger
unfolding retrieve_account retrieve_by_type
retrieve_account-SameFunds op c = by_type c.args.account_type (get_account_count c.ledger)
  where
    by_type : (t : AccountType) (n : ℕ) → SameFunds c.ledger (retrieve_by_type t n op c).1.ledger
    by_type AccountType.id n = retrieve_by_id-SameFunds n op c
    by_type AccountType.wallet_address n =
        retrieve_by_bytes-SameFunds AccountType.wallet_address n op c
    by_type AccountType.account_id n = retrieve_by_bytes-SameFunds AccountType.account_id n op c
