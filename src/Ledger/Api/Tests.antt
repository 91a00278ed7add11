-- ===== src/Ledger/Api/Tests.antt =====
-- The theorems about the C interface at a run of it.
use machine_asset_tools.Prelude.{
  false, refl, ℕ, ◌≡◌, none, some, [], ◌∷◌, ◌++◌, replicate, true, ◌⊎◌, arith,
}
use machine_asset_tools.Amount.{Amount, zero_amount}
use machine_asset_tools.Amount.Value.{IsBytes}
use machine_asset_tools.Ledger.Types.{AssetType, AccountType, Operation}
use machine_asset_tools.Ledger.Basic.Assets.{AssetArgs}
use machine_asset_tools.Ledger.Basic.Accounts.{AccountArgs}
use machine_asset_tools.Ledger.Api.{
  Object, is_initialized, magic_number, cma_ledger_get_balance, Thread, cma_ledger_init,
  cma_ledger_retrieve_asset, cma_ledger_retrieve_account,
}
use machine_asset_tools.Ledger.Basic.{cma_ledger_basic}
use machine_asset_tools.Ledger.Api.Balance.{Read, get_balance-Read}
use machine_asset_tools.Ledger.Api.Outcome.{
  Transaction, deposit_call, call, amount_of, Fails, Performed, call_outcome,
}
use machine_asset_tools.Ledger.Api.Reach.{
  Steps, init, retrieve_asset_call, retrieve_account_call, transact, none_yet, more, IsSoundObject,
  Steps-IsSoundObject,
}

abbrev units : ℕ → Amount
units n = replicate 31 0 ++ (n ∷ [])

abbrev new_thread : Thread
new_thread = record { ledger = none; last_err_msg = "" }

abbrev token_args : AssetArgs
token_args = record {
  asset_id = some 99;
  token_address = some (replicate 20 7);
  token_id = none;
  out_total_supply = some zero_amount;
  asset_type = AssetType.token_address;
}

abbrev alice_args : AccountArgs
alice_args = record {
  account_id = some 99;
  account = none;
  addr_accid = some (replicate 20 1);
  account_type = AccountType.wallet_address;
}

abbrev t1 : Thread
t1 = (cma_ledger_init new_thread).2

abbrev t2 : Thread
t2 = (cma_ledger_retrieve_asset true Operation.find_or_create token_args t1).2

abbrev t3 : Thread
t3 = (cma_ledger_retrieve_account true Operation.find_or_create alice_args t2).2

abbrev five : Transaction
five = deposit_call 0 0 (some (units 5))

abbrev t4 : Thread
t4 = (call five t3).2

five-IsBytes : (n : Amount) → amount_of five ≡ some n → IsBytes 32 n
unfolding amount_of
five-IsBytes n e = ground arith

steps : Steps new_thread t4
steps =
    more
      (more
        (more (more none_yet init) (retrieve_asset_call true Operation.find_or_create token_args))
        (retrieve_account_call true Operation.find_or_create alice_args))
      (transact five five-IsBytes)

Steps-IsSoundObject_example : IsSoundObject t4.ledger
Steps-IsSoundObject_example = Steps-IsSoundObject new_thread t4 steps tt

call_outcome_example : Fails t3 (call five t3) ⊎ Performed five t3 (call five t3)
call_outcome_example = call_outcome five t3

-- What `cma_ledger_init` makes.
abbrev fresh_object : Object
fresh_object = record { magic = magic_number; basic = cma_ledger_basic }

abbrev fresh : Thread
fresh = record { ledger = some fresh_object; last_err_msg = "Insufficient funds" }

get_balance-Read_example :
    Read 0 0 fresh_object fresh (cma_ledger_get_balance 0 0 false (some (units 9)) fresh)
unfolding is_initialized
get_balance-Read_example = get_balance-Read 0 0 (units 9) fresh_object fresh refl refl
