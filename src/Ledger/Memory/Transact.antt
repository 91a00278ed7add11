-- ===== src/Ledger/Memory/Transact.antt =====
-- `deposit`, `withdraw` and `transfer` of `cma_ledger_memory` (src/ledger_impl.cpp).
use machine_asset_tools.Prelude.{
  ℕ, Bool, not, ◌&&◌, ◌||◌, Option, none, some, ◌==◌, if◌then◌else◌, Throws, pure, gets, ◌>>=◌,
  ◌>>◌, throw_if, or_throw, exact_or_throw, String,
}
use mathlib.Core.Option.{get_or}
use machine_asset_tools.Amount.{
  Amount, zero_amount, is_zero, is_one, amount_checked_add, amount_checked_sub,
}
use machine_asset_tools.Ledger.Types.{AssetType, is_token_address_id}
use machine_asset_tools.Ledger.Code
use machine_asset_tools.Ledger.Memory.{
  MemoryLedger, find_asset, find_account, get_account_asset_balance, set_asset_supply,
}
use machine_asset_tools.Ledger.Memory.Update.{set_account_asset_balance}

-- `find_asset` with pointers to locals for the type and the supply: what the locals hold.
find_supply : ℕ → MemoryLedger → Option (AssetType × Amount)
unfolding find_asset
find_supply asset_id l =
    let (found, out) = find_asset asset_id l (record {
      asset_type = some AssetType.id;
      token_address = none;
      token_id = none;
      supply = some zero_amount;
    }) in
    if found then some (get_or out.asset_type AssetType.id, get_or out.supply zero_amount) else none

-- `get_account_asset_balance` with a pointer to a zeroed local.
balance_of : ℕ → ℕ → MemoryLedger → Amount
unfolding get_account_asset_balance
balance_of asset_id account_id l =
    get_or (get_account_asset_balance asset_id account_id (some zero_amount) none l).0 zero_amount

-- `find_account(account_id, nullptr, nullptr)`
has_account : ℕ → MemoryLedger → Bool
unfolding find_account
has_account account_id l =
    (find_account account_id l (record { account = none; n_balances = none })).0

-- Step 1 of `deposit`: the supply that it will write.
unfoldable pub supply_after_deposit : ℕ → Amount → Throws MemoryLedger Amount
unfolding find_supply
supply_after_deposit asset_id amount = do
  throw_if (is_zero amount) "Can't deposit zero" Code.balance_overflow
  found ← gets (find_supply asset_id)
  (asset_type, curr_supply) ← or_throw found "Asset by id not found" Code.asset_not_found
  new_supply ←
      exact_or_throw (amount_checked_add curr_supply amount) "Asset supply overflow"
        Code.supply_overflow
  throw_if (is_token_address_id asset_type && (not (is_zero curr_supply) || not (is_one amount)))
      "Can't deposit type id asset and end with higher amounts than 1" Code.supply_overflow
  pure new_supply

-- Step 1 of `withdraw`.
unfoldable pub supply_after_withdraw : ℕ → Amount → Throws MemoryLedger Amount
unfolding find_supply
supply_after_withdraw asset_id amount = do
  found ← gets (find_supply asset_id)
  (_, curr_supply) ← or_throw found "Asset by id not found" Code.asset_not_found
  exact_or_throw (amount_checked_sub curr_supply amount) "Asset supply underflow"
      Code.supply_overflow

-- Step 1 of `transfer`.
unfoldable pub check_asset : ℕ → Throws MemoryLedger (Unit {0})
unfolding find_supply
check_asset asset_id = do
  found ← gets (find_supply asset_id)
  or_throw found "Asset by id not found" Code.asset_not_found
  pure tt

-- An account is looked up and its balance raised: steps 2 and 3 of `deposit`, 4 and 5 of
-- `transfer`, each with its own messages.
unfoldable pub balance_after_credit : String → String → ℕ → ℕ → Amount → Throws MemoryLedger Amount
unfolding balance_of has_account
balance_after_credit unknown overflow asset_id account_id amount = do
  known ← gets (has_account account_id)
  throw_if (not known) unknown Code.account_not_found
  curr_balance ← gets (balance_of asset_id account_id)
  exact_or_throw (amount_checked_add curr_balance amount) overflow Code.balance_overflow

-- The same with the balance lowered: steps 2 and 3 of `withdraw` and of `transfer`.
unfoldable pub balance_after_debit : String → ℕ → ℕ → Amount → Throws MemoryLedger Amount
unfolding balance_of has_account
balance_after_debit unknown asset_id account_id amount = do
  known ← gets (has_account account_id)
  throw_if (not known) unknown Code.account_not_found
  curr_balance ← gets (balance_of asset_id account_id)
  exact_or_throw (amount_checked_sub curr_balance amount) "Insufficient funds"
      Code.insufficient_funds

unfoldable pub deposit : ℕ → ℕ → Amount → Throws MemoryLedger (Unit {0})
deposit asset_id to_account_id amount = do
  new_supply ← supply_after_deposit asset_id amount
  new_balance ←
      balance_after_credit "Account by id not found" "Asset balance overflow" asset_id to_account_id
        amount
  set_account_asset_balance asset_id to_account_id new_balance
  set_asset_supply asset_id new_supply

unfoldable pub withdraw : ℕ → ℕ → Amount → Throws MemoryLedger (Unit {0})
withdraw asset_id from_account_id amount = do
  new_supply ← supply_after_withdraw asset_id amount
  new_balance ← balance_after_debit "Account by id not found" asset_id from_account_id amount
  set_account_asset_balance asset_id from_account_id new_balance
  set_asset_supply asset_id new_supply

unfoldable pub transfer : ℕ → ℕ → ℕ → Amount → Throws MemoryLedger (Unit {0})
transfer asset_id from_account_id to_account_id amount = do
  check_asset asset_id
  throw_if (from_account_id == to_account_id) "Account from equal to account to" Code.e_inval
  new_balance_from ← balance_after_debit "Account from not found" asset_id from_account_id amount
  new_balance_to ←
      balance_after_credit "Account to not found" "Balance overflow" asset_id to_account_id amount
  set_account_asset_balance asset_id from_account_id new_balance_from
  set_account_asset_balance asset_id to_account_id new_balance_to
