-- ===== src/Ledger/Memory/Tests.antt =====
-- Runs of `cma_ledger_memory`, and the theorems about it at a ledger with one token and two wallets.
use machine_asset_tools.Prelude.{
  ℕ, ◌≡◌, refl, List, [], ◌∷◌, ◌++◌, replicate, bytes_eq, nat_key, bytes_key, pair_key, none, some,
  ok, err, arith, length, ◌≤◌, inr,
}
use mathlib.Core.Path.{subst}
use machine_asset_tools.Amount.{
  Amount, zero_amount, is_zero, is_one, amount_checked_add, amount_checked_sub,
}
use machine_asset_tools.Map.{find, insert, assign, erase}
use machine_asset_tools.Ledger.Types.{
  Bytes, Asset, AssetType, Account, AccountType, Operation, address_key,
}
use machine_asset_tools.Ledger.Code
use machine_asset_tools.Ledger.Basic.{BasicLedger}
use machine_asset_tools.Ledger.Basic
use machine_asset_tools.Ledger.Basic.Assets.{AssetArgs}
use machine_asset_tools.Ledger.Memory.{
  MemoryLedger, BalanceEntry, BalanceType, AccountStruct, zero_entry, set_asset_supply, find_asset,
  find_account, get_account_asset_balance, BalanceInfo, amount_at,
}
use machine_asset_tools.Ledger.Memory.Construct.{
  Sizes, Region, new_ledger, cma_ledger_memory, estimate_required_size,
}
use machine_asset_tools.Ledger.Memory.Update.{
  set_account_asset_balance, create_balance, append_balance, emplace_balance, end_place,
  write_n_balances,
}
use machine_asset_tools.Ledger.Memory.Assets
use machine_asset_tools.Ledger.Memory.Accounts
use machine_asset_tools.Ledger.Memory.Transact
use machine_asset_tools.Ledger.Memory.Slots.{at}
use machine_asset_tools.Ledger.Memory.Placed.{stored, HasPlaces}
use machine_asset_tools.Ledger.Memory.Checks.{Refines, NotBase}
use machine_asset_tools.Ledger.Memory.Changed.{IsChanged}
use machine_asset_tools.Ledger.Memory.Refine.{Simulates}
use machine_asset_tools.Ledger.Memory.Refine.Deposit.{deposit-Simulates}
use machine_asset_tools.Ledger.Memory.Refine.Withdraw.{withdraw-Simulates}
use machine_asset_tools.Ledger.Memory.Refine.Transfer.{SimulatesTransfer, transfer-Simulates}
use machine_asset_tools.Ledger.Memory.Sound.{IsSound}
use machine_asset_tools.Ledger.Memory.Sound.Reach.{Call, Room, run, run_all, run_all-IsSound}
use machine_asset_tools.Ledger.Memory.Sound.ReservedRun.{
  reserved-Room, constructed-IsReserved, run_all_reserved-IsSound,
}
use machine_asset_tools.Ledger.Memory.Sound.Gone.{AccountGone, remove_account-AccountGone}
use machine_asset_tools.Ledger.Memory.Sound.Info.{Located, get_account_asset_balance-Located}
use machine_asset_tools.Ledger.Memory.Sound.HalfWay.{transfer-stops_half_way}

abbrev pub units : ℕ → Amount
units n = replicate 31 0 ++ (n ∷ [])

abbrev token : Bytes
token = replicate 20 7

abbrev alice : Bytes
alice = replicate 20 1

abbrev bob : Bytes
bob = replicate 20 2

abbrev no_sizes : Sizes
no_sizes = record {
  void_allocator = 0;
  lassid_to_asset = 0;
  asset_to_lassid = 0;
  laccid_to_account = 0;
  account_to_laccid = 0;
  account_asset_map = 0;
  asset_id = 8;
  account_id = 8;
  asset_struct = 88;
  account_struct = 48;
  asset_key = 53;
  account_key = 32;
  map_key = 16;
  balance = 24;
  account_balance = 128;
  bool = 1;
}

-- A buffer of 320 KiB with room for `n` balances.
abbrev pub buffer : List BalanceEntry → Region
buffer entries = record {
  mem_length = 327680;
  offset = 0;
  entries = entries;
  freed = λ p. zero_amount;
  growth = λ n. n;
}

abbrev token_args : AssetArgs
token_args = record {
  asset_id = none;
  token_address = some token;
  token_id = none;
  out_total_supply = none;
  asset_type = AssetType.token_address;
}

abbrev wallet_args : Bytes → Accounts.AccountArgs
wallet_args address = record {
  account_id = none;
  account = none;
  addr_accid = some address;
  n_balances = none;
  account_type = AccountType.wallet_address;
}

abbrev calls : List Call
calls =
    Call.retrieve_asset token_args Operation.create
    ∷ Call.retrieve_account (wallet_args alice) Operation.create
    ∷ Call.retrieve_account (wallet_args bob) Operation.find_or_create
    ∷ Call.deposit 0 0 (units 5)
    ∷ []

abbrev pub token_asset : Asset
token_asset = record {
  type = AssetType.token_address;
  token_address = token;
  token_id = replicate 32 0;
  supply = units 5;
}

abbrev wallet : Bytes → Account
wallet address = record {
  type = AccountType.wallet_address;
  account_id = replicate 12 0 ++ address;
}

abbrev wallet_struct : Bytes → ℕ → AccountStruct
wallet_struct address n = record { account = wallet address; n_balances = n }

-- The ledger after the calls, with `entries` behind Alice's.
abbrev filled : List BalanceEntry → MemoryLedger
filled entries =
    record (new_ledger (buffer (zero_entry ∷ entries)) 4 4 (length (zero_entry ∷ entries))) {
      balances =
          record zero_entry { type = 2; owner = alice; token_address = token; amount = units 5 }
          ∷ entries;
      lassid_to_asset = (0, token_asset) ∷ [];
      asset_to_lassid = (address_key token, 0) ∷ [];
      laccid_to_account = (1, wallet_struct bob 0) ∷ (0, wallet_struct alice 1) ∷ [];
      account_to_laccid = ((wallet bob).account_id, 1) ∷ ((wallet alice).account_id, 0) ∷ [];
      account_asset_balance = ((0, 0), at BalanceType.withdrawable 0) ∷ [];
      last_balances = (0, 0) ∷ [];
      next_asset_id = 1;
      next_account_id = 2;
    }

abbrev one_entry : MemoryLedger
one_entry = filled []

abbrev two_entries : MemoryLedger
two_entries = filled (zero_entry ∷ [])

calls-one_entry : run_all calls (new_ledger (buffer (zero_entry ∷ [])) 4 4 1) ≡ one_entry
unfolding run run_all find insert assign bytes_eq is_zero is_one amount_checked_add address_key
    Assets.retrieve_asset Assets.retrieve_by_type Assets.retrieve_by_address Assets.retrieve_by_key
    Assets.create_by_key Assets.check_max_assets Assets.insert_asset_key Assets.insert_asset
    Accounts.retrieve_account Accounts.retrieve_by_type Accounts.retrieve_by_bytes
    Accounts.local_account Accounts.search_by_key Accounts.create_by_key Accounts.check_max_accounts
    Accounts.insert_account_key Accounts.insert_account Transact.deposit
    Transact.supply_after_deposit Transact.balance_after_credit set_account_asset_balance
    create_balance append_balance emplace_balance end_place write_n_balances set_asset_supply
    find_asset find_account get_account_asset_balance
calls-one_entry = refl

calls-two_entries :
    run_all calls (new_ledger (buffer (zero_entry ∷ zero_entry ∷ [])) 4 4 2) ≡ two_entries
unfolding run run_all find insert assign bytes_eq is_zero is_one amount_checked_add address_key
    Assets.retrieve_asset Assets.retrieve_by_type Assets.retrieve_by_address Assets.retrieve_by_key
    Assets.create_by_key Assets.check_max_assets Assets.insert_asset_key Assets.insert_asset
    Accounts.retrieve_account Accounts.retrieve_by_type Accounts.retrieve_by_bytes
    Accounts.local_account Accounts.search_by_key Accounts.create_by_key Accounts.check_max_accounts
    Accounts.insert_account_key Accounts.insert_account Transact.deposit
    Transact.supply_after_deposit Transact.balance_after_credit set_account_asset_balance
    create_balance append_balance emplace_balance end_place write_n_balances set_asset_supply
    find_asset find_account get_account_asset_balance
calls-two_entries = refl

abbrev basic_ledger : BasicLedger
basic_ledger = record {
  account_to_laccid = [];
  laccid_to_account = (0, wallet alice) ∷ (1, wallet bob) ∷ [];
  asset_to_lassid = [];
  lassid_to_asset = (0, token_asset) ∷ [];
  account_asset_balance = ((0, 0), units 5) ∷ [];
}

one_entry-constructed :
    cma_ledger_memory no_sizes (buffer (zero_entry ∷ [])) 4 4 1
    ≡ ok (new_ledger (buffer (zero_entry ∷ [])) 4 4 1)
unfolding cma_ledger_memory estimate_required_size
one_entry-constructed = refl

two_entries-constructed :
    cma_ledger_memory no_sizes (buffer (zero_entry ∷ zero_entry ∷ [])) 4 4 2
    ≡ ok (new_ledger (buffer (zero_entry ∷ zero_entry ∷ [])) 4 4 2)
unfolding cma_ledger_memory estimate_required_size
two_entries-constructed = refl

calls_one-Room : Room calls (new_ledger (buffer (zero_entry ∷ [])) 4 4 1)
calls_one-Room = reserved-Room calls _ (
    constructed-IsReserved no_sizes (buffer (zero_entry ∷ [])) 4 4 1
      (new_ledger (buffer (zero_entry ∷ [])) 4 4 1) (omega arith) one_entry-constructed)

run_all-IsSound_example : IsSound (run_all calls (new_ledger (buffer (zero_entry ∷ [])) 4 4 1))
run_all-IsSound_example =
    run_all-IsSound no_sizes (buffer (zero_entry ∷ [])) 4 4 1
      (new_ledger (buffer (zero_entry ∷ [])) 4 4 1) calls (omega arith) (omega arith) (omega arith)
      refl one_entry-constructed calls_one-Room

run_all_reserved-IsSound_example :
    IsSound (run_all calls (new_ledger (buffer (zero_entry ∷ [])) 4 4 1))
run_all_reserved-IsSound_example =
    run_all_reserved-IsSound no_sizes (buffer (zero_entry ∷ [])) 4 4 1
      (new_ledger (buffer (zero_entry ∷ [])) 4 4 1) calls (omega arith) (omega arith) (omega arith)
      refl one_entry-constructed

one_entry-IsSound : IsSound one_entry
one_entry-IsSound =
    subst (λ l. IsSound l) calls-one_entry
      (run_all_reserved-IsSound no_sizes (buffer (zero_entry ∷ [])) 4 4 1
        (new_ledger (buffer (zero_entry ∷ [])) 4 4 1) calls (omega arith) (omega arith)
        (omega arith) refl one_entry-constructed)

two_entries-IsSound : IsSound two_entries
two_entries-IsSound =
    subst (λ l. IsSound l) calls-two_entries
      (run_all_reserved-IsSound no_sizes (buffer (zero_entry ∷ zero_entry ∷ [])) 4 4 2
        (new_ledger (buffer (zero_entry ∷ zero_entry ∷ [])) 4 4 2) calls (omega arith) (omega arith)
        (omega arith) refl two_entries-constructed)

two_entries-Refines : Refines two_entries basic_ledger
unfolding IsSound find amount_at
two_entries-Refines = record {
  placed = two_entries-IsSound.placed;
  counted = two_entries-IsSound.counted;
  assets = λ i. refl;
  accounts = λ d. ground arith;
  balances = λ i c. ground arith;
}

token-NotBase : NotBase 0 two_entries
unfolding find
token-NotBase x e = ground arith

two_places : (n : ℕ) → HasPlaces n two_entries
two_places n = inr two_fit
  where
    two_fit : 2 ≤ 2048
    two_fit = omega arith

deposit-Simulates_example :
    Simulates two_entries basic_ledger
      (Transact.deposit 0 1 (units 3) two_entries)
      (Basic.deposit 0 1 (units 3) basic_ledger)
deposit-Simulates_example =
    deposit-Simulates 0 1 (units 3) two_entries basic_ledger two_entries-Refines (two_places 1)
      token-NotBase

withdraw-Simulates_example :
    Simulates two_entries basic_ledger
      (Transact.withdraw 0 0 (units 5) two_entries)
      (Basic.withdraw 0 0 (units 5) basic_ledger)
withdraw-Simulates_example =
    withdraw-Simulates 0 0 (units 5) two_entries basic_ledger two_entries-Refines (two_places 1)
      token-NotBase

transfer-Simulates_example :
    SimulatesTransfer 0 0 1
      (units 2)
      two_entries
      basic_ledger
      (Transact.transfer 0 0 1 (units 2) two_entries)
      (Basic.transfer 0 0 1 (units 2) basic_ledger)
transfer-Simulates_example =
    transfer-Simulates 0 0 1 (units 2) two_entries basic_ledger two_entries-Refines (two_places 2)
      token-NotBase

bob_removed : (Accounts.remove_account 1 one_entry).0 ≡ ok tt
unfolding find erase bytes_eq Accounts.remove_account Accounts.unregister_account
    Accounts.erase_account_key Accounts.erase_account
bob_removed = refl

remove_account-AccountGone_example : AccountGone 1 one_entry (Accounts.remove_account 1 one_entry).1
remove_account-AccountGone_example =
    remove_account-AccountGone 1 one_entry one_entry-IsSound bob_removed

abbrev no_info : BalanceInfo
no_info = record { offset = 0; index = 0; balance = none }

get_account_asset_balance-Located_example :
    Located 0 0 one_entry
      (get_account_asset_balance 0 0 (some zero_amount) (some no_info) one_entry).0
      (get_account_asset_balance 0 0 (some zero_amount) (some no_info) one_entry).1
get_account_asset_balance-Located_example =
    get_account_asset_balance-Located 0 0 zero_amount no_info one_entry one_entry-IsSound

stored_in_one_entry : (stored (0, 0) one_entry ≡ some (units 5)) × (stored (0, 1) one_entry ≡ none)
unfolding find amount_at
stored_in_one_entry = (refl, refl)

transfer-stops_half_way_example :
    ((Transact.transfer 0 0 1 (units 2) one_entry).0
      ≡ err "Max balances reached" Code.max_balances_reached)
    × IsChanged
        (0, 0)
        (some (amount_checked_sub (units 5) (units 2)).0)
        one_entry
        (Transact.transfer 0 0 1 (units 2) one_entry).1
unfolding find is_zero bytes_eq amount_checked_add amount_checked_sub
transfer-stops_half_way_example =
    transfer-stops_half_way 0 0 1 (units 2) (units 5) token_asset (wallet_struct alice 1)
      (wallet_struct bob 0) one_entry one_entry-IsSound refl (omega arith) refl refl
      stored_in_one_entry.0 stored_in_one_entry.1 refl refl refl refl
