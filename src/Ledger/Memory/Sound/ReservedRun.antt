-- ===== src/Ledger/Memory/Sound/ReservedRun.antt =====
-- Any run of a `cma_ledger_memory` with no more balances than its vector reserves.
use mathlib.Core.Path.{subst}
use machine_asset_tools.Prelude.{
  ℕ, ◌≤◌, ◌<◌, ◌^◌, ◌≡◌, arith, inr, List, [], ◌∷◌, length, nat_key, bytes_key, pair_key, ok,
}
use machine_asset_tools.Ledger.Memory.{MemoryLedger}
use machine_asset_tools.Ledger.Memory.Construct.{
  Sizes, Region, init_balance, new_ledger, cma_ledger_memory,
}
use machine_asset_tools.Ledger.Memory.Sound.{IsSound}
use machine_asset_tools.Ledger.Memory.Sound.Reserve.{
  IsReserved, deposit-IsReserved, withdraw-IsReserved, transfer-IsReserved,
}
use machine_asset_tools.Ledger.Memory.Sound.Registered.{
  retrieve_asset-IsReserved, remove_asset-IsReserved, retrieve_account-IsReserved,
  remove_account-IsReserved, clear-IsReserved,
}
use machine_asset_tools.Ledger.Memory.Sound.Reach.{Call, run, Room, run_all, run_all-IsSound}

run-IsReserved : (call : Call) (l : MemoryLedger) → IsReserved l → IsReserved (run call l)
unfolding run
run-IsReserved Call.clear l w = clear-IsReserved l w
run-IsReserved (Call.retrieve_asset args operation) l w = retrieve_asset-IsReserved operation _ w
run-IsReserved (Call.remove_asset i) l w = remove_asset-IsReserved i l w
run-IsReserved (Call.retrieve_account args operation) l w =
    retrieve_account-IsReserved operation _ w
run-IsReserved (Call.remove_account i) l w = remove_account-IsReserved i l w
run-IsReserved (Call.deposit i c amount) l w = deposit-IsReserved i c amount l w
run-IsReserved (Call.withdraw i c amount) l w = withdraw-IsReserved i c amount l w
run-IsReserved (Call.transfer i c d amount) l w = transfer-IsReserved i c d amount l w

pub reserved-Room : (calls : List Call) (l : MemoryLedger) → IsReserved l → Room calls l
unfolding IsReserved
reserved-Room [] l w = tt
reserved-Room (call ∷ calls) l w =
    (inr w, reserved-Room calls (run call l) (run-IsReserved call l w))

pub constructed-IsReserved :
    (s : Sizes) (region : Region) (n_accounts n_assets n_balances : ℕ) (l : MemoryLedger)
    → n_balances ≤ init_balance
    → cma_ledger_memory s region n_accounts n_assets n_balances ≡ ok l
    → IsReserved l
unfolding cma_ledger_memory IsReserved
constructed-IsReserved s region n_accounts n_assets n_balances l few e =
    let same : new_ledger region n_accounts n_assets n_balances ≡ l = ground arith in
    subst (λ m. m.max_balances ≤ m.virtual_capacity) same few

-- A memory ledger whose construction returned, with a limit of at most 2048 balances, the places
-- that its vector reserves, the other limits below 2 ^ 64, and as many entries in its memory as
-- the limit of balances, is sound after any calls in any order with any arguments, whether they
-- return or throw; so its vector of virtual balances never leaves a pointer dangling.
pub run_all_reserved-IsSound :
    (s : Sizes) (region : Region) (n_accounts n_assets n_balances : ℕ) (l : MemoryLedger)
    (calls : List Call)
    → n_accounts < 2 ^ 64
    → n_assets < 2 ^ 64
    → n_balances ≤ init_balance
    → length region.entries ≡ n_balances
    → cma_ledger_memory s region n_accounts n_assets n_balances ≡ ok l
    → IsSound (run_all calls l)
run_all_reserved-IsSound s region n_accounts n_assets n_balances l calls a b few d e =
    run_all-IsSound s region n_accounts n_assets n_balances l calls a b (omega (arith, few)) d e (
      reserved-Room calls l
        (constructed-IsReserved s region n_accounts n_assets n_balances l few e))
