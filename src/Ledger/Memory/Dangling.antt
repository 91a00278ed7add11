-- ===== src/Ledger/Memory/Dangling.antt =====
-- The virtual balances of `cma_ledger_memory` when their vector has no place left.
pub mod Tests
use mathlib.Core.Path.{subst}
use machine_asset_tools.Prelude.{refl, sym, true, nat_key, pair_key, if◌then◌else◌}
use machine_asset_tools.Amount.{Amount}
use machine_asset_tools.Ledger.Memory.Update.{create_balance}
