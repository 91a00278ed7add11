-- ===== src/Ledger/Memory/Construct.antt =====
-- The constructors of `cma_ledger_memory` on a new mapped file or a buffer, and
-- `estimate_required_size` (src/ledger_impl.cpp). The sizes of the types, Boost's among them, are
-- parameters.
use machine_asset_tools.Prelude.{
  ℕ, ◌+◌, ◌*◌, ◌/◌, ◌%◌, ◌^◌, false, List, [], if◌then◌else◌, Result, ok, err, ltb,
}
use machine_asset_tools.Ledger.Code
use machine_asset_tools.Amount.{Amount}
use machine_asset_tools.Ledger.Memory.{MemoryLedger, BalanceEntry}

-- `sizeof` of the types that the estimate adds up.
pub record Sizes : Type 0 where
  pub void_allocator : ℕ
  pub lassid_to_asset : ℕ
  pub asset_to_lassid : ℕ
  pub laccid_to_account : ℕ
  pub account_to_laccid : ℕ
  pub account_asset_map : ℕ
  pub asset_id : ℕ
  pub account_id : ℕ
  pub asset_struct : ℕ
  pub account_struct : ℕ
  pub asset_key : ℕ
  pub account_key : ℕ
  pub map_key : ℕ
  pub balance : ℕ
  pub account_balance : ℕ
  pub bool : ℕ

-- CMA_LEDGER_MIN_MEM_LENGTH
abbrev pub min_mem_length : ℕ
min_mem_length = 262144

-- Arithmetic of `size_t`; sums and products wrap around alike, the division comes in between.
unfoldable pub estimate_required_size : Sizes → ℕ → ℕ → ℕ → ℕ
estimate_required_size s n_accounts n_assets n_balances =
    let sum =
      s.void_allocator
      + (s.lassid_to_asset + n_assets * (s.asset_id + s.asset_struct))
      + (s.asset_to_lassid + n_assets * (s.asset_key + s.asset_id))
      + (s.laccid_to_account + n_accounts * (s.account_id + s.account_struct))
      + (s.account_to_laccid + n_accounts * (s.account_key + s.account_id))
      + (s.account_asset_map
          + n_balances * (s.map_key + s.balance + s.account_balance + s.map_key + s.map_key))
      + 3 * s.asset_id
      + s.bool in
    (sum * 5 % 2 ^ 64 / 4 + min_mem_length) % 2 ^ 64

-- The file's mapping or the buffer: its length, and the entries that its start holds.
pub record Region : Type 0 where
  pub mem_length : ℕ
  pub offset : ℕ
  pub entries : List BalanceEntry
  -- what the blocks that a vector leaves read as later
  pub freed : ℕ → Amount
  -- how many places a vector that moves gets beyond the one that it needs, by its length
  pub growth : ℕ → ℕ

-- `INIT_BALANCE`, the places that the vectors reserve.
abbrev pub init_balance : ℕ
init_balance = 2048

-- The members after the construction: what was not found is constructed empty, or as 0.
abbrev pub new_ledger : Region → ℕ → ℕ → ℕ → MemoryLedger
new_ledger region n_accounts n_assets n_balances = record {
  max_accounts = n_accounts;
  max_assets = n_assets;
  max_balances = n_balances;
  mem_offset = region.offset;
  balances = region.entries;
  virtual_balances = [];
  lassid_to_asset = [];
  asset_to_lassid = [];
  laccid_to_account = [];
  account_to_laccid = [];
  account_asset_balance = [];
  last_balances = [];
  last_virtual_balances = [];
  next_asset_id = 0;
  next_account_id = 0;
  base_asset_id = 0;
  base_asset_id_defined = false;
  virtual_capacity = init_balance;
  virtual_moved = 0;
  freed = region.freed;
  growth = region.growth;
}

unfoldable pub cma_ledger_memory : Sizes → Region → ℕ → ℕ → ℕ → Result MemoryLedger
unfolding estimate_required_size
cma_ledger_memory s region n_accounts n_assets n_balances =
    if ltb region.mem_length (estimate_required_size s n_accounts n_assets n_balances)
    then err "Mem length too small" Code.e_nobufs
    else ok (new_ledger region n_accounts n_assets n_balances)
