-- ===== src/Ledger/Memory.antt =====
-- `class cma_ledger_memory` (src/ledger_impl.h, src/ledger_impl.cpp): the ledger in a mapped file
-- or a buffer, with limits and removal. The balances lie in two arrays: `balances`, which is the
-- memory that others read, and `virtual_balances`; `last_balances` and `last_virtual_balances` hold
-- the keys of their places. A pointer into an array is the place in it, and one into a block that
-- `virtual_balances` has left is told apart.
pub mod Construct
pub mod Update
pub mod Slots
pub mod Placed
pub mod Written
pub mod Removed
pub mod Setting
pub mod Counted
pub mod Fields
pub mod Changed
pub mod Cases
pub mod Transact
pub mod Assets
pub mod Accounts
pub mod Checks
pub mod Refine
pub mod Dangling
pub mod Sound
pub mod Tests
use machine_asset_tools.Prelude.{
  ℕ, zero, suc, ◌+◌, ◌*◌, ◌%◌, ◌^◌, Bool, true, false, Option, none, some, List, [], ◌∷◌,
  if◌then◌else◌, ltb, Result, ok, err, Throws, nat_key, pair_key, length, replicate, get_elem?, set,
  ◌++◌,
}
use mathlib.Core.Option
use mathlib.Core.Option.{get_or}
use machine_asset_tools.Amount.{Amount, zero_amount}
use machine_asset_tools.Map.{Map, find, assign, size}
use machine_asset_tools.Ledger.Types.{Bytes, Asset, AssetType, Account, write}
use machine_asset_tools.Ledger.Code
use machine_asset_tools.Ledger.Basic.{AssetOut}

-- `cma_balance_type_t`
pub data BalanceType : Type 0 where
  virtual withdrawable : BalanceType

-- `cma_balance_t`: the type and the pointer that it selects.
pub record Balance : Type 0 where
  pub type : BalanceType
  pub place : ℕ

-- `cma_ledger_account_balance_t` less its padding.
pub record BalanceEntry : Type 0 where
  pub type : ℕ
  pub owner : Bytes
  pub token_address : Bytes
  pub token_id : Bytes
  pub amount : Amount

-- The bytes of an entry, filled with 0.
abbrev pub zero_entry : BalanceEntry
zero_entry = record {
  type = 0;
  owner = replicate 20 0;
  token_address = replicate 20 0;
  token_id = replicate 32 0;
  amount = zero_amount;
}

-- `cma_ledger_account_struct_t`
pub record AccountStruct : Type 0 where
  pub account : Account
  pub n_balances : ℕ

-- The members of the class.
pub record MemoryLedger : Type 0 where
  pub max_accounts : ℕ
  pub max_assets : ℕ
  pub max_balances : ℕ
  pub mem_offset : ℕ
  pub balances : List BalanceEntry
  pub virtual_balances : List Amount
  pub lassid_to_asset : Map ℕ Asset
  pub asset_to_lassid : Map Bytes ℕ
  pub laccid_to_account : Map ℕ AccountStruct
  pub account_to_laccid : Map Bytes ℕ
  pub account_asset_balance : Map (ℕ × ℕ) Balance
  pub last_balances : List (ℕ × ℕ)
  pub last_virtual_balances : List (ℕ × ℕ)
  pub next_asset_id : ℕ
  pub next_account_id : ℕ
  pub base_asset_id : ℕ
  pub base_asset_id_defined : Bool
  -- The places that the block of `virtual_balances` has. When an element is appended beyond them the
  -- vector moves to another block: the pointers to its first `virtual_moved` places, which were given
  -- before the last move, dangle, and what is read through them is `freed`, which may be anything.
  pub virtual_capacity : ℕ
  pub virtual_moved : ℕ
  pub freed : ℕ → Amount
  -- how many places a vector that moves gets beyond the one that it needs, by its length
  pub growth : ℕ → ℕ

-- The loop of `clear`: the first places of `balances` are filled with 0.
unfoldable pub clear_entries : ℕ → List BalanceEntry → List BalanceEntry
clear_entries zero entries = entries
clear_entries (suc n) [] = []
clear_entries (suc n) (e ∷ entries) = zero_entry ∷ clear_entries n entries

-- The ids that come next and the base asset's stay as they are.
unfoldable pub clear : MemoryLedger → MemoryLedger
clear l = record l {
  balances = clear_entries (length l.last_balances) l.balances;
  virtual_balances = [];
  last_balances = [];
  last_virtual_balances = [];
  account_to_laccid = [];
  laccid_to_account = [];
  asset_to_lassid = [];
  lassid_to_asset = [];
  account_asset_balance = [];
  virtual_moved = 0;
}

unfoldable pub get_asset_count : MemoryLedger → ℕ
get_asset_count l = size l.lassid_to_asset

-- The `switch` on the type of the asset that was found, and the supply.
found_asset : AssetType → Asset → AssetOut → AssetOut
found_asset AssetType.id a out = record out { supply = write out.supply a.supply }
found_asset AssetType.base a out = record out { supply = write out.supply a.supply }
found_asset AssetType.token_address a out = record out {
  token_address = write out.token_address a.token_address;
  supply = write out.supply a.supply;
}
found_asset t a out = record out {
  token_address = write out.token_address a.token_address;
  token_id = write out.token_id a.token_id;
  supply = write out.supply a.supply;
}

unfoldable pub find_asset : ℕ → MemoryLedger → AssetOut → Bool × AssetOut
unfolding find found_asset
find_asset asset_id l out = elim (find asset_id l.lassid_to_asset) [
  | none ↦ (false, out)
  | some a ↦ (true, found_asset a.type a (record out { asset_type = write out.asset_type a.type }))
]

unfoldable pub set_asset_supply : ℕ → Amount → Throws MemoryLedger (Unit {0})
unfolding find assign
set_asset_supply asset_id supply l = elim (find asset_id l.lassid_to_asset) [
  | none ↦ (err "Asset by id not found" Code.asset_not_found, l)
  | some a ↦ (
    ok tt,
    record l { lassid_to_asset = assign asset_id (record a { supply = supply }) l.lassid_to_asset },
  )
]

unfoldable pub get_account_count : MemoryLedger → ℕ
get_account_count l = size l.laccid_to_account

-- The pointers that `find_account` writes through.
pub record AccountOut : Type 0 where
  pub account : Option Account
  pub n_balances : Option ℕ

unfoldable pub find_account : ℕ → MemoryLedger → AccountOut → Bool × AccountOut
unfolding find
find_account account_id l out = elim (find account_id l.laccid_to_account) [
  | none ↦ (false, out)
  | some a ↦ (
    true,
    record {
      account = write out.account a.account;
      n_balances = write out.n_balances a.n_balances;
    },
  )
]

-- `cma_ledger_account_balance_info_t`; `none` is a null balance.
pub record BalanceInfo : Type 0 where
  pub offset : ℕ
  pub index : ℕ
  pub balance : Option ℕ

-- The amount that a pointer leads to, which is that of the freed block if the pointer dangles. The amount behind a place that the array does not have is
-- written as 0; the program never has such a pointer while the places are in order.
unfoldable pub amount_at : BalanceType → ℕ → MemoryLedger → Amount
amount_at BalanceType.virtual p l =
    if ltb p l.virtual_moved then l.freed p else get_or (get_elem? l.virtual_balances p) zero_amount
amount_at BalanceType.withdrawable p l = (get_or (get_elem? l.balances p) zero_entry).amount

-- `sizeof(cma_ledger_account_balance_t)`
abbrev pub entry_size : ℕ
entry_size = 128

-- The place that `account_balance_info` gets.
unfoldable pub balance_info : BalanceType → ℕ → BalanceInfo → MemoryLedger → BalanceInfo
balance_info BalanceType.virtual p info l = record info { balance = none }
balance_info BalanceType.withdrawable p info l = record {
  offset = (p * entry_size + l.mem_offset) % 2 ^ 64;
  index = p;
  balance = some p;
}

unfoldable pub get_account_asset_balance :
    ℕ → ℕ → Option Amount → Option BalanceInfo → MemoryLedger → Option Amount × Option BalanceInfo
unfolding find balance_info amount_at
get_account_asset_balance asset_id account_id balance info l =
    elim (find (asset_id, account_id) l.account_asset_balance) [
      | none ↦ (
        write balance zero_amount,
        Option.map (λ (i : BalanceInfo). record i { balance = none }) info,
      )
      | some b ↦ (
        write balance (amount_at b.type b.place l),
        Option.map (λ i. balance_info b.type b.place i l) info,
      )
    ]

unfoldable pub get_balances_size : MemoryLedger → ℕ
get_balances_size l = length l.last_balances

unfoldable pub get_mem_offset : MemoryLedger → ℕ
get_mem_offset l = l.mem_offset
