-- ===== src/Ledger/Memory/Checks.antt =====
-- The checks of a transaction give the same on a `cma_ledger_memory` and on the `cma_ledger_basic`
-- that it stands for.
use machine_asset_tools.Prelude.{
  ℕ, ◌≡◌, ◌≢◌, none, some, arith, nat_key, pair_key, Result, Option-cases, inl, inr, String, Throws,
}
use mathlib.Core.Option.{get_or}
use machine_asset_tools.Amount.{Amount, zero_amount}
use machine_asset_tools.Map.{find}
use machine_asset_tools.Ledger.Types.{Asset, AssetType}
use machine_asset_tools.Ledger.Basic.{BasicLedger}
use machine_asset_tools.Ledger.Basic
use machine_asset_tools.Ledger.Memory.{
  MemoryLedger, find_asset, find_account, get_account_asset_balance,
}
use machine_asset_tools.Ledger.Memory.Transact
use machine_asset_tools.Ledger.Memory.Placed.{IsPlaced, stored}
use machine_asset_tools.Ledger.Memory.Counted.{IsCounted}
use machine_asset_tools.Ledger.Memory.Changed.{account_of}

-- The memory ledger stands for the basic one: the same assets, the same accounts and the same
-- balances, where no entry is a balance of 0.
pub record Refines (l : MemoryLedger) (b : BasicLedger) : Type 0 where
  pub placed : IsPlaced l
  pub counted : IsCounted l
  pub assets : (i : ℕ) → find i l.lassid_to_asset ≡ find i b.lassid_to_asset
  pub accounts : (d : ℕ) → account_of d l ≡ find d b.laccid_to_account
  pub balances :
      (i c : ℕ)
      → get_or (stored (i, c) l) zero_amount
        ≡ get_or (find (i, c) b.account_asset_balance) zero_amount

-- `cma_ledger_basic` throws on an asset of the base type.
abbrev pub NotBase : ℕ → MemoryLedger → Type 0
NotBase i l = (x : Asset) → find i l.lassid_to_asset ≡ some x → x.type ≢ AssetType.base

-- Two checks that give the same and write nothing.
abbrev pub Agree :
    {A : Type 0}
    → Throws MemoryLedger A
    → Throws BasicLedger A
    → MemoryLedger
    → BasicLedger
    → Type 0
Agree {A} f g l b = (r : Result A) × (f l ≡ (r, l)) × (g b ≡ (r, b))

module _ (l : MemoryLedger) (b : BasicLedger) (r : Refines l b) where
  pub supply_after_deposit-Agree :
      (i : ℕ) (amount : Amount)
      → NotBase i l
      → Agree (Transact.supply_after_deposit i amount) (Basic.supply_after_deposit i amount) l b
  unfolding Transact.supply_after_deposit Basic.supply_after_deposit Basic.find_asset find_asset
  supply_after_deposit-Agree i amount chain = elim (Option-cases (find i b.lassid_to_asset)) [
    | inl missing ↦ (
      (Transact.supply_after_deposit i amount l).0,
      ground (arith, r.assets i),
      ground (arith, r.assets i),
    )
    | inr (x, known) ↦ (
      (Transact.supply_after_deposit i amount l).0,
      ground (arith, r.assets i),
      ground (arith, r.assets i, chain x),
    )
  ]

  pub supply_after_withdraw-Agree :
      (i : ℕ) (amount : Amount)
      → NotBase i l
      → Agree (Transact.supply_after_withdraw i amount) (Basic.supply_after_withdraw i amount) l b
  unfolding Transact.supply_after_withdraw Basic.supply_after_withdraw Basic.find_asset find_asset
  supply_after_withdraw-Agree i amount chain = elim (Option-cases (find i b.lassid_to_asset)) [
    | inl missing ↦ (
      (Transact.supply_after_withdraw i amount l).0,
      ground (arith, r.assets i),
      ground (arith, r.assets i),
    )
    | inr (x, known) ↦ (
      (Transact.supply_after_withdraw i amount l).0,
      ground (arith, r.assets i),
      ground (arith, r.assets i, chain x),
    )
  ]

  pub check_asset-Agree :
      (i : ℕ) → NotBase i l → Agree (Transact.check_asset i) (Basic.check_asset i) l b
  unfolding Transact.check_asset Basic.check_asset Basic.find_asset find_asset
  check_asset-Agree i chain = elim (Option-cases (find i b.lassid_to_asset)) [
    | inl missing ↦
        ((Transact.check_asset i l).0, ground (arith, r.assets i), ground (arith, r.assets i))
    | inr (x, known) ↦ (
      (Transact.check_asset i l).0,
      ground (arith, r.assets i),
      ground (arith, r.assets i, chain x),
    )
  ]

  memory_balance :
      (i c : ℕ)
      → get_or (get_account_asset_balance i c (some zero_amount) none l).0 zero_amount
        ≡ get_or (stored (i, c) l) zero_amount
  unfolding get_account_asset_balance
  memory_balance i c = ground arith

  memory_account :
      (c : ℕ)
      → (find_account c l (record { account = none; n_balances = none })).0
        ≡ (Basic.find_account c b none).0
  unfolding find_account Basic.find_account
  memory_account c = ground (arith, r.accounts c)

  pub balance_after_credit-Agree :
      (unknown overflow : String) (i c : ℕ) (amount : Amount)
      → Agree
          (Transact.balance_after_credit unknown overflow i c amount)
          (Basic.balance_after_credit unknown overflow i c amount)
          l
          b
  unfolding Transact.balance_after_credit Basic.balance_after_credit Basic.get_account_asset_balance
  balance_after_credit-Agree unknown overflow i c amount = (
    (Transact.balance_after_credit unknown overflow i c amount l).0,
    ground (arith),
    ground (arith, memory_account c, memory_balance i c, r.balances i c),
  )

  pub balance_after_debit-Agree :
      (unknown : String) (i c : ℕ) (amount : Amount)
      → Agree
          (Transact.balance_after_debit unknown i c amount)
          (Basic.balance_after_debit unknown i c amount)
          l
          b
  unfolding Transact.balance_after_debit Basic.balance_after_debit Basic.get_account_asset_balance
  balance_after_debit-Agree unknown i c amount = (
    (Transact.balance_after_debit unknown i c amount l).0,
    ground (arith),
    ground (arith, memory_account c, memory_balance i c, r.balances i c),
  )
