-- ===== src/Ledger/Basic/Balances.antt =====
-- The balances of `cma_ledger_basic` as numbers: one balance, and the total over the accounts.
use machine_asset_tools.Prelude.{
  ℕ, ◌+◌, ◌≤◌, ◌≡◌, ◌≢◌, refl, Option, none, some, [], ◌∷◌, ◌==◌, if◌then◌else◌, arith, nat_key,
  pair_key, pair_eq, inl, inr, Option-cases, Bool-cases,
}
use machine_asset_tools.Amount.{Amount}
use machine_asset_tools.Amount.Value.{value}
use machine_asset_tools.Map.{Map, find, assign}
use machine_asset_tools.Map.Laws.{find-assign}
use machine_asset_tools.Ledger.Types.{Asset}
use machine_asset_tools.Ledger.Basic.{BasicLedger, set_account_asset_balance}

-- The sum of the balances of one asset.
pub total : ℕ → Map (ℕ × ℕ) Amount → ℕ
total i [] = 0
total i (((j, a), b) ∷ m) = (if j == i then value b else 0) + total i m

pub total_nil : (i : ℕ) → total i [] ≡ 0
unfolding total
total_nil i = refl

abbrev pub amount_value : Option Amount → ℕ
amount_value none = 0
amount_value (some b) = value b

-- A missing balance is 0.
abbrev pub balance_value : ℕ → ℕ → BasicLedger → ℕ
balance_value i a l = amount_value (find (i, a) l.account_asset_balance)

abbrev pub supply_of : Option Asset → ℕ
supply_of none = 0
supply_of (some x) = value x.supply

abbrev pub supply_value : ℕ → BasicLedger → ℕ
supply_value i l = supply_of (find i l.lassid_to_asset)

total-assign :
    (i a j : ℕ) (v w : Amount) (m : Map (ℕ × ℕ) Amount)
    → find (i, a) m ≡ some w
    → total j (assign (i, a) v m) + (if i == j then value w else 0)
      ≡ total j m + (if i == j then value v else 0)
unfolding total find assign
total-assign i a j v w [] e = ground arith
total-assign i a j v w (((i', a'), b) ∷ m) e = elim (Bool-cases (pair_eq (i', a') (i, a))) [
  | inl here ↦ ground arith
  | inr there ↦ ground (arith, total-assign i a j v w m)
]

-- No balance exceeds the total of its asset.
pub find-le-total : (i a : ℕ) (m : Map (ℕ × ℕ) Amount) → amount_value (find (i, a) m) ≤ total i m
unfolding total find
find-le-total i a [] = ground arith
find-le-total i a (((i', a'), b) ∷ m) = ground (arith, find-le-total i a m)

-- Nor do two balances of one asset together.
pub find-find-le-total :
    (i a c : ℕ) (m : Map (ℕ × ℕ) Amount)
    → a ≢ c
    → amount_value (find (i, a) m) + amount_value (find (i, c) m) ≤ total i m
unfolding total find
find-find-le-total i a c [] ne = ground arith
find-find-le-total i a c (((i', a'), b) ∷ m) ne =
    ground (arith, find-find-le-total i a c m, find-le-total i a m, find-le-total i c m)

module _ (i a : ℕ) (v : Amount) (l : BasicLedger) where
  -- A balance that is set, seen from every key.
  pub find-set_balance :
      (j c : ℕ)
      → find (j, c) (set_account_asset_balance i a v l).account_asset_balance
        ≡ (if pair_eq (i, a) (j, c) then some v else find (j, c) l.account_asset_balance)
  unfolding set_account_asset_balance
  find-set_balance j c = elim (Option-cases (find (i, a) l.account_asset_balance)) [
    | inl new ↦ ground arith
    | inr (w, old) ↦ ground (arith, find-assign (i, a) (j, c) v w l.account_asset_balance old)
  ]

  pub total-set_balance :
      (j : ℕ)
      → total j (set_account_asset_balance i a v l).account_asset_balance
          + (if i == j then balance_value i a l else 0)
        ≡ total j l.account_asset_balance + (if i == j then value v else 0)
  unfolding set_account_asset_balance total
  total-set_balance j = elim (Option-cases (find (i, a) l.account_asset_balance)) [
    | inl new ↦ ground arith
    | inr (w, old) ↦ ground (arith, total-assign i a j v w l.account_asset_balance old)
  ]

  pub set_balance-assets : (set_account_asset_balance i a v l).lassid_to_asset ≡ l.lassid_to_asset
  unfolding set_account_asset_balance
  set_balance-assets = ground arith
