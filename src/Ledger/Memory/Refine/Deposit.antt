-- ===== src/Ledger/Memory/Refine/Deposit.antt =====
-- `cma_ledger_memory::deposit` implements `cma_ledger_basic::deposit`.
use machine_asset_tools.Prelude.{
  ℕ, ◌≡◌, some, arith, nat_key, pair_key, Result, ok, err, inl, inr, sym,
}
use mathlib.Core.Path.{subst}
use machine_asset_tools.Amount.{Amount}
use machine_asset_tools.Map.{find}
use machine_asset_tools.Ledger.Types.{Asset}
use machine_asset_tools.Ledger.Basic.{BasicLedger}
use machine_asset_tools.Ledger.Basic
use machine_asset_tools.Ledger.Basic.Transactions.{write_both}
use machine_asset_tools.Ledger.Memory.{MemoryLedger, set_asset_supply}
use machine_asset_tools.Ledger.Memory.Update.{set_account_asset_balance}
use machine_asset_tools.Ledger.Memory.Transact
use machine_asset_tools.Ledger.Memory.Placed.{HasPlaces}
use machine_asset_tools.Ledger.Memory.Checks.{
  Refines, NotBase, supply_after_deposit-Agree, balance_after_credit-Agree,
}
use machine_asset_tools.Ledger.Memory.Refine.{
  Simulates, SetSimulates, set_simulates, set_asset_supply-Refines, known_after, deposit_asset,
  credit_account,
}

deposit_returns :
    (i c : ℕ) (amount s v : Amount) (l l' l'' : MemoryLedger) (b b'' : BasicLedger)
    → Transact.supply_after_deposit i amount l ≡ (ok s, l)
    → Basic.supply_after_deposit i amount b ≡ (ok s, b)
    → Transact.balance_after_credit "Account by id not found" "Asset balance overflow" i c amount l
      ≡ (ok v, l)
    → Basic.balance_after_credit "Account by id not found" "Asset balance overflow" i c amount b
      ≡ (ok v, b)
    → set_account_asset_balance i c v l ≡ (ok tt, l')
    → set_asset_supply i s l' ≡ (ok tt, l'')
    → Basic.set_asset_supply i s (Basic.set_account_asset_balance i c v b) ≡ (ok tt, b'')
    → (Transact.deposit i c amount l ≡ (ok tt, l'')) × (Basic.deposit i c amount b ≡ (ok tt, b''))
unfolding Transact.deposit Basic.deposit
deposit_returns i c amount s v l l' l'' b b'' e1 f1 e2 f2 e3 e4 f4 = (ground arith, ground arith)

deposit_writes :
    (i c : ℕ) (amount s v : Amount) (x : Asset) (l : MemoryLedger) (b : BasicLedger)
    → Refines l b
    → find i b.lassid_to_asset ≡ some x
    → Transact.supply_after_deposit i amount l ≡ (ok s, l)
    → Basic.supply_after_deposit i amount b ≡ (ok s, b)
    → Transact.balance_after_credit "Account by id not found" "Asset balance overflow" i c amount l
      ≡ (ok v, l)
    → Basic.balance_after_credit "Account by id not found" "Asset balance overflow" i c amount b
      ≡ (ok v, b)
    → SetSimulates i c v l b
    → Simulates l b (Transact.deposit i c amount l) (Basic.deposit i c amount b)
unfolding Transact.deposit Basic.deposit
deposit_writes i c amount s v x l b r known e1 f1 e2 f2 (inl (full, new, set_error)) =
    ground (arith, write_both i c v s b x known)
deposit_writes i c amount s v x l b r known e1 f1 e2 f2 (inr (l', set_ok, changed, r')) =
    let (l'', supply_ok, supply_ok', r'') =
      set_asset_supply-Refines i s x l' (Basic.set_account_asset_balance i c v b) r'
        (known_after i c v b x i known) in
    let (ret, ret') =
      deposit_returns i c amount s v l l' l'' b _ e1 f1 e2 f2 set_ok supply_ok supply_ok' in
    subst (λ m. Simulates l b m (Basic.deposit i c amount b)) (sym ret)
      (subst (λ m. Simulates l b (ok tt, l'') m) (sym ret') r'')

deposit_checked :
    (i c : ℕ) (amount : Amount) (l : MemoryLedger) (b : BasicLedger)
    → Refines l b
    → HasPlaces 1 l
    → (supply balance : Result Amount) → Transact.supply_after_deposit i amount l ≡ (supply, l)
    → Basic.supply_after_deposit i amount b ≡ (supply, b)
    → Transact.balance_after_credit "Account by id not found" "Asset balance overflow" i c amount l
      ≡ (balance, l)
    → Basic.balance_after_credit "Account by id not found" "Asset balance overflow" i c amount b
      ≡ (balance, b)
    → Simulates l b (Transact.deposit i c amount l) (Basic.deposit i c amount b)
unfolding Transact.deposit Basic.deposit
deposit_checked i c amount l b r places (err m k) balance e1 f1 e2 f2 = ground arith
deposit_checked i c amount l b r places (ok s) (err m k) e1 f1 e2 f2 = ground arith
deposit_checked i c amount l b r places (ok s) (ok v) e1 f1 e2 f2 =
    let (x, known) = deposit_asset i amount s b f1 in
    deposit_writes i c amount s v x l b r known e1 f1 e2 f2 (
      set_simulates i c v x l b r places known
        (credit_account "Account by id not found" "Asset balance overflow" i c amount v b f2))

-- A deposit on a memory ledger that stands for a basic one and has a place left for a virtual
-- balance, or as many places as the limit of balances, of an asset that is not of the base type,
-- does what the deposit on the basic ledger does: both return and the memory ledger stands for the
-- basic one again; both throw the same message and code and change nothing; or the memory ledger
-- alone throws, with the code for reached balances, is full, and changes nothing.
pub deposit-Simulates :
    (i c : ℕ) (amount : Amount) (l : MemoryLedger) (b : BasicLedger)
    → Refines l b
    → HasPlaces 1 l
    → NotBase i l
    → Simulates l b (Transact.deposit i c amount l) (Basic.deposit i c amount b)
deposit-Simulates i c amount l b r places chain =
    let (supply, e1, f1) = supply_after_deposit-Agree l b r i amount chain in
    let (balance, e2, f2) =
      balance_after_credit-Agree l b r "Account by id not found" "Asset balance overflow" i c
        amount in
    deposit_checked i c amount l b r places supply balance e1 f1 e2 f2
