-- ===== src/Ledger/Memory/Refine/Transfer.antt =====
-- `cma_ledger_memory::transfer` implements `cma_ledger_basic::transfer`, but for where it stops.
use machine_asset_tools.Prelude.{
  ℕ, ◌≡◌, ◌≢◌, ◌≤◌, refl, none, arith, nat_key, pair_key, Result, ok, err, Bool-cases, inl, inr,
  ◌⊎◌, ◌==◌, ◌∙◌, sym, String,
}
use mathlib.Core.Path.{subst}
use mathlib.Core.Option.{get_or}
use machine_asset_tools.Amount.{Amount, zero_amount, amount_checked_sub}
use machine_asset_tools.Map.{size}
use machine_asset_tools.Ledger.Types.{Asset}
use machine_asset_tools.Ledger.Code
use machine_asset_tools.Ledger.Basic.{BasicLedger}
use machine_asset_tools.Ledger.Basic
use machine_asset_tools.Ledger.Basic.Transactions.{balance_after_debit_cases}
use machine_asset_tools.Ledger.Memory.{MemoryLedger}
use machine_asset_tools.Ledger.Memory.Update.{set_account_asset_balance}
use machine_asset_tools.Ledger.Memory.Transact
use machine_asset_tools.Ledger.Memory.Placed.{HasPlaces, stored}
use machine_asset_tools.Ledger.Memory.Changed.{IsChanged, fewer-HasPlaces, changed-HasPlaces}
use machine_asset_tools.Ledger.Memory.Cases.{settled}
use machine_asset_tools.Ledger.Memory.Checks.{
  Refines, NotBase, check_asset-Agree, balance_after_credit-Agree, balance_after_debit-Agree,
}
use machine_asset_tools.Ledger.Memory.Refine.{
  SetSimulates, set_simulates, known_after, account_after, credit_account, transfer_asset,
  debit_account,
}

-- The balance that a debit writes.
abbrev pub debited : ℕ → ℕ → Amount → MemoryLedger → Amount
debited i c amount l = (amount_checked_sub (get_or (stored (i, c) l) zero_amount) amount).0

debit_value :
    (unknown : String) (i c : ℕ) (amount v : Amount) (l : MemoryLedger) (b : BasicLedger)
    → Refines l b
    → Basic.balance_after_debit unknown i c amount b ≡ (ok v, b)
    → v ≡ debited i c amount l
debit_value unknown i c amount v l b r e = elim (balance_after_debit_cases unknown i c amount b) [
  | inl refused ↦ absurd (ground arith)
  | inr (checked, f) ↦ ground (arith, r.balances i c)
]

-- As `Simulates`, where the memory ledger may also stop between the two writes of a transfer: the
-- amount has left the first account and has not come to the second one, which has no entry.
abbrev pub SimulatesTransfer :
    ℕ
    → ℕ
    → ℕ
    → Amount
    → MemoryLedger
    → BasicLedger
    → Result (Unit {0}) × MemoryLedger
    → Result (Unit {0}) × BasicLedger
    → Type 0
SimulatesTransfer i c d amount l b (ok _, l') (ok _, b') = Refines l' b'
SimulatesTransfer i c d amount l b (ok _, l') (err m k, b') = ⊥
SimulatesTransfer i c d amount l b (err m k, l') (ok _, b') =
    (k ≡ Code.max_balances_reached)
    × ((l' ≡ l)
        ⊎ ((stored (i, d) l ≡ none)
            × (l'.max_balances ≤ size l'.account_asset_balance)
            × IsChanged (i, c) (settled (stored (i, c) l) (debited i c amount l)) l l'))
SimulatesTransfer i c d amount l b (err m k, l') (err m' k', b') =
    (m ≡ m') × (k ≡ k') × (l' ≡ l) × (b' ≡ b)

-- The hypotheses of the steps of a transfer.
module _ (i c d : ℕ) (amount : Amount) (l : MemoryLedger) (b : BasicLedger) (r : Refines l b) where
  both_equal :
      (m m' : Result (Unit {0}) × MemoryLedger) (n n' : Result (Unit {0}) × BasicLedger)
      → m ≡ m'
      → n ≡ n'
      → SimulatesTransfer i c d amount l b m n
      → SimulatesTransfer i c d amount l b m' n'
  both_equal m m' n n' e f h =
      subst (λ q. SimulatesTransfer i c d amount l b q n') e
        (subst (λ q. SimulatesTransfer i c d amount l b m q) f h)

  transfer_returns :
      (u v : Amount) (l1 : MemoryLedger)
      → c ≢ d
      → Transact.check_asset i l ≡ (ok tt, l)
      → Basic.check_asset i b ≡ (ok tt, b)
      → Transact.balance_after_debit "Account from not found" i c amount l ≡ (ok v, l)
      → Basic.balance_after_debit "Account from not found" i c amount b ≡ (ok v, b)
      → Transact.balance_after_credit "Account to not found" "Balance overflow" i d amount l
        ≡ (ok u, l)
      → Basic.balance_after_credit "Account to not found" "Balance overflow" i d amount b
        ≡ (ok u, b)
      → set_account_asset_balance i c v l ≡ (ok tt, l1)
      → (Transact.transfer i c d amount l ≡ set_account_asset_balance i d u l1)
        × (Basic.transfer i c d amount b ≡ (
          ok tt,
          Basic.set_account_asset_balance i d u (Basic.set_account_asset_balance i c v b),
        ))
  unfolding Transact.transfer Basic.transfer
  transfer_returns u v l1 ne e1 f1 e2 f2 e3 f3 e4 = (ground arith, ground arith)

  transfer_second :
      (u v : Amount) (x : Asset) (l1 : MemoryLedger)
      → c ≢ d
      → Transact.check_asset i l ≡ (ok tt, l)
      → Basic.check_asset i b ≡ (ok tt, b)
      → Transact.balance_after_debit "Account from not found" i c amount l ≡ (ok v, l)
      → Basic.balance_after_debit "Account from not found" i c amount b ≡ (ok v, b)
      → Transact.balance_after_credit "Account to not found" "Balance overflow" i d amount l
        ≡ (ok u, l)
      → Basic.balance_after_credit "Account to not found" "Balance overflow" i d amount b
        ≡ (ok u, b)
      → set_account_asset_balance i c v l ≡ (ok tt, l1)
      → IsChanged (i, c) (settled (stored (i, c) l) v) l l1
      → SetSimulates i d u l1 (Basic.set_account_asset_balance i c v b)
      → SimulatesTransfer i c d amount l b
          (Transact.transfer i c d amount l)
          (Basic.transfer i c d amount b)
  transfer_second u v x l1 ne e1 f1 e2 f2 e3 f3 set_ok changed (inl (full, new, set_error)) =
      let (ret, ret') = transfer_returns u v l1 ne e1 f1 e2 f2 e3 f3 set_ok in
      let w = debit_value "Account from not found" i c amount v l b r f2 in
      let still : stored (i, d) l ≡ none = ground (arith, changed.balances (i, d)) in
      let changed' : IsChanged (i, c) (settled (stored (i, c) l) (debited i c amount l)) l l1 =
        rw (← w) changed in
      both_equal _ _ _ _ (sym (ret ∙ set_error)) (sym ret') (refl, inr (still, full, changed'))
  transfer_second u v x l1 ne e1 f1 e2 f2 e3 f3 set_ok changed (inr (l2, set_ok2, changed2, r2)) =
      let (ret, ret') = transfer_returns u v l1 ne e1 f1 e2 f2 e3 f3 set_ok in
      both_equal _ _ _ _ (sym (ret ∙ set_ok2)) (sym ret') r2

  transfer_checked :
      (asset : Result (Unit {0})) (debit credit : Result Amount)
      → c ≢ d
      → Transact.check_asset i l ≡ (asset, l)
      → Basic.check_asset i b ≡ (asset, b)
      → Transact.balance_after_debit "Account from not found" i c amount l ≡ (debit, l)
      → Basic.balance_after_debit "Account from not found" i c amount b ≡ (debit, b)
      → Transact.balance_after_credit "Account to not found" "Balance overflow" i d amount l
        ≡ (credit, l)
      → Basic.balance_after_credit "Account to not found" "Balance overflow" i d amount b
        ≡ (credit, b)
      → HasPlaces 2 l
      → SimulatesTransfer i c d amount l b
          (Transact.transfer i c d amount l)
          (Basic.transfer i c d amount b)
  unfolding Transact.transfer Basic.transfer
  transfer_checked (err m k) debit credit ne e1 f1 e2 f2 e3 f3 places = ground arith
  transfer_checked (ok o) (err m k) credit ne e1 f1 e2 f2 e3 f3 places = ground arith
  transfer_checked (ok o) (ok v) (err m k) ne e1 f1 e2 f2 e3 f3 places = ground arith
  transfer_checked (ok o) (ok v) (ok u) ne e1 f1 e2 f2 e3 f3 places =
      let (x, known) = transfer_asset i b f1 in
      elim (set_simulates i c v x l b r (fewer-HasPlaces l places) known
        (debit_account "Account from not found" i c amount v b f2)) [
          | inl (full, new, set_error) ↦ ground arith
          | inr (l1, set_ok, changed, r1) ↦
              transfer_second u v x l1 ne e1 f1 e2 f2 e3 f3 set_ok changed (
                set_simulates i d u x l1 (Basic.set_account_asset_balance i c v b) r1
                  (changed-HasPlaces (i, c) _ l l1 changed places) (known_after i c v b x i known)
                  (account_after i c v b d
                    (credit_account "Account to not found" "Balance overflow" i d amount u b f3)))
        ]

  same_account :
      (asset : Result (Unit {0}))
      → c ≡ d
      → Transact.check_asset i l ≡ (asset, l)
      → Basic.check_asset i b ≡ (asset, b)
      → SimulatesTransfer i c d amount l b
          (Transact.transfer i c d amount l)
          (Basic.transfer i c d amount b)
  unfolding Transact.transfer Basic.transfer
  same_account (err m k) same e1 f1 = ground arith
  same_account (ok o) same e1 f1 = ground arith

-- A transfer on a memory ledger that stands for a basic one and has two places left for virtual
-- balances, or as many places as the limit of balances, of an asset that is not of the base type,
-- does what the transfer on the basic ledger does: both return and the memory ledger stands for
-- the basic one again; both throw the same and change nothing; or the memory ledger alone throws,
-- with the code for reached balances, and has changed nothing or, if the receiver has no entry and
-- the ledger is full, the sender's balance, which is lowered, while the bytes of every other
-- balance, the assets, the accounts but for their numbers of balances, the limits, the ids and the
-- offset are what they were.
pub transfer-Simulates :
    (i c d : ℕ) (amount : Amount) (l : MemoryLedger) (b : BasicLedger)
    → Refines l b
    → HasPlaces 2 l
    → NotBase i l
    → SimulatesTransfer i c d amount l b
        (Transact.transfer i c d amount l)
        (Basic.transfer i c d amount b)
transfer-Simulates i c d amount l b r places chain =
    let (asset, e1, f1) = check_asset-Agree l b r i chain in
    let (debit, e2, f2) = balance_after_debit-Agree l b r "Account from not found" i c amount in
    let (credit, e3, f3) =
      balance_after_credit-Agree l b r "Account to not found" "Balance overflow" i d amount in
    elim (Bool-cases (c == d)) [
      | inl same ↦ same_account i c d amount l b r asset (ground arith) e1 f1
      | inr ne ↦
          transfer_checked i c d amount l b r asset debit credit (ground arith) e1 f1 e2 f2 e3 f3
            places
    ]
