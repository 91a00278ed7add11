-- ===== src/Ledger/Memory/Refine.antt =====
-- `cma_ledger_memory` implements `cma_ledger_basic`: each transaction does to the assets, the
-- accounts and the balances what it does there.
pub mod Deposit
pub mod Withdraw
pub mod Transfer
use machine_asset_tools.Prelude.{
  ℕ, ◌≡◌, ◌≢◌, ◌≤◌, refl, true, false, none, some, Option, arith, nat_key, pair_key, pair_eq,
  Result, ok, err, Option-cases, Bool-cases, Result-cases, inl, inr, ◌⊎◌, ◌==◌, if◌then◌else◌, ap,
  ◌∙◌, sym, bytes_eq_iff, String, is_negative,
}
use mathlib.Core.Path.{subst}
use mathlib.Core.Option.{get_or}
use mathlib.Core.Option
use machine_asset_tools.Amount.{Amount, zero_amount, is_zero, amount_checked_sub}
use machine_asset_tools.Map.{Map, find, assign, size}
use machine_asset_tools.Map.Laws.{find-assign}
use machine_asset_tools.Ledger.Types.{Asset}
use machine_asset_tools.Ledger.Code
use machine_asset_tools.Ledger.Basic.{BasicLedger}
use machine_asset_tools.Ledger.Basic
use machine_asset_tools.Ledger.Basic.Balances.{find-set_balance, set_balance-assets}
use machine_asset_tools.Ledger.Basic.Transactions.{
  assign_supply, write_both, supply_after_deposit_cases, supply_after_withdraw_cases,
  check_asset_cases, balance_after_credit_cases, balance_after_debit_cases,
}
use machine_asset_tools.Ledger.Memory.{
  MemoryLedger, Balance, BalanceType, amount_at, set_asset_supply,
}
use machine_asset_tools.Ledger.Memory.Update.{set_account_asset_balance}
use machine_asset_tools.Ledger.Memory.Transact
use machine_asset_tools.Ledger.Memory.Placed.{HasPlaces, IsPlaced, stored, held}
use machine_asset_tools.Ledger.Memory.Counted.{IsCounted}
use machine_asset_tools.Ledger.Memory.Changed.{account_of, IsChanged}
use machine_asset_tools.Ledger.Memory.Cases.{set_cases, settled, Sets, SetRefused}
use machine_asset_tools.Ledger.Memory.Checks.{
  Refines, NotBase, supply_after_deposit-Agree, supply_after_withdraw-Agree, check_asset-Agree,
  balance_after_credit-Agree, balance_after_debit-Agree,
}

settled_amount : (o : Option Amount) (v : Amount) → get_or (settled o v) zero_amount ≡ v
unfolding is_zero
settled_amount none v = refl
settled_amount (some old) v = elim (Bool-cases (is_zero v)) [
  | inl zero ↦ ground (arith, (bytes_eq_iff v zero_amount).0 zero)
  | inr positive ↦ ground arith
]

set_balance-accounts :
    (i c : ℕ) (v : Amount) (b : BasicLedger)
    → (Basic.set_account_asset_balance i c v b).laccid_to_account ≡ b.laccid_to_account
unfolding Basic.set_account_asset_balance
set_balance-accounts i c v b = ground arith

known_after :
    (i c : ℕ) (v : Amount) (b : BasicLedger) (x : Asset) (j : ℕ)
    → find j b.lassid_to_asset ≡ some x
    → find j (Basic.set_account_asset_balance i c v b).lassid_to_asset ≡ some x
known_after i c v b x j known = ap (find j) (set_balance-assets i c v b) ∙ known

account_after :
    (i c : ℕ) (v : Amount) (b : BasicLedger) (d : ℕ)
    → (Basic.find_account d b none).0 ≡ true
    → (Basic.find_account d (Basic.set_account_asset_balance i c v b) none).0 ≡ true
unfolding Basic.find_account
account_after i c v b d known = ground (arith, ap (find d) (set_balance-accounts i c v b))

changed-Refines :
    (i c : ℕ) (v : Amount) (l l' : MemoryLedger) (b : BasicLedger)
    → Refines l b
    → IsChanged (i, c) (settled (stored (i, c) l) v) l l'
    → Refines l' (Basic.set_account_asset_balance i c v b)
changed-Refines i c v l l' b r changed = record {
  placed = changed.placed;
  counted = changed.counted;
  assets = λ j.
      ap (find j) changed.lassid_to_asset
      ∙ r.assets j
      ∙ ap (find j) (sym (set_balance-assets i c v b));
  accounts =
      λ d. changed.accounts d ∙ r.accounts d ∙ ap (find d) (sym (set_balance-accounts i c v b));
  balances = λ j d. ground (
    arith,
    changed.balances (j, d),
    find-set_balance i c v b j d,
    r.balances j d,
    settled_amount (stored (i, c) l) v,
  );
}

assets_amount :
    (t : BalanceType) (p : ℕ) (m : Map ℕ Asset) (l : MemoryLedger)
    → amount_at t p (record l { lassid_to_asset = m }) ≡ amount_at t p l
unfolding amount_at
assets_amount BalanceType.virtual p m l = refl
assets_amount BalanceType.withdrawable p m l = refl

assets_held :
    (o : Option Balance) (m : Map ℕ Asset) (l : MemoryLedger)
    → held o (record l { lassid_to_asset = m }) ≡ held o l
assets_held none m l = refl
assets_held (some b) m l = ap some (assets_amount b.type b.place m l)

supplied-Refines :
    (i : ℕ) (s : Amount) (x : Asset) (l : MemoryLedger) (b : BasicLedger)
    → Refines l b
    → find i b.lassid_to_asset ≡ some x
    → Refines
        (record l { lassid_to_asset = assign i (record x { supply = s }) l.lassid_to_asset })
        (assign_supply i x s b)
supplied-Refines i s x l b r known = record {
  placed = record {
    virtual_slots = r.placed.virtual_slots;
    slots = r.placed.slots;
    unique = r.placed.unique;
    virtual_length = r.placed.virtual_length;
    sizes = r.placed.sizes;
    room = r.placed.room;
    entries = r.placed.entries;
    unmoved = r.placed.unmoved;
  };
  counted = record {
    counted = r.counted.counted;
    unknown = r.counted.unknown;
    word = r.counted.word;
  };
  assets = λ j. ground (
    arith,
    find-assign i j (record x { supply = s }) x b.lassid_to_asset known,
    find-assign i j (record x { supply = s }) x l.lassid_to_asset (r.assets i ∙ known),
    r.assets j,
  );
  accounts = r.accounts;
  balances = λ j d.
      ap (λ o. get_or o zero_amount) (assets_held (find (j, d) l.account_asset_balance) _ l)
      ∙ r.balances j d;
}

set_asset_supply-Refines :
    (i : ℕ) (s : Amount) (x : Asset) (l : MemoryLedger) (b : BasicLedger)
    → Refines l b
    → find i b.lassid_to_asset ≡ some x
    → (l' : MemoryLedger) × (set_asset_supply i s l ≡ (ok tt, l'))
      × (Basic.set_asset_supply i s b ≡ (ok tt, assign_supply i x s b))
      × Refines l' (assign_supply i x s b)
unfolding set_asset_supply Basic.set_asset_supply
set_asset_supply-Refines i s x l b r known = (
  record l { lassid_to_asset = assign i (record x { supply = s }) l.lassid_to_asset },
  ground (arith, r.assets i),
  ground arith,
  supplied-Refines i s x l b r known,
)

-- Two calls on a memory ledger and on the basic one that it stands for: both return, and the
-- ledgers still fit; both throw the same and write nothing; or the memory ledger alone throws, since
-- it has no room for another balance, and writes nothing.
abbrev pub Simulates :
    MemoryLedger
    → BasicLedger
    → Result (Unit {0}) × MemoryLedger
    → Result (Unit {0}) × BasicLedger
    → Type 0
Simulates l b (ok _, l') (ok _, b') = Refines l' b'
Simulates l b (ok _, l') (err m c, b') = ⊥
Simulates l b (err m c, l') (ok _, b') =
    (c ≡ Code.max_balances_reached) × (l' ≡ l) × (l.max_balances ≤ size l.account_asset_balance)
Simulates l b (err m c, l') (err m' c', b') = (m ≡ m') × (c ≡ c') × (l' ≡ l) × (b' ≡ b)

-- A write of a balance of a known asset and a known account.
abbrev SetSimulates : ℕ → ℕ → Amount → MemoryLedger → BasicLedger → Type 0
SetSimulates i c v l b =
    ((l.max_balances ≤ size l.account_asset_balance)
      × (stored (i, c) l ≡ none)
      × (set_account_asset_balance i c v l
          ≡ (err "Max balances reached" Code.max_balances_reached, l)))
    ⊎ ((l' : MemoryLedger) × (set_account_asset_balance i c v l ≡ (ok tt, l'))
        × IsChanged (i, c) (settled (stored (i, c) l) v) l l'
        × Refines l' (Basic.set_account_asset_balance i c v b))

set_simulates :
    (i c : ℕ) (v : Amount) (x : Asset) (l : MemoryLedger) (b : BasicLedger)
    → Refines l b
    → HasPlaces 1 l
    → find i b.lassid_to_asset ≡ some x
    → (Basic.find_account c b none).0 ≡ true
    → SetSimulates i c v l b
unfolding Basic.find_account
set_simulates i c v x l b r places known account =
    elim (set_cases i c v l r.placed r.counted places) [
      | inr (l', e, changed) ↦ inr (l', e, changed, changed-Refines i c v l l' b r changed)
      | inl (new, inl (full, e)) ↦ inl (full, new, e)
      | inl (new, inr (inl (missing, e))) ↦ absurd (ground (arith, r.assets i))
      | inl (new, inr (inr (missing, e))) ↦ absurd (ground (arith, r.accounts c))
    ]

deposit_asset :
    (i : ℕ) (amount s : Amount) (b : BasicLedger)
    → Basic.supply_after_deposit i amount b ≡ (ok s, b)
    → (x : Asset) × (find i b.lassid_to_asset ≡ some x)
deposit_asset i amount s b e = elim (supply_after_deposit_cases i amount b) [
  | inl refused ↦ absurd (ground arith)
  | inr (x, checked, _) ↦ (x, checked.known)
]

credit_account :
    (unknown overflow : String) (i c : ℕ) (amount v : Amount) (b : BasicLedger)
    → Basic.balance_after_credit unknown overflow i c amount b ≡ (ok v, b)
    → (Basic.find_account c b none).0 ≡ true
credit_account unknown overflow i c amount v b e =
    elim (balance_after_credit_cases unknown overflow i c amount b) [
      | inl refused ↦ absurd (ground arith)
      | inr (checked, _) ↦ checked.known
    ]

withdraw_asset :
    (i : ℕ) (amount s : Amount) (b : BasicLedger)
    → Basic.supply_after_withdraw i amount b ≡ (ok s, b)
    → (x : Asset) × (find i b.lassid_to_asset ≡ some x)
withdraw_asset i amount s b e = elim (supply_after_withdraw_cases i amount b) [
  | inl refused ↦ absurd (ground arith)
  | inr (x, checked, _) ↦ (x, checked.known)
]

transfer_asset :
    (i : ℕ) (b : BasicLedger)
    → Basic.check_asset i b ≡ (ok tt, b)
    → (x : Asset) × (find i b.lassid_to_asset ≡ some x)
transfer_asset i b e = elim (check_asset_cases i b) [
  | inl refused ↦ absurd (ground arith)
  | inr (x, known, _) ↦ (x, known)
]

debit_account :
    (unknown : String) (i c : ℕ) (amount v : Amount) (b : BasicLedger)
    → Basic.balance_after_debit unknown i c amount b ≡ (ok v, b)
    → (Basic.find_account c b none).0 ≡ true
debit_account unknown i c amount v b e = elim (balance_after_debit_cases unknown i c amount b) [
  | inl refused ↦ absurd (ground arith)
  | inr (checked, _) ↦ checked.known
]
