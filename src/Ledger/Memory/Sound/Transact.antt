-- ===== src/Ledger/Memory/Sound/Transact.antt =====
-- The transactions of `cma_ledger_memory` keep the invariant, whether they return or throw.
use machine_asset_tools.Prelude.{
  ◌≡◌, ◌∙◌, sym, ap, inl, inr, arith, ℕ, String, Option, some, nat_key, pair_key, Option-cases, ◌<◌,
}
use mathlib.Core.Path.{subst}
use machine_asset_tools.Amount.{Amount}
use machine_asset_tools.Map.{find}
use machine_asset_tools.Ledger.Memory.{MemoryLedger, AccountStruct}
use machine_asset_tools.Ledger.Memory.Update.{set_account_asset_balance}
use machine_asset_tools.Ledger.Memory.Transact
use machine_asset_tools.Ledger.Memory.Placed.{HasPlaces}
use machine_asset_tools.Ledger.Memory.Changed.{IsChanged, fewer-HasPlaces, changed-HasPlaces}
use machine_asset_tools.Ledger.Memory.Cases.{set_cases}
use machine_asset_tools.Ledger.Memory.Sound.{IsSound, SoundParts}
use machine_asset_tools.Ledger.Memory.Sound.Assets.{set_asset_supply-IsSound}

-- One balance changes.
changed-IsSound :
    (k : ℕ × ℕ) (o : Option Amount) (l l' : MemoryLedger)
    → IsSound l
    → IsChanged k o l l'
    → IsSound l'
unfolding IsSound
changed-IsSound k o l l' w changed = record {
  placed = changed.placed;
  counted = changed.counted;
  limited = record {
    asset_below = λ i a e.
        rw changed.next_asset_id
          (w.limited.asset_below i a (ap (find i) (sym changed.lassid_to_asset) ∙ e));
    account_below = λ i a e. rw changed.next_account_id (still i a e);
    assets_unique = rw changed.lassid_to_asset w.limited.assets_unique;
    accounts_unique = changed.accounts_unique w.limited.accounts_unique;
    asset_limit = rw (changed.next_asset_id, changed.max_assets) w.limited.asset_limit;
    account_limit = rw (changed.next_account_id, changed.max_accounts) w.limited.account_limit;
    asset_word = rw changed.max_assets w.limited.asset_word;
    account_word = rw changed.max_accounts w.limited.account_word;
  };
}
  where
    still :
        (i : ℕ) (a : AccountStruct) → find i l'.laccid_to_account ≡ some a → i < l.next_account_id
    still i a e = elim (Option-cases (find i l.laccid_to_account)) [
      | inl missing ↦ absurd (ground (arith, changed.accounts i))
      | inr (x, known) ↦ w.limited.account_below i x known
    ]

set_balance-IsSound :
    (i c : ℕ) (b : Amount) (l : MemoryLedger)
    → IsSound l
    → HasPlaces 1 l
    → IsSound (set_account_asset_balance i c b l).1
unfolding IsSound
set_balance-IsSound i c b l w places = elim (set_cases i c b l w.placed w.counted places) [
  | inl (new, inl (full, e)) ↦ subst (λ r. SoundParts r.1) (sym e) w
  | inl (new, inr (inl (missing, e))) ↦ subst (λ r. SoundParts r.1) (sym e) w
  | inl (new, inr (inr (missing, e))) ↦ subst (λ r. SoundParts r.1) (sym e) w
  | inr (l', e, changed) ↦
      subst (λ r. SoundParts r.1) (sym e) (changed-IsSound (i, c) _ l l' w changed)
]

-- Of two places one is left.
set_balance-HasPlaces :
    (i c : ℕ) (b : Amount) (l : MemoryLedger)
    → IsSound l
    → HasPlaces 2 l
    → HasPlaces 1 (set_account_asset_balance i c b l).1
unfolding IsSound
set_balance-HasPlaces i c b l w places =
    elim (set_cases i c b l w.placed w.counted (fewer-HasPlaces l places)) [
      | inl (new, inl (full, e)) ↦ subst (λ r. HasPlaces 1 r.1) (sym e) (fewer-HasPlaces l places)
      | inl (new, inr (inl (missing, e))) ↦
          subst (λ r. HasPlaces 1 r.1) (sym e) (fewer-HasPlaces l places)
      | inl (new, inr (inr (missing, e))) ↦
          subst (λ r. HasPlaces 1 r.1) (sym e) (fewer-HasPlaces l places)
      | inr (l', e, changed) ↦
          subst (λ r. HasPlaces 1 r.1) (sym e) (changed-HasPlaces (i, c) _ l l' changed places)
    ]

supply_after_deposit-state :
    (i : ℕ) (amount : Amount) (l : MemoryLedger) → (Transact.supply_after_deposit i amount l).1 ≡ l
unfolding Transact.supply_after_deposit
supply_after_deposit-state i amount l = ground arith

supply_after_withdraw-state :
    (i : ℕ) (amount : Amount) (l : MemoryLedger) → (Transact.supply_after_withdraw i amount l).1 ≡ l
unfolding Transact.supply_after_withdraw
supply_after_withdraw-state i amount l = ground arith

check_asset-state : (i : ℕ) (l : MemoryLedger) → (Transact.check_asset i l).1 ≡ l
unfolding Transact.check_asset
check_asset-state i l = ground arith

balance_after_credit-state :
    (unknown overflow : String) (i c : ℕ) (amount : Amount) (l : MemoryLedger)
    → (Transact.balance_after_credit unknown overflow i c amount l).1 ≡ l
unfolding Transact.balance_after_credit
balance_after_credit-state unknown overflow i c amount l = ground arith

balance_after_debit-state :
    (unknown : String) (i c : ℕ) (amount : Amount) (l : MemoryLedger)
    → (Transact.balance_after_debit unknown i c amount l).1 ≡ l
unfolding Transact.balance_after_debit
balance_after_debit-state unknown i c amount l = ground arith

ruleset transaction_steps = (
  arith, set_balance-IsSound, set_balance-HasPlaces, fewer-HasPlaces, set_asset_supply-IsSound,
  supply_after_deposit-state, supply_after_withdraw-state, check_asset-state,
  balance_after_credit-state, balance_after_debit-state,
)

pub deposit-IsSound :
    (i c : ℕ) (amount : Amount) (l : MemoryLedger)
    → IsSound l
    → HasPlaces 1 l
    → IsSound (Transact.deposit i c amount l).1
unfolding Transact.deposit
deposit-IsSound i c amount l w places = grind transaction_steps

pub withdraw-IsSound :
    (i c : ℕ) (amount : Amount) (l : MemoryLedger)
    → IsSound l
    → HasPlaces 1 l
    → IsSound (Transact.withdraw i c amount l).1
unfolding Transact.withdraw
withdraw-IsSound i c amount l w places = grind transaction_steps

pub transfer-IsSound :
    (i c d : ℕ) (amount : Amount) (l : MemoryLedger)
    → IsSound l
    → HasPlaces 2 l
    → IsSound (Transact.transfer i c d amount l).1
unfolding Transact.transfer
transfer-IsSound i c d amount l w places = grind transaction_steps
