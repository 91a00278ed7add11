-- ===== src/Ledger/Memory/Written.antt =====
-- `cma_ledger_memory` after the amount of a balance is written in its place.
use machine_asset_tools.Prelude.{
  ℕ, ◌<◌, ◌≡◌, refl, some, set, if◌then◌else◌, arith, nat_key, pair_key, pair_eq, pair_eq_iff, inl,
  inr, Bool-cases, Option-cases, length, get_elem?, length-set, get_elem?-set, ap, ◌∙◌,
}
use mathlib.Core.Option.{get_or}
use machine_asset_tools.Amount.{Amount}
use machine_asset_tools.Map.{find}
use machine_asset_tools.Ledger.Memory.{MemoryLedger, BalanceType, zero_entry, amount_at}
use machine_asset_tools.Ledger.Memory.Update.{write_amount, keys_of, virtual_set}
use machine_asset_tools.Ledger.Memory.Slots.{IsSlots, at}
use machine_asset_tools.Ledger.Memory.Placed.{
  IsPlaced, held_entry, stored, entry_at, entry_of, entries-stored, placed_in_range,
}

pub keys_of-IsSlots :
    (t : BalanceType) (l : MemoryLedger)
    → IsPlaced l
    → IsSlots t l.account_asset_balance (keys_of t l)
unfolding keys_of
keys_of-IsSlots BalanceType.virtual l w = w.virtual_slots
keys_of-IsSlots BalanceType.withdrawable l w = w.slots

pub length-virtual_set :
    (p : ℕ) (v : Amount) (l : MemoryLedger) → length (virtual_set p v l) ≡ length l.virtual_balances
unfolding virtual_set
length-virtual_set p v l = ground (arith, length-set l.virtual_balances p v)

pub length-write_amount :
    (t : BalanceType) (p : ℕ) (b : Amount) (l : MemoryLedger)
    → length (write_amount t p b l).virtual_balances ≡ length l.virtual_balances
unfolding write_amount
length-write_amount BalanceType.virtual p b l = length-virtual_set p b l
length-write_amount BalanceType.withdrawable p b l = refl

-- While no pointer dangles, the write goes to the place.
pub virtual_set-set :
    (p : ℕ) (v : Amount) (l : MemoryLedger)
    → IsPlaced l
    → virtual_set p v l ≡ set l.virtual_balances p v
unfolding virtual_set
virtual_set-set p v l w = ground (arith, w.unmoved)

pub written-IsPlaced :
    (t : BalanceType) (p : ℕ) (b : Amount) (l : MemoryLedger)
    → IsPlaced l
    → IsPlaced (write_amount t p b l)
unfolding write_amount
written-IsPlaced BalanceType.virtual p b l w = record {
  virtual_slots = w.virtual_slots;
  slots = w.slots;
  unique = w.unique;
  virtual_length = length-virtual_set p b l ∙ w.virtual_length;
  sizes = w.sizes;
  room = w.room;
  entries = w.entries;
  unmoved = w.unmoved;
}
written-IsPlaced BalanceType.withdrawable p b l w = record {
  virtual_slots = w.virtual_slots;
  slots = w.slots;
  unique = w.unique;
  virtual_length = w.virtual_length;
  sizes = w.sizes;
  room = w.room;
  entries = length-set l.balances p _ ∙ w.entries;
  unmoved = w.unmoved;
}

pub written-map :
    (t : BalanceType) (p : ℕ) (b : Amount) (l : MemoryLedger)
    → (write_amount t p b l).account_asset_balance ≡ l.account_asset_balance
unfolding write_amount
written-map BalanceType.virtual p b l = refl
written-map BalanceType.withdrawable p b l = refl

written-entry :
    (t t' : BalanceType) (p p' : ℕ) (b : Amount) (l : MemoryLedger)
    → IsPlaced l
    → p < length (keys_of t l)
    → ((t ≡ t') × (p ≡ p') → ⊥)
    → entry_at t' p' (write_amount t p b l) ≡ entry_at t' p' l
unfolding write_amount entry_at amount_at keys_of
written-entry BalanceType.virtual BalanceType.virtual p p' b l w h ne =
    ground (
      arith,
      virtual_set-set p b l w,
      get_elem?-set l.virtual_balances p p' b,
      w.virtual_length,
      ne,
    )
written-entry BalanceType.virtual BalanceType.withdrawable p p' b l w h ne = refl
written-entry BalanceType.withdrawable BalanceType.virtual p p' b l w h ne = refl
written-entry BalanceType.withdrawable BalanceType.withdrawable p p' b l w h ne =
    let e =
      get_elem?-set l.balances p p'
        (record (get_or (get_elem? l.balances p) zero_entry) { amount = b })
        (omega (arith, w.entries, w.sizes, w.room)) in
    ground (arith, e, ne)

-- The entry that is written has the new amount, and its other bytes as they were.
written-entry_self :
    (t : BalanceType) (p : ℕ) (b : Amount) (l : MemoryLedger)
    → IsPlaced l
    → p < length (keys_of t l)
    → entry_at t p (write_amount t p b l) ≡ record (entry_at t p l) { amount = b }
unfolding write_amount entry_at amount_at keys_of
written-entry_self BalanceType.virtual p b l w h = ground (
  arith,
  virtual_set-set p b l w,
  get_elem?-set l.virtual_balances p p b,
  w.virtual_length,
  w.unmoved,
)
written-entry_self BalanceType.withdrawable p b l w h =
    let e =
      get_elem?-set l.balances p p
        (record (get_or (get_elem? l.balances p) zero_entry) { amount = b })
        (omega (arith, w.entries, w.sizes, w.room)) in
    ground (arith, e)

-- No two keys have one place.
pub one_place :
    (k k' : ℕ × ℕ) (t : BalanceType) (p : ℕ) (l : MemoryLedger)
    → IsPlaced l
    → find k l.account_asset_balance ≡ some (at t p)
    → find k' l.account_asset_balance ≡ some (at t p)
    → k ≡ k'
one_place k k' t p l w h h' =
    ground (arith, (keys_of-IsSlots t l w).placed k p h, (keys_of-IsSlots t l w).placed k' p h')

-- A balance that is written has its entry, and no other changes.
pub written-entries :
    (t : BalanceType) (k : ℕ × ℕ) (p : ℕ) (b : Amount) (l : MemoryLedger)
    → IsPlaced l
    → find k l.account_asset_balance ≡ some (at t p)
    → (k' : ℕ × ℕ)
    → entry_of k' (write_amount t p b l)
      ≡ (if pair_eq k k' then some (record (entry_at t p l) { amount = b }) else entry_of k' l)
written-entries t k p b l w here k' =
    ap (λ m. held_entry (find k' m) (write_amount t p b l)) (written-map t p b l)
    ∙ elim (Bool-cases (pair_eq k k')) [
      | inl same ↦
          rw (same, ← (pair_eq_iff k k').0 same, here)
            (ap some (written-entry_self t p b l w (placed_in_range t k p l w here)))
      | inr other ↦ elim (Option-cases (find k' l.account_asset_balance)) [
        | inl missing ↦ rw (other, missing) refl
        | inr (c, known) ↦
            rw (other, known)
              (ap some (
                written-entry t c.type p c.place b l w (placed_in_range t k p l w here)
                  (λ same. ground (arith, one_place k k' t p l w here, pair_eq_iff k k'))))
      ]
    ]

pub written-stored :
    (t : BalanceType) (k : ℕ × ℕ) (p : ℕ) (b : Amount) (l : MemoryLedger)
    → IsPlaced l
    → find k l.account_asset_balance ≡ some (at t p)
    → (k' : ℕ × ℕ)
    → stored k' (write_amount t p b l) ≡ (if pair_eq k k' then some b else stored k' l)
written-stored t k p b l w here k' =
    entries-stored k (some (record (entry_at t p l) { amount = b })) l (write_amount t p b l)
      (written-entries t k p b l w here) k'
