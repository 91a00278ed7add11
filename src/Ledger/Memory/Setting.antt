-- ===== src/Ledger/Memory/Setting.antt =====
-- What `set_account_asset_balance` of `cma_ledger_memory` leaves, over the arrays and the map.
use machine_asset_tools.Prelude.{
  ℕ, ◌-◌, ◌≤◌, ◌<◌, suc, ◌≡◌, refl, none, some, if◌then◌else◌, arith, nat_key, pair_key, pair_eq,
  pair_eq_iff, inl, inr, Bool-cases, Option-cases, length, back, get_elem?-lt, length-set,
  length-pop_back, back-get_elem?, ok, ap, ◌∙◌,
}
use machine_asset_tools.Amount.{Amount}
use machine_asset_tools.Map.{find, erase, size}
use machine_asset_tools.Map.Laws.{erase-IsUnique, size-erase, find-erase, insert_new, find-one}
use machine_asset_tools.Ledger.Types.{Asset, Account}
use machine_asset_tools.Ledger.Memory.{MemoryLedger, BalanceType, zero_entry, AccountStruct}
use machine_asset_tools.Ledger.Memory.Update.{
  write_n_balances, keys_of, transfer_last, clear_single, drop_last, erase_balance, remove_balance,
  create_balance, append_balance, emplace_balance, end_place, new_balance_type,
}
use machine_asset_tools.Ledger.Memory.Slots.{at, pop-IsSlots, pop_other-IsSlots, index_of-named}
use machine_asset_tools.Ledger.Memory.Placed.{
  IsPlaced, held_entry, stored, created, entry_of, entries-stored,
}
use machine_asset_tools.Ledger.Memory.Written.{keys_of-IsSlots}
use machine_asset_tools.Ledger.Memory.Removed.{removed, removed_single}

append_map :
    (t : BalanceType) (k : ℕ × ℕ) (x : Asset) (a : Account) (b : Amount) (l : MemoryLedger)
    → (append_balance t k x a b l).account_asset_balance ≡ l.account_asset_balance
unfolding append_balance
append_map BalanceType.virtual k x a b l = refl
append_map BalanceType.withdrawable k x a b l = refl

pub create_balance-created :
    (i c : ℕ) (b : Amount) (l : MemoryLedger) (x : Asset) (a : AccountStruct)
    → find (i, c) l.account_asset_balance ≡ none
    → size l.account_asset_balance < l.max_balances
    → find i l.lassid_to_asset ≡ some x
    → find c l.laccid_to_account ≡ some a
    → create_balance i c b l
      ≡ (ok tt, created (new_balance_type x.type a.account.type) (i, c) x a b l)
unfolding create_balance emplace_balance
create_balance-created i c b l x a new room known_asset known =
    let t = new_balance_type x.type a.account.type in
    ground (
      arith,
      append_map t (i, c) x a.account b l,
      insert_new (i, c) (at t (end_place t l)) l.account_asset_balance new,
    )

module _ (k : ℕ × ℕ) (a : AccountStruct) (p : ℕ) (l : MemoryLedger) (w : IsPlaced l) where
  -- The only balance stands at the end of its array.
  single-end :
      (t : BalanceType)
      → find k l.account_asset_balance ≡ some (at t p)
      → size l.account_asset_balance ≤ 1
      → suc p ≡ length (keys_of t l)
  unfolding keys_of
  single-end BalanceType.virtual here one =
      omega
        (arith, get_elem?-lt l.last_virtual_balances p k (w.virtual_slots.placed k p here), w.sizes)
  single-end BalanceType.withdrawable here one =
      omega (arith, get_elem?-lt l.last_balances p k (w.slots.placed k p here), w.sizes)

  removed_single_map :
      (t : BalanceType)
      → (removed_single t k a p l).account_asset_balance ≡ erase k l.account_asset_balance
  unfolding clear_single drop_last erase_balance write_n_balances
  removed_single_map BalanceType.virtual = refl
  removed_single_map BalanceType.withdrawable = refl

  pub removed_single-IsPlaced :
      (t : BalanceType)
      → find k l.account_asset_balance ≡ some (at t p)
      → size l.account_asset_balance ≤ 1
      → IsPlaced (removed_single t k a p l)
  unfolding clear_single drop_last erase_balance write_n_balances keys_of
  removed_single-IsPlaced BalanceType.virtual here one =
      let t = BalanceType.virtual in
      let m = l.account_asset_balance in
      let n = size-erase k (at t p) m here in
      let end = single-end t here one in
      record {
        virtual_slots =
            pop-IsSlots t m l.last_virtual_balances k p w.unique here end w.virtual_slots;
        slots =
            pop_other-IsSlots t BalanceType.withdrawable m l.last_balances k p w.unique
              (ground arith) here w.slots;
        unique = erase-IsUnique k m w.unique;
        virtual_length =
            rw
              (
                length-pop_back l.virtual_balances,
                length-pop_back l.last_virtual_balances,
                w.virtual_length,
              )
              refl;
        sizes = omega (arith, n, w.sizes, end, length-pop_back l.last_virtual_balances);
        room = omega (arith, n, w.room);
        entries = w.entries;
        unmoved = w.unmoved;
      }
  removed_single-IsPlaced BalanceType.withdrawable here one =
      let t = BalanceType.withdrawable in
      let m = l.account_asset_balance in
      let n = size-erase k (at t p) m here in
      let end = single-end t here one in
      record {
        virtual_slots =
            pop_other-IsSlots t BalanceType.virtual m l.last_virtual_balances k p w.unique
              (ground arith) here w.virtual_slots;
        slots = pop-IsSlots t m l.last_balances k p w.unique here end w.slots;
        unique = erase-IsUnique k m w.unique;
        virtual_length = w.virtual_length;
        sizes = omega (arith, n, w.sizes, end, length-pop_back l.last_balances);
        room = omega (arith, n, w.room);
        entries = length-set l.balances p zero_entry ∙ w.entries;
        unmoved = w.unmoved;
      }

  pub removed_single-entries :
      (t : BalanceType)
      → find k l.account_asset_balance ≡ some (at t p)
      → size l.account_asset_balance ≤ 1
      → (k' : ℕ × ℕ)
      → entry_of k' (removed_single t k a p l) ≡ (if pair_eq k k' then none else entry_of k' l)
  removed_single-entries t here one k' =
      let m = l.account_asset_balance in
      ap (λ m'. held_entry (find k' m') (removed_single t k a p l)) (removed_single_map t)
      ∙ ap (λ o. held_entry o (removed_single t k a p l)) (find-erase k k' m w.unique)
      ∙ elim (Bool-cases (pair_eq k k')) [
        | inl e ↦ rw e refl
        | inr e ↦ elim (Option-cases (find k' m)) [
          | inl missing ↦ rw (e, missing) refl
          | inr (c, known) ↦
              absurd (ground (arith, find-one k k' (at t p) c m one here known, pair_eq_iff k k'))
        ]
      ]

  pub removed_single-stored :
      (t : BalanceType)
      → find k l.account_asset_balance ≡ some (at t p)
      → size l.account_asset_balance ≤ 1
      → (k' : ℕ × ℕ)
      → stored k' (removed_single t k a p l) ≡ (if pair_eq k k' then none else stored k' l)
  removed_single-stored t here one k' =
      entries-stored k none l (removed_single t k a p l) (removed_single-entries t here one) k'

  -- The removal returns.
  pub remove_balance-removed :
      (t : BalanceType) (last : ℕ × ℕ)
      → find k l.account_asset_balance ≡ some (at t p)
      → find k.1 l.laccid_to_account ≡ some a
      → back (keys_of t l) ≡ some last
      → 1 < size l.account_asset_balance
      → remove_balance t k p l ≡ (ok tt, removed t k a p last l)
  unfolding remove_balance transfer_last
  remove_balance-removed t last here known end several =
      let slots = keys_of-IsSlots t l w in
      let there =
        slots.named last (length (keys_of t l) - 1)
          (ground (arith, back-get_elem? (keys_of t l))) in
      ground (arith, there, index_of-named t l.account_asset_balance (keys_of t l) k p here slots)

  pub remove_balance-single :
      (t : BalanceType)
      → find k l.account_asset_balance ≡ some (at t p)
      → find k.1 l.laccid_to_account ≡ some a
      → size l.account_asset_balance ≤ 1
      → remove_balance t k p l ≡ (ok tt, removed_single t k a p l)
  unfolding remove_balance
  remove_balance-single t here known one = ground arith
