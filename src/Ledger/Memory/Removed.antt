-- ===== src/Ledger/Memory/Removed.antt =====
-- `cma_ledger_memory` after a balance is removed and the last one has moved into its place.
use machine_asset_tools.Prelude.{
  ℕ, ◌+◌, ◌-◌, ◌%◌, ◌^◌, ◌<◌, suc, ◌≡◌, ◌≢◌, refl, Bool, true, false, none, some, List, ◌==◌,
  if◌then◌else◌, arith, nat_key, pair_key, pair_eq, pair_eq_iff, inl, inr, Bool-cases, Option-cases,
  length, get_elem?, set, pop_back, back, get_elem?-lt, length-set, get_elem?-set, length-pop_back,
  get_elem?-pop_back, back-get_elem?, ap, ◌∙◌,
}
use mathlib.Core.Option.{get_or}
use machine_asset_tools.Map.{find, assign, erase, size}
use machine_asset_tools.Map.Laws.{
  assign-IsUnique, erase-IsUnique, size-assign, size-erase, find-erase, find-assign,
}
use machine_asset_tools.Ledger.Memory.{
  MemoryLedger, BalanceType, BalanceEntry, zero_entry, AccountStruct, amount_at,
}
use machine_asset_tools.Ledger.Memory.Update.{
  write_n_balances, keys_of, virtual_set, write_keys, move_last, clear_single, drop_last,
  erase_balance,
}
use machine_asset_tools.Ledger.Memory.Slots.{at, remove-IsSlots, remove_other-IsSlots}
use machine_asset_tools.Ledger.Memory.Placed.{
  IsPlaced, held_entry, stored, placed_in_range, entry_at, entry_of, entries-stored,
}
use machine_asset_tools.Ledger.Memory.Written.{
  keys_of-IsSlots, one_place, length-virtual_set, virtual_set-set,
}

length-pop_set :
    {A : Type 0} (xs : List A) (p : ℕ) (v : A) → length (pop_back (set xs p v)) ≡ length xs - 1
length-pop_set xs p v = rw (length-pop_back (set xs p v), length-set xs p v) refl

length-moved :
    (same : Bool) (es : List BalanceEntry) (p q : ℕ) (e e' : BalanceEntry)
    → length (set (if same then es else set es p e) q e') ≡ length es
length-moved true es p q e e' = length-set es q e'
length-moved false es p q e e' = length-set (set es p e) q e' ∙ length-set es p e

-- The last balance, of the key `last`, at the place of another.
abbrev pub moved : BalanceType → ℕ × ℕ → ℕ → ℕ × ℕ → MemoryLedger → MemoryLedger
moved t k p last l =
    let l' = move_last t (pair_eq last k) p (length (keys_of t l) - 1) l in
    write_keys t (set (keys_of t l) p last)
      (record l' { account_asset_balance = assign last (at t p) l'.account_asset_balance })

-- The end of the removal.
abbrev pub dropped : BalanceType → ℕ × ℕ → AccountStruct → MemoryLedger → MemoryLedger
dropped t k a l =
    erase_balance k
      (drop_last t (write_n_balances k.1 a ((a.n_balances + (2 ^ 64 - 1)) % 2 ^ 64) l))

-- The ledger that the removal leaves: where there are several balances, and where there is one.
abbrev pub removed : BalanceType → ℕ × ℕ → AccountStruct → ℕ → ℕ × ℕ → MemoryLedger → MemoryLedger
removed t k a p last l = dropped t k a (moved t k p last l)

abbrev pub removed_single : BalanceType → ℕ × ℕ → AccountStruct → ℕ → MemoryLedger → MemoryLedger
removed_single t k a p l = dropped t k a (clear_single t p l)

module _ (k last : ℕ × ℕ) (a : AccountStruct) (p : ℕ) (l : MemoryLedger) (w : IsPlaced l) where
  removed_sizes :
      (t : BalanceType) (q : ℕ)
      → find k l.account_asset_balance ≡ some (at t p)
      → find last l.account_asset_balance ≡ some (at t q)
      → suc (size (erase k (assign last (at t p) l.account_asset_balance)))
        ≡ size l.account_asset_balance
  removed_sizes t q here there =
      size-erase k (at t p) (assign last (at t p) l.account_asset_balance)
        (find-assign last k (at t p) (at t q) l.account_asset_balance there ∙ ground arith)
      ∙ size-assign last (at t p) l.account_asset_balance

  pub removed-IsPlaced :
      (t : BalanceType)
      → find k l.account_asset_balance ≡ some (at t p)
      → back (keys_of t l) ≡ some last
      → IsPlaced (removed t k a p last l)
  unfolding keys_of write_keys move_last drop_last erase_balance write_n_balances
  removed-IsPlaced BalanceType.virtual here end =
      let t = BalanceType.virtual in
      let there =
        w.virtual_slots.named last (length l.last_virtual_balances - 1)
          (ground (arith, back-get_elem? l.last_virtual_balances)) in
      let n = removed_sizes t (length l.last_virtual_balances - 1) here there in
      let in_range = get_elem?-lt l.last_virtual_balances p k (w.virtual_slots.placed k p here) in
      record {
        virtual_slots =
            remove-IsSlots t l.account_asset_balance l.last_virtual_balances k last p w.unique here
              end w.virtual_slots;
        slots =
            remove_other-IsSlots t BalanceType.withdrawable l.account_asset_balance l.last_balances
              k last p _ w.unique (ground arith) here there w.slots;
        unique =
            erase-IsUnique k _ (assign-IsUnique last (at t p) l.account_asset_balance w.unique);
        virtual_length =
            rw
              (
                length-pop_back
                    (virtual_set p (amount_at t (length l.last_virtual_balances - 1) l) l),
                length-virtual_set p (amount_at t (length l.last_virtual_balances - 1) l) l,
                length-pop_set l.last_virtual_balances p last,
                w.virtual_length,
              )
              refl;
        sizes = omega (arith, n, w.sizes, in_range, length-pop_set l.last_virtual_balances p last);
        room = omega (arith, n, w.room);
        entries = w.entries;
        unmoved = w.unmoved;
      }
  removed-IsPlaced BalanceType.withdrawable here end =
      let t = BalanceType.withdrawable in
      let there =
        w.slots.named last (length l.last_balances - 1)
          (ground (arith, back-get_elem? l.last_balances)) in
      let n = removed_sizes t (length l.last_balances - 1) here there in
      let in_range = get_elem?-lt l.last_balances p k (w.slots.placed k p here) in
      record {
        virtual_slots =
            remove_other-IsSlots t BalanceType.virtual l.account_asset_balance
              l.last_virtual_balances k last p _ w.unique (ground arith) here there w.virtual_slots;
        slots =
            remove-IsSlots t l.account_asset_balance l.last_balances k last p w.unique here end
              w.slots;
        unique =
            erase-IsUnique k _ (assign-IsUnique last (at t p) l.account_asset_balance w.unique);
        virtual_length = w.virtual_length;
        sizes = omega (arith, n, w.sizes, in_range, length-pop_set l.last_balances p last);
        room = omega (arith, n, w.room);
        entries = length-moved (pair_eq last k) l.balances p _ _ _ ∙ w.entries;
        unmoved = w.unmoved;
      }

  moved_entry :
      (t : BalanceType) (p' : ℕ)
      → p < length (keys_of t l)
      → (pair_eq last k ≡ true → suc p ≡ length (keys_of t l))
      → suc p' < length (keys_of t l)
      → entry_at t p' (removed t k a p last l)
        ≡ (if p == p' then entry_at t (length (keys_of t l) - 1) l else entry_at t p' l)
  unfolding keys_of write_keys move_last drop_last erase_balance write_n_balances entry_at amount_at
  moved_entry BalanceType.virtual p' h same h' =
      let v = amount_at BalanceType.virtual (length l.last_virtual_balances - 1) l in
      ground (
        arith,
        virtual_set-set p v l w,
        w.unmoved,
        get_elem?-pop_back (set l.virtual_balances p v) p',
        get_elem?-set l.virtual_balances p p' v,
        length-set l.virtual_balances p v,
        w.virtual_length,
      )
  moved_entry BalanceType.withdrawable p' h same h' =
      let q = length l.last_balances - 1 in
      let e = get_or (get_elem? l.balances q) zero_entry in
      let q_in_range : q < length l.balances = omega (arith, w.entries, w.sizes, w.room) in
      elim (Bool-cases (pair_eq last k)) [
        | inl one ↦ ground (arith, get_elem?-set l.balances q p' zero_entry q_in_range, same one)
        | inr two ↦ ground (
          arith,
          get_elem?-set (set l.balances p e) q p' zero_entry,
          length-set l.balances p e,
          get_elem?-set l.balances p p' e,
          w.entries,
          w.sizes,
          w.room,
        )
      ]

  kept_entry :
      (t t' : BalanceType) (p' : ℕ)
      → p < length (keys_of t l)
      → (pair_eq last k ≡ true → suc p ≡ length (keys_of t l))
      → (t ≡ t' → (suc p' < length (keys_of t l)) × (p ≢ p'))
      → entry_at t' p' (removed t k a p last l) ≡ entry_at t' p' l
  unfolding keys_of write_keys move_last drop_last erase_balance write_n_balances entry_at amount_at
  kept_entry BalanceType.virtual BalanceType.virtual p' h same far =
      moved_entry BalanceType.virtual p' h same (far refl).0 ∙ ground (arith, (far refl).1)
  kept_entry BalanceType.virtual BalanceType.withdrawable p' h same far = refl
  kept_entry BalanceType.withdrawable BalanceType.virtual p' h same far = refl
  kept_entry BalanceType.withdrawable BalanceType.withdrawable p' h same far =
      moved_entry BalanceType.withdrawable p' h same (far refl).0 ∙ ground (arith, (far refl).1)

  pub removed_map :
      (t : BalanceType)
      → (removed t k a p last l).account_asset_balance
        ≡ erase k (assign last (at t p) l.account_asset_balance)
  unfolding keys_of write_keys move_last drop_last erase_balance write_n_balances
  removed_map BalanceType.virtual = refl
  removed_map BalanceType.withdrawable = refl

  pub removed-entries :
      (t : BalanceType)
      → find k l.account_asset_balance ≡ some (at t p)
      → back (keys_of t l) ≡ some last
      → (k' : ℕ × ℕ)
      → entry_of k' (removed t k a p last l) ≡ (if pair_eq k k' then none else entry_of k' l)
  removed-entries t here end k' =
      let slots = keys_of-IsSlots t l w in
      let q = length (keys_of t l) - 1 in
      let there = slots.named last q (ground (arith, back-get_elem? (keys_of t l))) in
      let in_range = placed_in_range t k p l w here in
      let same : pair_eq last k ≡ true → suc p ≡ length (keys_of t l) =
        λ e. ground (arith, pair_eq_iff last k, here, there, in_range) in
      let m = l.account_asset_balance in
      ap (λ m'. held_entry (find k' m') (removed t k a p last l)) (removed_map t)
      ∙ ap (λ o. held_entry o (removed t k a p last l))
          (find-erase k k' (assign last (at t p) m) (assign-IsUnique last (at t p) m w.unique))
      ∙ elim (Bool-cases (pair_eq k k')) [
        | inl e ↦ rw e refl
        | inr e ↦ rw e (
            ap (λ o. held_entry o (removed t k a p last l))
              (find-assign last k' (at t p) (at t q) m there)
            ∙ elim (Bool-cases (pair_eq last k')) [
              | inl f ↦
                  rw (f, ← (pair_eq_iff last k').0 f, there)
                    (ap some (
                      moved_entry t p in_range same (
                        ground (
                          arith,
                          slots.placed k p here,
                          back-get_elem? (keys_of t l),
                          pair_eq_iff last k',
                          pair_eq_iff k k',
                          in_range,
                        ))
                      ∙ ground arith))
              | inr f ↦ rw f (elim (Option-cases (find k' m)) [
                | inl missing ↦ rw missing refl
                | inr (c, known) ↦ rw known (
                    ap some (
                      kept_entry t c.type c.place in_range same (λ one.
                        let known' : find k' m ≡ some (at t c.place) = rw (known, one) refl in
                        let range' = placed_in_range t k' c.place l w known' in
                        (
                          ground (
                            arith,
                            range',
                            slots.placed k' c.place known',
                            slots.placed last q there,
                            pair_eq_iff last k',
                          ),
                          λ e'.
                              ground (arith, one_place k k' t p l w here, known', pair_eq_iff k k'),
                        ))))
              ])
            ])
      ]

  pub removed-stored :
      (t : BalanceType)
      → find k l.account_asset_balance ≡ some (at t p)
      → back (keys_of t l) ≡ some last
      → (k' : ℕ × ℕ)
      → stored k' (removed t k a p last l) ≡ (if pair_eq k k' then none else stored k' l)
  removed-stored t here end k' =
      entries-stored k none l (removed t k a p last l) (removed-entries t here end) k'
