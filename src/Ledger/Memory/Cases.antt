-- ===== src/Ledger/Memory/Cases.antt =====
-- `set_account_asset_balance` of `cma_ledger_memory`, on every branch.
use machine_asset_tools.Prelude.{
  ℕ, ◌-◌, ◌≤◌, ◌≡◌, refl, none, some, Option, if◌then◌else◌, arith, nat_key, pair_key, pair_eq_iff,
  inl, inr, ◌⊎◌, Bool-cases, Option-cases, ok, err, ap, ◌∙◌, back, back-get_elem?, back_none,
  length, lt_or_le,
}
use machine_asset_tools.Amount.{Amount, is_zero}
use machine_asset_tools.Map.{find, assign, size}
use machine_asset_tools.Map.Laws.{find-assign}
use machine_asset_tools.Ledger.Code
use machine_asset_tools.Ledger.Memory.{MemoryLedger, Balance, BalanceType, AccountStruct}
use machine_asset_tools.Ledger.Memory.Update.{
  write_amount, keys_of, remove_balance, create_balance, update_balance, set_account_asset_balance,
  new_balance_type,
}
use machine_asset_tools.Ledger.Memory.Slots.{at}
use machine_asset_tools.Ledger.Memory.Placed.{
  IsPlaced, stored, placed_in_range, created, HasPlaces, HasPlaces-has_place,
}
use machine_asset_tools.Ledger.Memory.Written.{keys_of-IsSlots, length-write_amount}
use machine_asset_tools.Ledger.Memory.Removed.{
  removed, removed_single, removed-IsPlaced, removed-entries,
}
use machine_asset_tools.Ledger.Memory.Setting.{
  create_balance-created, remove_balance-removed, remove_balance-single, removed_single-IsPlaced,
  removed_single-entries,
}
use machine_asset_tools.Ledger.Memory.Counted.{
  IsCounted, entries_of-assign, entries_of-erase, entries_of-le-size, entry-account,
}
use machine_asset_tools.Ledger.Memory.Fields.{written-Wrote, removed-Wrote, removed_single-Wrote}
use machine_asset_tools.Ledger.Memory.Changed.{
  IsChanged, IsChanged-twice, gone-Own, stored_none, Wrote-IsChanged, written-IsChanged,
  created-IsChanged,
}

module _ (t : BalanceType) (k : ℕ × ℕ) (a : AccountStruct) (p : ℕ) (l : MemoryLedger)
    (w : IsPlaced l) (n : IsCounted l) (here : find k l.account_asset_balance ≡ some (at t p))
    (known : find k.1 l.laccid_to_account ≡ some a) where
  removed-IsChanged :
      (last : ℕ × ℕ) → back (keys_of t l) ≡ some last → IsChanged k none l (removed t k a p last l)
  removed-IsChanged last end =
      let m = l.account_asset_balance in
      let there =
        (keys_of-IsSlots t l w).named last (length (keys_of t l) - 1)
          (ground (arith, back-get_elem? (keys_of t l))) in
      let kept : find k (assign last (at t p) m) ≡ some (at t p) =
        find-assign last k (at t p) (at t (length (keys_of t l) - 1)) m there ∙ ground arith in
      let less = λ (d : ℕ). entries_of-erase d k (at t p) (assign last (at t p) m) kept in
      let same = λ (d : ℕ). entries_of-assign d last (at t p) m in
      Wrote-IsChanged k none a _ _ l _ (removed-Wrote t k a p last l)
        (removed-IsPlaced k last a p l w t here end) n known
        (ground (
          arith,
          less k.1,
          same k.1,
          n.counted k.1 a known,
          n.word,
          w.room,
          entries_of-le-size k.1 m,
        ))
        (λ d ne. ground (arith, less d, same d)) none refl
        (removed-entries k last a p l w t here end) (gone-Own k l _ none refl)

  removed_single-IsChanged :
      size l.account_asset_balance ≤ 1 → IsChanged k none l (removed_single t k a p l)
  removed_single-IsChanged one =
      let m = l.account_asset_balance in
      let less = λ (d : ℕ). entries_of-erase d k (at t p) m here in
      Wrote-IsChanged k none a _ _ l _ (removed_single-Wrote t k a p l)
        (removed_single-IsPlaced k a p l w t here one) n known
        (ground (arith, less k.1, n.counted k.1 a known, n.word, w.room, entries_of-le-size k.1 m))
        (λ d ne. ground (arith, less d)) none refl (removed_single-entries k a p l w t here one)
        (gone-Own k l _ none refl)

  remove_balance_cases :
      (l' : MemoryLedger) × (remove_balance t k p l ≡ (ok tt, l')) × IsChanged k none l l'
  remove_balance_cases = elim (lt_or_le 1 (size l.account_asset_balance)) [
    | inl several ↦ elim (Option-cases (back (keys_of t l))) [
      | inl empty ↦
          absurd (ground (arith, back_none (keys_of t l) empty, placed_in_range t k p l w here))
      | inr (last, end) ↦ (
        removed t k a p last l,
        remove_balance-removed k a p l w t last here known end several,
        removed-IsChanged last end,
      )
    ]
    | inr one ↦ (
      removed_single t k a p l,
      remove_balance-single k a p l w t here known one,
      removed_single-IsChanged one,
    )
  ]

-- What is stored for a key after a write of `b`: an old balance that became 0 is gone.
abbrev pub settled : Option Amount → Amount → Option Amount
settled none b = some b
settled (some old) b = if is_zero b then none else some b

-- The call returned and wrote the balance.
abbrev pub Sets : ℕ → ℕ → Amount → MemoryLedger → Type 0
Sets i c b l =
    (l' : MemoryLedger) × (set_account_asset_balance i c b l ≡ (ok tt, l'))
    × IsChanged (i, c) (settled (stored (i, c) l) b) l l'

-- A new balance is refused where there is no room, no asset or no account, and nothing is written.
abbrev pub SetRefused : ℕ → ℕ → Amount → MemoryLedger → Type 0
SetRefused i c b l =
    (stored (i, c) l ≡ none)
    × (((l.max_balances ≤ size l.account_asset_balance)
          × (set_account_asset_balance i c b l
              ≡ (err "Max balances reached" Code.max_balances_reached, l)))
        ⊎ ((find i l.lassid_to_asset ≡ none)
            × (set_account_asset_balance i c b l
                ≡ (err "Asset by id not found" Code.asset_not_found, l)))
        ⊎ ((find c l.laccid_to_account ≡ none)
            × (set_account_asset_balance i c b l
                ≡ (err "Account by id not found" Code.account_not_found, l))))

module _ (i c : ℕ) (b : Amount) (l : MemoryLedger) (w : IsPlaced l) (n : IsCounted l)
    (places : HasPlaces 1 l) where
  set_new :
      find (i, c) l.account_asset_balance ≡ none
      → set_account_asset_balance i c b l ≡ create_balance i c b l
  unfolding set_account_asset_balance
  set_new new = rw (new, set_account_asset_balance) refl

  create_cases : find (i, c) l.account_asset_balance ≡ none → SetRefused i c b l ⊎ Sets i c b l
  unfolding set_account_asset_balance create_balance
  create_cases new = elim (lt_or_le (size l.account_asset_balance) l.max_balances) [
    | inr full ↦ inl (ground arith, inl (full, ground arith))
    | inl room ↦ elim (Option-cases (find i l.lassid_to_asset)) [
      | inl missing ↦ inl (ground arith, inr (inl (missing, ground arith)))
      | inr (x, known_asset) ↦ elim (Option-cases (find c l.laccid_to_account)) [
        | inl missing ↦ inl (ground arith, inr (inr (missing, ground arith)))
        | inr (a, known) ↦ inr (
          created (new_balance_type x.type a.account.type) (i, c) x a b l,
          set_new new ∙ create_balance-created i c b l x a new room known_asset known,
          rw new (
              created-IsChanged (i, c) x a b l w n new known_asset known room
                (HasPlaces-has_place l w places room)),
        )
      ]
    ]
  ]

  update_cases : (o : Balance) → find (i, c) l.account_asset_balance ≡ some o → Sets i c b l
  unfolding set_account_asset_balance update_balance
  update_cases o here =
      let t = o.type in
      let p = o.place in
      let l1 = write_amount t p b l in
      let wrote = written-Wrote t p b l in
      let first = written-IsChanged t (i, c) p b l w n here in
      let (a, known, _) = entry-account i c o l n here in
      elim (Bool-cases (is_zero b)) [
        | inr positive ↦ (l1, ground arith, rw (here, positive) first)
        | inl zero ↦
            let (l2, e, second) =
              remove_balance_cases t (i, c) a p l1 first.placed first.counted
                (ap (find (i, c)) wrote.account_asset_balance ∙ here)
                (ap (find c) wrote.laccid_to_account ∙ known) in
            (
              l2,
              ground arith,
              rw (here, zero)
                  (IsChanged-twice (i, c) (some b) none l l1 l2 first second
                    (stored_none (i, c) l2
                      (ground (arith, second.balances (i, c), pair_eq_iff (i, c) (i, c))))
                    (ground (arith, second.places, length-write_amount t p b l))),
            )
      ]

  pub set_cases : SetRefused i c b l ⊎ Sets i c b l
  set_cases = elim (Option-cases (find (i, c) l.account_asset_balance)) [
    | inl new ↦ create_cases new
    | inr (o, here) ↦ inr (update_cases o here)
  ]
