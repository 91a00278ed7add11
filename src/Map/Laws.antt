-- ===== src/Map/Laws.antt =====
-- What `find` sees after each write to a map.
use machine_asset_tools.Prelude.{
  ◌≡◌, ◌≢◌, refl, true, false, none, some, [], ◌∷◌, if◌then◌else◌, Key, arith, Bool-cases, inl, inr,
  suc, ◌≤◌,
}
use machine_asset_tools.Map.{Map, find, insert, assign, size, erase}

module _ {K V : Type 0} ⦃k : Key K⦄ where
  pub find-cons :
      (x y : K) (v : V) (m : Map K V)
      → find y ((x, v) ∷ m) ≡ (if k.beq x y then some v else find y m)
  unfolding find
  find-cons x y v m = refl

  pub insert_new :
      (x : K) (v : V) (m : Map K V) → find x m ≡ none → insert x v m ≡ ((x, v) ∷ m, true)
  unfolding insert
  insert_new x v m e = rw (e, insert)

  pub insert_old : (x : K) (v w : V) (m : Map K V) → find x m ≡ some w → insert x v m ≡ (m, false)
  unfolding insert
  insert_old x v w m e = rw (e, insert)

  pub find-assign_self :
      (x : K) (v w : V) (m : Map K V) → find x m ≡ some w → find x (assign x v m) ≡ some v
  unfolding find assign
  find-assign_self x v w [] e = ground arith
  find-assign_self x v w ((y, u) ∷ m) e = ground (arith, find-assign_self x v w m)

  pub find-assign_ne : (x y : K) (v : V) (m : Map K V) → x ≢ y → find y (assign x v m) ≡ find y m
  unfolding find assign
  find-assign_ne x y v [] ne = refl
  find-assign_ne x y v ((z, u) ∷ m) ne =
      ground (arith, find-assign_ne x y v m ne, k.beq_iff z x, k.beq_iff z y)

  pub size-assign : (x : K) (v : V) (m : Map K V) → size (assign x v m) ≡ size m
  unfolding assign
  size-assign x v [] = refl
  size-assign x v ((z, u) ∷ m) = ground (arith, size-assign x v m)

  -- A write to a key that is there, seen from every key.
  pub find-assign :
      (x y : K) (v w : V) (m : Map K V)
      → find x m ≡ some w
      → find y (assign x v m) ≡ (if k.beq x y then some v else find y m)
  find-assign x y v w m e = elim (Bool-cases (k.beq x y)) [
    | inl same ↦ rw (same, ← (k.beq_iff x y).0 same) (find-assign_self x v w m e)
    | inr other ↦ rw other (find-assign_ne x y v m (λ p. ne_of_beq x y other p))
  ]
    where
      ne_of_beq : (x y : K) → k.beq x y ≡ false → x ≡ y → ⊥
      ne_of_beq x y h p = ground (arith, (k.beq_iff x y).1 p)

-- No key stands twice, which holds of every map that `insert` fills.
unfoldable pub IsUnique : {K V : Type 0} ⦃k : Key K⦄ → Map K V → Type 0
IsUnique [] = Unit {0}
IsUnique ((x, v) ∷ m) = (find x m ≡ none) × IsUnique m

module _ {K V : Type 0} ⦃k : Key K⦄ where
  find-assign_none :
      (x y : K) (v : V) (m : Map K V) → find x m ≡ none → find x (assign y v m) ≡ none
  unfolding find assign
  find-assign_none x y v [] e = refl
  find-assign_none x y v ((z, w) ∷ m) e = ground (arith, find-assign_none x y v m)

  find-erase_none : (x y : K) (m : Map K V) → find x m ≡ none → find x (erase y m) ≡ none
  unfolding find erase
  find-erase_none x y [] e = refl
  find-erase_none x y ((z, w) ∷ m) e = ground (arith, find-erase_none x y m)

  pub assign-IsUnique : (y : K) (v : V) (m : Map K V) → IsUnique m → IsUnique (assign y v m)
  unfolding IsUnique assign
  assign-IsUnique y v [] u = u
  assign-IsUnique y v ((z, w) ∷ m) u = elim (Bool-cases (k.beq z y)) [
    | inl e ↦ rw e (u.0, u.1)
    | inr e ↦ rw e (find-assign_none z y v m u.0, assign-IsUnique y v m u.1)
  ]

  pub erase-IsUnique : (y : K) (m : Map K V) → IsUnique m → IsUnique (erase y m)
  unfolding IsUnique erase
  erase-IsUnique y [] u = u
  erase-IsUnique y ((z, w) ∷ m) u = elim (Bool-cases (k.beq z y)) [
    | inl e ↦ rw e u.1
    | inr e ↦ rw e (find-erase_none z y m u.0, erase-IsUnique y m u.1)
  ]

  -- What `find` sees after `erase`.
  pub find-erase :
      (x y : K) (m : Map K V)
      → IsUnique m
      → find y (erase x m) ≡ (if k.beq x y then none else find y m)
  unfolding find erase IsUnique
  find-erase x y [] u = ground arith
  find-erase x y ((z, w) ∷ m) u =
      ground (arith, find-erase x y m u.1, k.beq_iff z x, k.beq_iff z y, k.beq_iff x y, u.0)

  pub size-erase :
      (x : K) (v : V) (m : Map K V) → find x m ≡ some v → suc (size (erase x m)) ≡ size m
  unfolding find erase
  size-erase x v [] e = ground arith
  size-erase x v ((z, w) ∷ m) e = ground (arith, size-erase x v m)

  -- A map of one entry has one key.
  pub find-one :
      (x y : K) (v w : V) (m : Map K V) → size m ≤ 1 → find x m ≡ some v → find y m ≡ some w → x ≡ y
  unfolding find
  find-one x y v w [] one e f = ground arith
  find-one x y v w ((z, u) ∷ []) one e f = ground (arith, k.beq_iff z x, k.beq_iff z y)
  find-one x y v w ((z, u) ∷ n ∷ m) one e f = absurd (omega arith)
