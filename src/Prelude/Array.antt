-- ===== src/Prelude/Array.antt =====
-- Lists as arrays and vectors under native indices: `get_elem?`, `set`, `back`, `pop_back`, and
-- the first place of a value.
use Prim.Native.Nat.{ℕ, zero, suc, ◌-◌, ◌<◌}
use mathlib.Core.Path.{◌≡◌, refl, ap}
use mathlib.Core.Option.{Option, none, some}
use mathlib.Core.Option
use mathlib.Core.List.{List, [], ◌∷◌}
use native.Mathlib.Omega.{arith}
use machine_asset_tools.Prelude.Tests.{◌==◌, ltb, if◌then◌else◌}
use machine_asset_tools.Prelude.Lists.{length}
use machine_asset_tools.Prelude.Keys.{Key}

module _ {ℓ} {A : Type ℓ} where
  abbrev pub get_elem? : List A → ℕ → Option A
  get_elem? [] i = none
  get_elem? (x ∷ xs) zero = some x
  get_elem? (x ∷ xs) (suc i) = get_elem? xs i

  abbrev pub set : List A → ℕ → A → List A
  set [] i v = []
  set (x ∷ xs) zero v = v ∷ xs
  set (x ∷ xs) (suc i) v = x ∷ set xs i v

  -- `push_back`
  abbrev pub push_back : List A → A → List A
  push_back [] v = v ∷ []
  push_back (x ∷ xs) v = x ∷ push_back xs v

  abbrev pub pop_back : List A → List A
  pop_back [] = []
  pop_back (x ∷ []) = []
  pop_back (x ∷ y ∷ xs) = x ∷ pop_back (y ∷ xs)

  -- `back`, with none for an empty vector.
  abbrev pub back : List A → Option A
  back [] = none
  back (x ∷ []) = some x
  back (x ∷ y ∷ xs) = back (y ∷ xs)

  pub get_elem?-lt : (xs : List A) (i : ℕ) (v : A) → get_elem? xs i ≡ some v → i < length xs
  get_elem?-lt [] i v h = ground arith
  get_elem?-lt (x ∷ xs) zero v h = omega arith
  get_elem?-lt (x ∷ xs) (suc i) v h = omega (arith, get_elem?-lt xs i v h)

  pub get_elem?-some : (xs : List A) (i : ℕ) → i < length xs → (v : A) × (get_elem? xs i ≡ some v)
  get_elem?-some [] i h = absurd (omega arith)
  get_elem?-some (x ∷ xs) zero h = (x, refl)
  get_elem?-some (x ∷ xs) (suc i) h = get_elem?-some xs i (omega arith)

  pub length-set : (xs : List A) (i : ℕ) (v : A) → length (set xs i v) ≡ length xs
  length-set [] i v = refl
  length-set (x ∷ xs) zero v = refl
  length-set (x ∷ xs) (suc i) v = ap suc (length-set xs i v)

  pub get_elem?-set :
      (xs : List A) (i j : ℕ) (v : A)
      → i < length xs
      → get_elem? (set xs i v) j ≡ (if i == j then some v else get_elem? xs j)
  get_elem?-set [] i j v h = absurd (omega arith)
  get_elem?-set (x ∷ xs) zero zero v h = refl
  get_elem?-set (x ∷ xs) zero (suc j) v h = ground arith
  get_elem?-set (x ∷ xs) (suc i) zero v h = ground arith
  get_elem?-set (x ∷ xs) (suc i) (suc j) v h = ground (arith, get_elem?-set xs i j v)

  pub length-push_back : (xs : List A) (v : A) → length (push_back xs v) ≡ suc (length xs)
  length-push_back [] v = refl
  length-push_back (x ∷ xs) v = ap suc (length-push_back xs v)

  pub get_elem?-push_back :
      (xs : List A) (v : A) (j : ℕ)
      → get_elem? (push_back xs v) j ≡ (if length xs == j then some v else get_elem? xs j)
  get_elem?-push_back [] v zero = ground arith
  get_elem?-push_back [] v (suc j) = ground arith
  get_elem?-push_back (x ∷ xs) v zero = ground arith
  get_elem?-push_back (x ∷ xs) v (suc j) = ground (arith, get_elem?-push_back xs v j)

  pub length-pop_back : (xs : List A) → length (pop_back xs) ≡ length xs - 1
  length-pop_back [] = omega arith
  length-pop_back (x ∷ []) = omega arith
  length-pop_back (x ∷ y ∷ xs) = omega (arith, length-pop_back (y ∷ xs))

  pub get_elem?-pop_back :
      (xs : List A) (j : ℕ)
      → get_elem? (pop_back xs) j ≡ (if ltb (suc j) (length xs) then get_elem? xs j else none)
  get_elem?-pop_back [] j = ground arith
  get_elem?-pop_back (x ∷ []) zero = ground arith
  get_elem?-pop_back (x ∷ []) (suc j) = ground arith
  get_elem?-pop_back (x ∷ y ∷ xs) zero = ground arith
  get_elem?-pop_back (x ∷ y ∷ xs) (suc j) = ground (arith, get_elem?-pop_back (y ∷ xs) j)

  pub back-get_elem? : (xs : List A) → back xs ≡ get_elem? xs (length xs - 1)
  back-get_elem? [] = refl
  back-get_elem? (x ∷ []) = ground arith
  back-get_elem? (x ∷ y ∷ xs) = ground (arith, back-get_elem? (y ∷ xs))

  pub back_none : (xs : List A) → back xs ≡ none → length xs ≡ 0
  back_none [] h = refl
  back_none (x ∷ []) h = ground arith
  back_none (x ∷ y ∷ xs) h = ground (arith, back_none (y ∷ xs) h)

-- `std::find`: the first place of a value, none for the end.
unfoldable pub index_of : {A : Type 0} ⦃k : Key A⦄ → A → List A → Option ℕ
index_of ⦃k⦄ v [] = none
index_of ⦃k⦄ v (x ∷ xs) = if k.beq x v then some 0 else Option.map suc (index_of v xs)

module _ {A : Type 0} ⦃k : Key A⦄ where
  -- The only place of a value is the one found.
  pub index_of-only :
      (v : A) (xs : List A) (p : ℕ)
      → get_elem? xs p ≡ some v
      → ((i : ℕ) → get_elem? xs i ≡ some v → i ≡ p)
      → index_of v xs ≡ some p
  unfolding index_of
  index_of-only v [] p h only = ground arith
  index_of-only v (x ∷ xs) zero h only = ground (arith, k.beq_iff x v)
  index_of-only v (x ∷ xs) (suc p) h only =
      ground (
        arith,
        k.beq_iff x v,
        only 0,
        index_of-only v xs p h (λ i e. omega (arith, only (suc i) e)),
      )
