-- ===== src/Amount/Arithmetic.antt =====
-- `amount_checked_add` and `amount_checked_sub` of src/utils.cpp against the numbers.
use native.Mathlib.Nat.{pow-succ'}
use machine_asset_tools.Prelude.{
  ℕ, zero, suc, ◌+◌, ◌*◌, ◌/◌, ◌%◌, ◌^◌, ◌≤◌, ◌<◌, ◌≡◌, ◌↔◌, refl, ap, true, List, [], ◌∷◌, ltb,
  ◌==◌, if◌then◌else◌, arith, inl, inr, Bool-cases,
}
use machine_asset_tools.Amount.{Amount, add_loop, sub_loop, amount_checked_add, amount_checked_sub}
use machine_asset_tools.Amount.Value.{value, IsBytes, value-cons, value-lt}

add_digit :
    (p c x y r a b : ℕ)
    → r + c * p ≡ a + b
    → (c + x + y) % 2 ^ 8 * p + r + (c + x + y) / 2 ^ 8 * (256 * p) ≡ x * p + a + (y * p + b)
add_digit p c x y r a b e =
    let t = c + x + y in
    let d : t / 256 * 256 + t % 256 ≡ t = omega arith in omega (arith, ap (λ (z : ℕ). z * p) d)

-- The loop of the addition: the bytes of the sum, and the carry out of the first byte.
add_loop-value :
    (n : ℕ) (a b : List ℕ)
    → IsBytes n a
    → IsBytes n b
    → let (res, carry) = add_loop a b in
      IsBytes n res × (carry ≤ 1) × (value res + carry * 256 ^ n ≡ value a + value b)
unfolding add_loop
add_loop-value zero [] [] ha hb = (tt, omega arith, unfold value in refl)
add_loop-value zero (x ∷ a) b ha hb = absurd ha
add_loop-value zero [] (y ∷ b) ha hb = absurd hb
add_loop-value (suc n) [] b ha hb = absurd ha
add_loop-value (suc n) (x ∷ a) [] ha hb = absurd hb
add_loop-value (suc n) (x ∷ a) (y ∷ b) ha hb =
    let (bytes, small, sum) = add_loop-value n a b ha.1 hb.1 in
    let (r, c) = add_loop a b in
    let fits : (c + x + y) % 2 ^ 16 ≡ c + x + y = omega arith in
    rw fits (
      (omega arith, bytes),
      omega arith,
      rw (value-cons n _ r bytes, value-cons n x a ha.1, value-cons n y b hb.1, pow-succ' 256 n)
          (add_digit (256 ^ n) c x y (value r) (value a) (value b) sum),
    )

sub_digit :
    (p d c c' x y r a b : ℕ)
    → d + c + y ≡ x + 256 * c'
    → r + b ≡ a + c * p
    → d * p + r + (y * p + b) ≡ x * p + a + c' * (256 * p)
sub_digit p d c c' x y r a b digit e = omega (arith, ap (λ (z : ℕ). z * p) digit)

sub_loop-value :
    (n : ℕ) (a b : List ℕ)
    → IsBytes n a
    → IsBytes n b
    → let (res, borrow) = sub_loop a b in
      IsBytes n res × (borrow ≤ 1) × (value res + value b ≡ value a + borrow * 256 ^ n)
unfolding sub_loop
sub_loop-value zero [] [] ha hb = (tt, omega arith, unfold value in refl)
sub_loop-value zero (x ∷ a) b ha hb = absurd ha
sub_loop-value zero [] (y ∷ b) ha hb = absurd hb
sub_loop-value (suc n) [] b ha hb = absurd ha
sub_loop-value (suc n) (x ∷ a) [] ha hb = absurd hb
sub_loop-value (suc n) (x ∷ a) (y ∷ b) ha hb =
    let (bytes, small, sum) = sub_loop-value n a b ha.1 hb.1 in
    let (r, c) = sub_loop a b in
    elim (Bool-cases (ltb x (c + y))) [
      | inl short ↦ rw short (
        (omega arith, bytes),
        omega arith,
        rw (value-cons n _ r bytes, value-cons n x a ha.1, value-cons n y b hb.1, pow-succ' 256 n)
            (sub_digit (256 ^ n) _ c 1 x y (value r) (value a) (value b) (ground arith) sum),
      )
      | inr enough ↦ rw enough (
        (ground arith, bytes),
        omega arith,
        rw (value-cons n _ r bytes, value-cons n x a ha.1, value-cons n y b hb.1, pow-succ' 256 n)
            (sub_digit (256 ^ n) _ c 0 x y (value r) (value a) (value b) (ground arith) sum),
      )
    ]

-- For two arrays of n bytes, `amount_checked_add` gives n bytes: with the flag set they hold the
-- sum, with the flag cleared the sum less 256 ^ n; and the flag is set exactly when the sum is
-- below 256 ^ n.
pub amount_checked_add-value :
    (n : ℕ) (a b : Amount)
    → IsBytes n a
    → IsBytes n b
    → let (res, exact) = amount_checked_add a b in
      IsBytes n res
      × (value res + (if exact then 0 else 256 ^ n) ≡ value a + value b)
      × ((exact ≡ true) ↔ (value a + value b < 256 ^ n))
unfolding amount_checked_add
amount_checked_add-value n a b ha hb =
    let (bytes, small, sum) = add_loop-value n a b ha hb in
    let (r, c) = add_loop a b in
    elim (Bool-cases (c == 0)) [
      | inl none_left ↦
          rw none_left (bytes, ground arith, (λ _. ground (arith, value-lt n r bytes), λ _. refl))
      | inr carried ↦
          let one : c ≡ 1 = ground arith in
          rw carried (bytes, ground arith, (λ f. cc, λ f. absurd (ground (arith))))
    ]

-- For two arrays of n bytes, `amount_checked_sub` gives n bytes: with the flag set they hold the
-- difference, with the flag cleared the difference and 256 ^ n; and the flag is set exactly when
-- the second number is at most the first.
pub amount_checked_sub-value :
    (n : ℕ) (a b : Amount)
    → IsBytes n a
    → IsBytes n b
    → let (res, exact) = amount_checked_sub a b in
      IsBytes n res
      × (value res + value b ≡ value a + (if exact then 0 else 256 ^ n))
      × ((exact ≡ true) ↔ (value b ≤ value a))
unfolding amount_checked_sub
amount_checked_sub-value n a b ha hb =
    let (bytes, small, sum) = sub_loop-value n a b ha hb in
    let (r, c) = sub_loop a b in
    elim (Bool-cases (c == 0)) [
      | inl none_left ↦ rw none_left (bytes, ground arith, (λ _. ground arith, λ _. refl))
      | inr borrowed ↦
          let one : c ≡ 1 = ground arith in
          rw borrowed
            (bytes, ground arith, (λ f. cc, λ f. absurd (ground (arith, value-lt n r bytes))))
    ]

-- The two operations with the flag set.
pub exact_add :
    (a b : Amount)
    → IsBytes 32 a
    → IsBytes 32 b
    → (amount_checked_add a b).1 ≡ true
    → IsBytes 32 (amount_checked_add a b).0 × (value (amount_checked_add a b).0 ≡ value a + value b)
exact_add a b ha hb e =
    let (bytes, sum, exact) = amount_checked_add-value 32 a b ha hb in (bytes, ground arith)

pub exact_sub :
    (a b : Amount)
    → IsBytes 32 a
    → IsBytes 32 b
    → (amount_checked_sub a b).1 ≡ true
    → IsBytes 32 (amount_checked_sub a b).0 × (value (amount_checked_sub a b).0 + value b ≡ value a)
exact_sub a b ha hb e =
    let (bytes, sum, exact) = amount_checked_sub-value 32 a b ha hb in (bytes, ground arith)
