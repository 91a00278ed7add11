-- ===== src/Amount/Compare.antt =====
-- `is_zero` of src/utils.cpp and `is_one` of src/ledger_impl.cpp against the numbers.
use mathlib.Core.Path.{ap₂, sym}
use native.Mathlib.Decide.{dec_lt}
use native.Mathlib.Nat.{mul-le-mul_right}
use machine_asset_tools.Prelude.{
  ℕ, zero, suc, ◌+◌, ◌*◌, ◌^◌, ◌<◌, ◌≡◌, ◌↔◌, refl, ap, ◌∙◌, true, List, [], ◌∷◌, arith,
  bytes_eq_iff,
}
use machine_asset_tools.Amount.{Amount, is_zero, is_one, zero_amount, one_amount}
use machine_asset_tools.Amount.Value.{value, IsBytes, value-cons, value-lt}

top_digit : (p x y a b : ℕ) → a < p → b < p → x * p + a ≡ y * p + b → (x ≡ y) × (a ≡ b)
top_digit p x y a b ha hb e = elim (dec_lt x y) [
  | yes lt ↦ absurd (omega (arith, mul-le-mul_right p lt))
  | no ge ↦ elim (dec_lt y x) [
    | yes gt ↦ absurd (omega (arith, mul-le-mul_right p gt))
    | no le ↦ let same : x ≡ y = omega arith in (same, omega (arith, ap (λ (z : ℕ). z * p) same))
  ]
]

-- Arrays of one length are equal when their numbers are.
pub value-injective : (n : ℕ) (a b : List ℕ) → IsBytes n a → IsBytes n b → value a ≡ value b → a ≡ b
value-injective zero [] [] ha hb e = refl
value-injective zero (x ∷ a) b ha hb e = absurd ha
value-injective zero [] (y ∷ b) ha hb e = absurd hb
value-injective (suc n) [] b ha hb e = absurd ha
value-injective (suc n) (x ∷ a) [] ha hb e = absurd hb
value-injective (suc n) (x ∷ a) (y ∷ b) ha hb e =
    let (top, rest) =
      top_digit (256 ^ n) x y (value a) (value b) (value-lt n a ha.1) (value-lt n b hb.1)
        (rw (value-cons n x a ha.1, value-cons n y b hb.1) at e) in
    ap₂ ◌∷◌ top (value-injective n a b ha.1 hb.1 rest)

pub zero_amount-value : value zero_amount ≡ 0
unfolding value
zero_amount-value = refl

one_amount-value : value one_amount ≡ 1
unfolding value
one_amount-value = refl

-- Of an amount of 32 bytes, `is_zero` holds exactly when it stands for 0, and `is_one` exactly
-- when it stands for 1.
pub is_zero_iff :
    (a : Amount)
    → IsBytes 32 a
    → ((is_zero a ≡ true) ↔ (value a ≡ 0)) × ((is_one a ≡ true) ↔ (value a ≡ 1))
unfolding is_zero is_one
is_zero_iff a h = (
  (
    λ e. ap value ((bytes_eq_iff a zero_amount).0 e) ∙ zero_amount-value,
    λ e.
        (bytes_eq_iff a zero_amount).1
          (value-injective 32 a zero_amount h (omega arith) (e ∙ sym zero_amount-value)),
  ),
  (
    λ e. ap value ((bytes_eq_iff a one_amount).0 e) ∙ one_amount-value,
    λ e.
        (bytes_eq_iff a one_amount).1
          (value-injective 32 a one_amount h (omega arith) (e ∙ sym one_amount-value)),
  ),
)
