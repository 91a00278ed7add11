-- ===== src/Amount/Value.antt =====
-- The number that an amount of src/utils.cpp stands for.
use native.Mathlib.Nat.{pow-suc, mul-le-mul_right}
use machine_asset_tools.Prelude.{
  ℕ, zero, suc, ◌+◌, ◌*◌, ◌^◌, ◌<◌, ◌≡◌, refl, ap, List, [], ◌∷◌, length, arith,
}

-- Big-endian.
unfoldable pub value : List ℕ → ℕ
value [] = 0
value (b ∷ bs) = b * 256 ^ length bs + value bs

-- An array of `n` bytes.
abbrev pub IsBytes : ℕ → List ℕ → Type 0
IsBytes zero [] = Unit {0}
IsBytes zero (b ∷ bs) = ⊥
IsBytes (suc n) [] = ⊥
IsBytes (suc n) (b ∷ bs) = (b < 256) × IsBytes n bs

pub length_of_bytes : (n : ℕ) (a : List ℕ) → IsBytes n a → length a ≡ n
length_of_bytes zero [] h = refl
length_of_bytes zero (b ∷ bs) h = absurd h
length_of_bytes (suc n) [] h = absurd h
length_of_bytes (suc n) (b ∷ bs) h = ap suc (length_of_bytes n bs h.1)

pub value-cons : (n b : ℕ) (bs : List ℕ) → IsBytes n bs → value (b ∷ bs) ≡ b * 256 ^ n + value bs
unfolding value
value-cons n b bs h = rw (length_of_bytes n bs h)

pub value-lt : (n : ℕ) (a : List ℕ) → IsBytes n a → value a < 256 ^ n
value-lt zero [] h = unfold value in omega arith
value-lt zero (b ∷ bs) h = absurd h
value-lt (suc n) [] h = absurd h
value-lt (suc n) (b ∷ bs) h =
    rw (value-cons n b bs h.1, pow-suc 256 n)
      (omega (arith, value-lt n bs h.1, mul-le-mul_right (256 ^ n) h.0))
