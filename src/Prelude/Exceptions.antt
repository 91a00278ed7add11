-- ===== src/Prelude/Exceptions.antt =====
-- A C++ method that may throw a `CmaException` (src/utils.h): what was written before the throw
-- stays written, so the state comes back in both cases.
use Prim.Native.String.{String}
use mathlib.Core.Path.{◌≡◌, refl}
use mathlib.Core.Logic.{◌⊎◌, inl, inr}
use mathlib.Core.Bool.{Bool, true, false}
use mathlib.Core.Option.{Option, none, some}
use machine_asset_tools.Prelude.Int.{ℤ}

-- `err message code` is the exception that carries `message` and `code`.
pub data Result (A : Type 0) : Type 0 where
  ok : A → Result A
  err : String → ℤ → Result A

abbrev pub Throws : Type 0 → Type 0 → Type 0
Throws S A = S → Result A × S

module _ {S A : Type 0} where
  abbrev pub pure : A → Throws S A
  pure a s = (ok a, s)

  abbrev pub throw : String → ℤ → Throws S A
  throw message code s = (err message code, s)

  abbrev pub gets : (S → A) → Throws S A
  gets f s = (ok (f s), s)

  -- The value of a call that reads the state alone.
  abbrev pub reads : (S → Result A) → Throws S A
  reads f s = (f s, s)

infixl 5 ◌>>=◌ ◌>>◌
abbrev pub ◌>>=◌ : {S A B : Type 0} → Throws S A → (A → Throws S B) → Throws S B
◌>>=◌ m f s =
    let (r, s') = m s in elim r [ ok a ↦ f a s' | err message code ↦ (err message code, s') ]

abbrev pub ◌>>◌ : {S A B : Type 0} → Throws S A → Throws S B → Throws S B
m >> k = m >>= λ _. k

module _ {S : Type 0} where
  abbrev pub modify : (S → S) → Throws S (Unit {0})
  modify f s = (ok tt, f s)

  abbrev pub throw_if : Bool → String → ℤ → Throws S (Unit {0})
  throw_if true message code = throw message code
  throw_if false message code = pure tt

  abbrev pub or_throw : {A : Type 0} → Option A → String → ℤ → Throws S A
  or_throw none message code = throw message code
  or_throw (some a) message code = pure a

  -- A result with the flag that says whether it is exact.
  abbrev pub exact_or_throw : {A : Type 0} → A × Bool → String → ℤ → Throws S A
  exact_or_throw (a, true) message code = pure a
  exact_or_throw (a, false) message code = throw message code

pub Result-cases :
    {A : Type 0} (r : Result A)
    → ((a : A) × (r ≡ ok a)) ⊎ ((message : String) × (code : ℤ) × (r ≡ err message code))
Result-cases (ok a) = inl (a, refl)
Result-cases (err message code) = inr (message, code, refl)
