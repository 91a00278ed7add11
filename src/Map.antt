-- ===== src/Map.antt =====
-- `std::unordered_map` as the ledger uses it: an association list whose order no operation shows.
-- `find`, `insert`, a write through an iterator, `erase`, `size`.
pub mod Laws
use machine_asset_tools.Prelude.{
  ℕ, Bool, true, false, Option, none, some, List, [], ◌∷◌, if◌then◌else◌, Key, length,
}

abbrev pub Map : Type 0 → Type 0 → Type 0
Map K V = List (K × V)

module _ {K V : Type 0} ⦃k : Key K⦄ where
  -- `find`: `none` is the end iterator.
  unfoldable pub find : K → Map K V → Option V
  find x [] = none
  find x ((y, v) ∷ m) = if k.beq y x then some v else find x m

  -- `insert`: an entry that is there stays, and the flag tells whether one was added.
  unfoldable pub insert : K → V → Map K V → Map K V × Bool
  unfolding find
  insert x v m = elim (find x m) [ none ↦ ((x, v) ∷ m, true) | some _ ↦ (m, false) ]

  -- A write through the iterator that `find` has returned.
  unfoldable pub assign : K → V → Map K V → Map K V
  assign x v [] = []
  assign x v ((y, w) ∷ m) = if k.beq y x then (y, v) ∷ m else (y, w) ∷ assign x v m

abbrev pub size : {K V : Type 0} → Map K V → ℕ
size m = length m

module _ {K V : Type 0} ⦃k : Key K⦄ where
  -- `erase` by key.
  unfoldable pub erase : K → Map K V → Map K V
  erase x [] = []
  erase x ((y, v) ∷ m) = if k.beq y x then m else (y, v) ∷ erase x m
