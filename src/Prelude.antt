-- ===== src/Prelude.antt =====
-- What the other modules share: the libraries' names passed on, byte lists, signed codes and
-- the keys of hash maps.
pub mod Tests
pub mod Lists
pub mod Int
pub mod Keys
pub mod Exceptions
pub mod Array
pub use Tests.*
pub use Lists.*
pub use Int.*
pub use Exceptions.*
pub use Array.{
  get_elem?, set, push_back, pop_back, back, get_elem?-lt, get_elem?-some, length-set,
  get_elem?-set, length-push_back, get_elem?-push_back, length-pop_back, get_elem?-pop_back,
  back-get_elem?, back_none, index_of-only,
}
unfoldable pub use Array.{index_of}
pub use Keys.{Key, beq_refl, bytes_eq_iff, pair_eq, pair_eq_iff, nat_key, bytes_key, pair_key}
unfoldable pub use Keys.{bytes_eq}
pub use Prim.Native.Nat.{ℕ, zero, suc, ◌+◌, ◌-◌, ◌*◌, ◌/◌, ◌%◌, ◌^◌, ◌≤◌, ◌<◌}
pub use Prim.Native.String.{String}
pub use mathlib.Core.Path.{◌≡◌, refl, sym, ap, ◌∙◌}
pub use mathlib.Core.Logic.{◌≢◌, ◌↔◌, ◌⊎◌, inl, inr}
pub use mathlib.Core.Bool.{Bool, true, false, not, ◌&&◌, ◌||◌}
pub use mathlib.Core.Option.{Option, none, some}
pub use mathlib.Core.List.{List, [], ◌∷◌, ◌++◌}
pub use native.Mathlib.Omega.{arith}
