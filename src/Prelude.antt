-- ===== src/Prelude.antt =====
-- The names that the modules share: the libraries', passed on, and those of the children.
pub mod Tests
pub mod Lists
pub mod Results
pub mod Dicts
pub mod Text
pub mod Sorting
pub mod Int
pub use Tests.*
pub use Lists.*
pub use Results.{
  Result, ok, raise, ◌>>=◌, ◌>>◌, raise_if, >>=-ok, >>=-eq-ok, Result-cases, >>=-eq-raise,
  raise_if-eq-ok, ok-injective,
}
pub use Text.*
pub use Int.*
unfoldable pub use Dicts.{Dict, get, put, values}
pub use Dicts.{
  get-put, get-put_self, Distinct, put-Distinct, All-of_get, All-values, Every, put-Every, some_inj,
}
pub use text.Mathlib.TextPositions.{eq_refl}
pub use Prim.Native.Nat.{ℕ, zero, suc, ◌+◌, ◌-◌, ◌*◌, ◌/◌, ◌%◌, ◌^◌, ◌≤◌, ◌<◌}
pub use Prim.Native.String.{String}
pub use text.Mathlib.Text.{◌==◌ as str_eq}
pub use text.Mathlib.TextEquality.{eq_iff}
pub use mathlib.Core.Path.{◌≡◌, refl, sym, ap, ◌∙◌}
pub use mathlib.Core.Logic.{◌≢◌, ◌↔◌, ◌⊎◌, inl, inr}
pub use mathlib.Core.Bool.{Bool, true, false, not, ◌&&◌, ◌||◌}
pub use mathlib.Core.Option.{Option, none, some}
pub use mathlib.Core.List.{List, [], ◌∷◌, ◌++◌, map}
pub use native.Mathlib.Omega.{arith}
