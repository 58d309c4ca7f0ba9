-- ===== src/Prelude.antt =====
-- The names that the components share: the libraries', passed on, the tests on numbers and texts,
-- the lists measured by native numbers, and keyed lists that stand for hash maps.
mod Tests
mod Lists
pub mod Texts
pub mod Maps
mod Results
pub use Tests.*
pub use Lists.*
pub use Results.*
unfoldable pub use Texts.{text_eq, is_whitespace, trim, eq_ignore_ascii_case}
pub use Texts.{Text, text_eq_iff, text_eq_refl, text_ne, codes}
pub use Prim.Native.Nat.{ℕ, zero, suc, ◌+◌, ◌-◌, ◌*◌, ◌/◌, ◌%◌, ◌^◌, ◌≤◌, ◌<◌, min}
pub use Prim.Native.String.{String}
pub use mathlib.Core.Path.{◌≡◌, refl, sym, ap, ◌∙◌, subst}
pub use mathlib.Core.Logic.{◌≢◌, ◌↔◌, ◌⊎◌, inl, inr}
pub use mathlib.Core.Bool.{Bool, true, false, ◌&&◌, ◌||◌, not, false≢true}
pub use mathlib.Core.Option.{Option, none, some}
pub use mathlib.Core.List.{List, [], ◌∷◌, ◌++◌, map, reverse, append-nil, append_assoc}
pub use native.Mathlib.Omega.{arith}
