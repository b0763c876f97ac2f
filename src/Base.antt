-- ===== src/Base.antt =====
-- The names that the other modules share: those of the libraries, passed on, and those of the
-- children. Nothing here models code of the repository.
mod Tests
mod Lists
mod Equality
mod Results
mod Texts
mod Trimmed
pub use Tests.*
pub use Lists.*
pub use Trimmed.{trim_twice}
pub use Texts.{Text, is_nil, take, drop, utf8_len, take-drop, same_text_refl, same_text_eq}
unfoldable pub use Texts.{same_text, is_whitespace, trim_start, trim}
pub use Results.*
unfoldable pub use Results.{show}
unfoldable pub use Equality.{same}
pub use Equality.{same_iff, same_refl}
pub use Prim.Native.Nat.{ℕ, zero, suc, ◌+◌, ◌-◌, ◌*◌, ◌/◌, ◌%◌, ◌^◌, ◌≤◌, ◌<◌, min, max}
pub use Prim.Native.String.{String, ◌++◌ as ◌<>◌}
pub use mathlib.Core.Path.{◌≡◌, refl, sym, ap, ◌∙◌, subst}
pub use mathlib.Core.Logic.{◌≢◌, ◌↔◌, ◌⊎◌, inl, inr}
pub use mathlib.Core.Bool.{Bool, true, false, not, ◌&&◌, ◌||◌}
pub use mathlib.Core.Option.{Option, none, some}
pub use mathlib.Core.List.{List, [], ◌∷◌, ◌++◌, map}
pub use native.Mathlib.Omega.{arith}
