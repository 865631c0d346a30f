-- ===== src/Prelude.antt =====
-- The names that the other modules share: the libraries', passed on, and those of five children.
pub mod Tests
pub mod Lists
pub mod Strings
pub mod Arrays
pub mod Int
pub mod Bits
pub use Tests.*
pub use Lists.*
pub use Strings.{Text, length-snprintf}
unfoldable pub use Strings.{
  codes, has_prefix, same_text, to_lower, has_prefix_nocase, snprintf, overlay, zeros, dec,
  dec_padded,
}
unfoldable pub use Arrays.{update}
pub use Arrays.{update_self, update_other}
pub use Int.*
pub use Prim.Native.Nat.{ℕ, zero, suc, ◌+◌, ◌-◌, ◌*◌, ◌/◌, ◌%◌, ◌^◌, ◌≤◌, ◌<◌, min}
pub use Prim.Native.String.{String}
pub use mathlib.Core.Path.{◌≡◌, refl, sym, ap, ◌∙◌}
pub use mathlib.Core.Logic.{◌≢◌, ◌↔◌, ◌⊎◌, inl, inr}
pub use mathlib.Core.Bool.{Bool, true, false, not, ◌&&◌, ◌||◌}
pub use mathlib.Core.Option.{Option, none, some}
pub use mathlib.Core.List.{List, [], ◌∷◌, ◌++◌, map}
pub use native.Mathlib.Omega.{arith}
