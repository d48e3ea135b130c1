-- ===== src/Common.antt =====
-- The names that the other modules share: the libraries', passed on, and those of the children.
mod Tests
mod Lists
mod Strings
mod Dict
pub mod Int
pub mod Results
pub use Tests.*
pub use Lists.*
pub use Dict.*
pub use Strings.{
  Text, codes, text_beq, text_beq_iff, text_eq, is_empty, after_prefix, after_prefix-append,
  text_ltb, text_ltb_irrefl, text_ltb_trans, text_ltb_total, text_ltb_nil, text_max, text_max_assoc,
  lower_char, text_max_comm, text_max_idem, text_max_nil, text_max_nil_right,
}
unfoldable pub use Strings.{is_space, lstrip, strip, lower}
pub use Prim.Native.Nat.{ℕ, zero, suc, ◌+◌, ◌-◌, ◌*◌, ◌/◌, ◌%◌, ◌^◌, ◌≤◌, ◌<◌, min, max}
pub use mathlib.Core.Path.{◌≡◌, refl, sym, ap, ◌∙◌, subst}
pub use mathlib.Core.Logic.{◌≢◌, ◌↔◌, ◌⊎◌, inl, inr}
pub use mathlib.Core.Bool.{Bool, true, false, not, ◌&&◌, ◌||◌}
pub use mathlib.Core.Option.{Option, none, some}
pub use mathlib.Core.List.{List, [], ◌∷◌, ◌++◌, map, reverse, foldl}
pub use native.Mathlib.Omega.{arith}
