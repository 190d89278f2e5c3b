-- ===== src/Base.antt =====
-- Names that the other modules share: the libraries', passed on, and those of the children here,
-- which hold tests on numbers, integers, lists, texts and the monad of database transactions.
mod Tests
mod Lists
mod Int
mod Ascii
pub use Tests.*
pub use Lists.*
pub use Ascii.{
  is_digit, is_upper, is_lower, is_hexdigit, ascii_lower, ascii_upper, to_ascii_lowercase, len_utf8,
  byte_len, strip_prefix, starts_with, contains_text, is_lowercase, to_ascii_lowercase-lower,
}
unfoldable pub use Int.*
pub use Prim.Native.Nat.{ℕ, zero, suc, ◌+◌, ◌-◌, ◌*◌, ◌/◌, ◌%◌, ◌^◌, ◌≤◌, ◌<◌, min, max}
pub use mathlib.Core.Path.{◌≡◌, refl, sym, ap, ◌∙◌, subst}
pub use mathlib.Core.Logic.{◌≢◌, ◌↔◌, ◌⊎◌, inl, inr}
pub use mathlib.Core.Bool.{Bool, true, false, ◌&&◌, ◌||◌, not}
pub use mathlib.Core.Option.{Option, none, some}
pub use mathlib.Core.List.{List, [], ◌∷◌, ◌++◌, map}
pub use native.Mathlib.Omega.{arith}
