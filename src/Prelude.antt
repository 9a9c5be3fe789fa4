-- ===== src/Prelude.antt =====
-- The names that the other modules share: those of the libraries, passed on, and the children's.
mod Tests
mod Lists
mod Text
mod Split
mod Plain
mod Utf8
mod Integers
pub use Tests.*
pub use Lists.*
pub use Text.*
pub use Split.*
pub use Plain.*
pub use Utf8.*
pub use Integers.*
unfoldable pub use Text.{
  is_some, str_eq, strip_prefix, strip_suffix, starts_with, ends_with, split, split_once,
  contains_char, is_whitespace, trim_start, trim_end, trim, lower, to_ascii_lowercase,
  eq_ignore_ascii_case, drop_while, trim_end_matches, trim_start_matches, parse_digits, parse_u64,
  until, before_last, utf8_len, byte_len,
}
pub use Prim.Native.Nat.{ℕ, zero, suc, ◌+◌, ◌-◌, ◌*◌, ◌/◌, ◌%◌, ◌^◌, ◌≤◌, ◌<◌, min, max}
pub use Prim.Native.String.{String}
pub use mathlib.Core.Path.{◌≡◌, refl, sym, ap, ◌∙◌, ◌≡⟨◌⟩◌, ◌∎}
pub use mathlib.Core.Logic.{◌≢◌, ◌↔◌, ◌⊎◌, inl, inr}
pub use mathlib.Core.Bool.{Bool, true, false, not, ◌&&◌, ◌||◌}
pub use mathlib.Core.Option.{Option, none, some}
pub use mathlib.Core.List.{List, [], ◌∷◌, ◌++◌, map, reverse}
pub use native.Mathlib.Omega.{arith}
unfoldable pub use Utf8.{utf8_encode, as_bytes, from_utf8_lossy}
