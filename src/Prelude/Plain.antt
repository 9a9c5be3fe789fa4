-- ===== src/Prelude/Plain.antt =====
-- Texts without white space, such as those of digits, are left as they are by the trimming methods.
use Prim.Native.Nat.{ℕ}
use mathlib.Core.Path.{◌≡◌, refl, ◌∙◌}
use mathlib.Core.Bool.{Bool, true, false}
use mathlib.Core.List.{[], ◌∷◌, reverse, reverse-cons, reverse-reverse}
use native.Mathlib.Omega.{arith}
use solid_server_rs.Prelude.Lists.{all, any, any-append}
use solid_server_rs.Prelude.Text.{
  Str, contains_char, drop_while, is_whitespace, trim_start, trim_end, trim, is_ascii_digit,
}

abbrev pub has_whitespace : Str → Bool
has_whitespace s = any is_whitespace s

has_whitespace-reverse : (s : Str) → has_whitespace (reverse s) ≡ has_whitespace s
has_whitespace-reverse [] = refl
has_whitespace-reverse (c ∷ s) =
    rw (reverse-cons, any-append is_whitespace (reverse s) (c ∷ []))
      (ground (arith, has_whitespace-reverse s))

drop_while-plain : (s : Str) → has_whitespace s ≡ false → drop_while is_whitespace s ≡ s
unfolding drop_while
drop_while-plain [] h = refl
drop_while-plain (c ∷ s) h = ground arith

pub trim-plain : (s : Str) → has_whitespace s ≡ false → trim s ≡ s
unfolding trim trim_start trim_end
trim-plain s h =
    rw (drop_while-plain (reverse s) (has_whitespace-reverse s ∙ h), reverse-reverse s)
      (drop_while-plain s h)

pub contains_char-digits :
    (c : ℕ) (s : Str)
    → is_ascii_digit c ≡ false
    → all is_ascii_digit s ≡ true
    → contains_char c s ≡ false
unfolding contains_char
contains_char-digits c [] n h = refl
contains_char-digits c (x ∷ s) n h = ground (arith, contains_char-digits c s n)

pub has_whitespace-digits : (s : Str) → all is_ascii_digit s ≡ true → has_whitespace s ≡ false
unfolding is_whitespace
has_whitespace-digits [] h = refl
has_whitespace-digits (x ∷ s) h = ground (arith, has_whitespace-digits s)
