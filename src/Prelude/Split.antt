-- ===== src/Prelude/Split.antt =====
-- Laws of the cuts of a text at a character, and of its length in bytes.
use mathlib.Core.List.{List, reverse-append, reverse-cons, reverse-reverse, append_assoc}
use Prim.Native.Nat.{ℕ, ◌+◌, ◌<◌}
use mathlib.Core.Path.{◌≡◌, refl, sym, ap, ◌∙◌}
use mathlib.Core.Logic.{◌≢◌, inl, inr}
use mathlib.Core.Bool.{false, ◌||◌}
use mathlib.Core.Option.{none, some}
use mathlib.Core.List.{[], ◌∷◌, ◌++◌, reverse}
use native.Mathlib.Omega.{arith}
use solid_server_rs.Prelude.Tests.{◌==◌, ==_iff, Bool-cases, Option-cases}
use solid_server_rs.Prelude.Text.{
  split, Str, contains_char, split_once, before_last, strip_suffix, utf8_len, byte_len,
  eq-append_of_strip_suffix,
}

pub contains_char-append :
    (c : ℕ) (s t : Str) → contains_char c (s ++ t) ≡ (contains_char c s || contains_char c t)
unfolding contains_char
contains_char-append c [] t = refl
contains_char-append c (x ∷ s) t = ground (arith, contains_char-append c s t)

pub contains_char-reverse : (c : ℕ) (s : Str) → contains_char c (reverse s) ≡ contains_char c s
unfolding contains_char
contains_char-reverse c [] = refl
contains_char-reverse c (x ∷ s) =
    rw (reverse-cons, contains_char-append) (ground (arith, contains_char-reverse c s))

pub split_once-append :
    (c : ℕ) (s t : Str) → contains_char c s ≡ false → split_once c (s ++ c ∷ t) ≡ some (s, t)
unfolding split_once contains_char
split_once-append c [] t h = ground arith
split_once-append c (x ∷ s) t h = ground (arith, split_once-append c s t)

pub split_once-none : (c : ℕ) (s : Str) → contains_char c s ≡ false → split_once c s ≡ none
unfolding split_once contains_char
split_once-none c [] h = refl
split_once-none c (x ∷ s) h = ground (arith, split_once-none c s)

-- What stands before the last slash of a path, where the last name holds none.
pub before_last-append :
    (c : ℕ) (s t : Str) → contains_char c t ≡ false → before_last c (s ++ c ∷ t) ≡ some s
unfolding before_last
before_last-append c s t h =
    let e : reverse (s ++ c ∷ t) ≡ reverse t ++ c ∷ reverse s =
      rw (reverse-append s (c ∷ t), reverse-cons, append_assoc) refl in
    rw e (
      rw (split_once-append c (reverse t) (reverse s) (contains_char-reverse c t ∙ h))
        (ap some (reverse-reverse s)))

pub byte_len-append : (s t : Str) → byte_len (s ++ t) ≡ byte_len s + byte_len t
unfolding byte_len
byte_len-append [] t = omega arith
byte_len-append (c ∷ s) t = omega (arith, byte_len-append s t)

pub byte_len-pos : (s : Str) → s ≢ [] → 0 < byte_len s
unfolding byte_len utf8_len
byte_len-pos [] h = absurd (h refl)
byte_len-pos (c ∷ s) h = ground arith

reverse-ne-nil : (s : Str) → s ≢ [] → reverse s ≢ []
reverse-ne-nil s h e = h (sym (reverse-reverse s) ∙ ap reverse e)

not_first : (c : ℕ) (u v r : Str) → u ≢ [] → contains_char c u ≡ false → u ++ v ≢ c ∷ r
unfolding contains_char
not_first c [] v r ne h = λ e. ne refl
not_first c (x ∷ u) v r ne h = λ e. ground arith

-- A text whose last part is not empty and free of `c` does not end in `c`.
pub strip_suffix-none :
    (c : ℕ) (s t : Str) → t ≢ [] → contains_char c t ≡ false → strip_suffix (s ++ t) (c ∷ []) ≡ none
strip_suffix-none c s t ne h = elim (Option-cases (strip_suffix (s ++ t) (c ∷ []))) [
  | inl none_there ↦ none_there
  | inr (r, found) ↦ absurd (
      not_first c (reverse t) (reverse s) (reverse r) (reverse-ne-nil t ne)
        (contains_char-reverse c t ∙ h)
        (sym (reverse-append s t)
          ∙ ap reverse (eq-append_of_strip_suffix (s ++ t) (c ∷ []) r found)
          ∙ reverse-append r (c ∷ [])))
]

-- A text is cut into at least one piece.
split-cons : (c : ℕ) (s : Str) → (p : Str) × (ps : List Str) × (split c s ≡ p ∷ ps)
unfolding split
split-cons c [] = ([], [], refl)
split-cons c (x ∷ s) =
    let (p, ps, e) = split-cons c s in
    elim (Bool-cases (x == c)) [
      | inl y ↦ ([], split c s, rw y refl)
      | inr n ↦ (x ∷ p, ps, rw (n, e) refl)
    ]

pub split-whole : (c : ℕ) (s : Str) → contains_char c s ≡ false → split c s ≡ s ∷ []
unfolding split contains_char
split-whole c [] h = refl
split-whole c (x ∷ s) h =
    let other : (x == c) ≡ false = ground arith in
    let rest : contains_char c s ≡ false = ground arith in rw (other, split-whole c s rest) refl

pub split-append : (c : ℕ) (s t : Str) → split c (s ++ c ∷ t) ≡ split c s ++ split c t
unfolding split
split-append c [] t = rw ((==_iff c c).1 refl) refl
split-append c (x ∷ s) t =
    let (p, ps, e) = split-cons c s in
    let step = split-append c s t in
    elim (Bool-cases (x == c)) [
      | inl y ↦ rw y (ap (λ l. [] ∷ l) step)
      | inr n ↦ rw n (rw (step, e) refl)
    ]
