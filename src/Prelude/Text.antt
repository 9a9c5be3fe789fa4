-- ===== src/Prelude/Text.antt =====
-- Text as a list of Unicode code points, with the methods of Rust's `str` that the server calls.
use Prim.Native.Nat.{ℕ, ◌+◌, ◌-◌, ◌*◌, ◌^◌, ◌<◌}
use Prim.Native.Char.{code}
use Prim.Native.String.{String}
use mathlib.Core.Path.{◌≡◌, refl, sym, ap, ◌≡⟨◌⟩◌, ◌∎}
use mathlib.Core.Logic.{◌↔◌, inl, inr}
use mathlib.Core.Bool.{Bool, true, false, ◌&&◌, ◌||◌}
use mathlib.Core.Option
use mathlib.Core.Option.{Option, none, some}
use mathlib.Core.List.{List, [], ◌∷◌, ◌++◌, map, reverse, reverse-append, reverse-reverse}
use native.Mathlib.Omega.{arith}
use solid_server_rs.Prelude.Tests.{ltb, leb, ◌==◌, if◌then◌else◌, Bool-cases}

abbrev pub Str : Type 0
Str = List ℕ

abbrev pub codes : String → Str
codes String.[] = []
codes (String.◌∷◌ c s) = code c ∷ codes s

-- `==` on texts
unfoldable pub str_eq : Str → Str → Bool
str_eq [] [] = true
str_eq (x ∷ xs) (y ∷ ys) = x == y && str_eq xs ys
str_eq _ _ = false

pub str_eq_iff : (s t : Str) → (str_eq s t ≡ true) ↔ (s ≡ t)
unfolding str_eq
str_eq_iff [] [] = ground arith
str_eq_iff [] (y ∷ t) = ground arith
str_eq_iff (x ∷ s) [] = ground arith
str_eq_iff (x ∷ s) (y ∷ t) = ground (arith, str_eq_iff s t)

pub str_eq_self : (s : Str) → str_eq s s ≡ true
str_eq_self s = (str_eq_iff s s).1 refl

-- `s.strip_prefix(p)`
unfoldable pub strip_prefix : Str → Str → Option Str
strip_prefix s [] = some s
strip_prefix [] (p ∷ ps) = none
strip_prefix (c ∷ s) (p ∷ ps) = if c == p then strip_prefix s ps else none

pub strip_prefix-append : (p s : Str) → strip_prefix (p ++ s) p ≡ some s
unfolding strip_prefix
strip_prefix-append [] [] = refl
strip_prefix-append [] (c ∷ s) = refl
strip_prefix-append (c ∷ p) s = ground (arith, strip_prefix-append p s)

pub eq-append_of_strip_prefix : (s p r : Str) → strip_prefix s p ≡ some r → s ≡ p ++ r
unfolding strip_prefix
eq-append_of_strip_prefix [] [] r h = ground arith
eq-append_of_strip_prefix (c ∷ s) [] r h = ground arith
eq-append_of_strip_prefix [] (p ∷ ps) r h = cc
eq-append_of_strip_prefix (c ∷ s) (p ∷ ps) r h = ground (arith, eq-append_of_strip_prefix s ps r)

-- `s.strip_suffix(p)`
unfoldable pub strip_suffix : Str → Str → Option Str
strip_suffix s p = Option.map reverse (strip_prefix (reverse s) (reverse p))

pub strip_suffix-append : (s p : Str) → strip_suffix (s ++ p) p ≡ some s
unfolding strip_suffix
strip_suffix-append s p =
    rw (reverse-append s p, strip_prefix-append (reverse p) (reverse s))
      (ap some (reverse-reverse s))

pub eq-append_of_strip_suffix : (s p r : Str) → strip_suffix s p ≡ some r → s ≡ r ++ p
unfolding strip_suffix
eq-append_of_strip_suffix s p r h =
    let (found, matched, same) = (Option.map-eq-some_iff _ _).0 h in
    s
    ≡⟨ sym (reverse-reverse s) ⟩ reverse (reverse s)
    ≡⟨ ap reverse (eq-append_of_strip_prefix (reverse s) (reverse p) found matched) ⟩
      reverse (reverse p ++ found)
    ≡⟨ reverse-append (reverse p) found ⟩ reverse found ++ reverse (reverse p)
    ≡⟨ rw (same, reverse-reverse p) refl ⟩ r ++ p ∎

unfoldable pub is_some {ℓ} : {A : Type ℓ} → Option A → Bool
is_some none = false
is_some (some _) = true

unfoldable pub starts_with : Str → Str → Bool
unfolding is_some
starts_with s p = is_some (strip_prefix s p)

unfoldable pub ends_with : Str → Str → Bool
unfolding is_some
ends_with s p = is_some (strip_suffix s p)

-- `s.contains(c)` for a single character
unfoldable pub contains_char : ℕ → Str → Bool
contains_char c [] = false
contains_char c (x ∷ s) = x == c || contains_char c s

-- `s.split_once(c)`
unfoldable pub split_once : ℕ → Str → Option (Str × Str)
split_once c [] = none
split_once c (x ∷ s) =
    let rest =
      Option.map (λ (p : Str × Str). let q : Str × Str = (x ∷ p.0, p.1) in q) (split_once c s) in
    if x == c then some ([], s) else rest

abbrev cons_head : ℕ → List Str → List Str
cons_head x [] = (x ∷ []) ∷ []
cons_head x (p ∷ ps) = (x ∷ p) ∷ ps

-- `s.split(c)` for a single character: never empty
unfoldable pub split : ℕ → Str → List Str
split c [] = [] ∷ []
split c (x ∷ s) = let rest = split c s in if x == c then [] ∷ rest else cons_head x rest

unfoldable pub drop_while : (ℕ → Bool) → Str → Str
drop_while p [] = []
drop_while p (x ∷ s) = if p x then drop_while p s else x ∷ s

-- The characters with the property White_Space.
unfoldable pub is_whitespace : ℕ → Bool
is_whitespace c =
    leb 0x9 c && leb c 0xd
    || c == 0x20
    || c == 0x85
    || c == 0xa0
    || c == 0x1680
    || leb 0x2000 c && leb c 0x200a
    || c == 0x2028
    || c == 0x2029
    || c == 0x202f
    || c == 0x205f
    || c == 0x3000

unfoldable pub trim_start : Str → Str
unfolding drop_while is_whitespace
trim_start s = drop_while is_whitespace s

unfoldable pub trim_end : Str → Str
unfolding drop_while is_whitespace
trim_end s = reverse (drop_while is_whitespace (reverse s))

unfoldable pub trim : Str → Str
unfolding trim_start trim_end
trim s = trim_start (trim_end s)

-- `s.trim_start_matches(c)` and `s.trim_end_matches(c)` for a single character
unfoldable pub trim_start_matches : ℕ → Str → Str
unfolding drop_while
trim_start_matches c s = drop_while (λ x. x == c) s

unfoldable pub trim_end_matches : ℕ → Str → Str
unfolding drop_while
trim_end_matches c s = reverse (drop_while (λ x. x == c) (reverse s))

unfoldable pub lower : ℕ → ℕ
lower c = if leb b'A' c && leb c b'Z' then c + 32 else c

unfoldable pub to_ascii_lowercase : Str → Str
unfolding lower
to_ascii_lowercase s = map lower s

unfoldable pub eq_ignore_ascii_case : Str → Str → Bool
unfolding to_ascii_lowercase str_eq
eq_ignore_ascii_case s t = str_eq (to_ascii_lowercase s) (to_ascii_lowercase t)

abbrev pub is_ascii_digit : ℕ → Bool
is_ascii_digit c = leb b'0' c && leb c b'9'

-- The digits of an unsigned number below a bound; `none` on another character or an overflow.
unfoldable pub parse_digits : ℕ → ℕ → Str → Option ℕ
parse_digits bound acc [] = some acc
parse_digits bound acc (c ∷ s) =
    let next = acc * 10 + (c - b'0') in
    let rest = parse_digits bound next s in
    if is_ascii_digit c && ltb next bound then rest else none

abbrev parse_unsigned : ℕ → Str → Option ℕ
parse_unsigned bound [] = none
parse_unsigned bound (c ∷ []) = parse_digits bound 0 (c ∷ [])
parse_unsigned bound (c ∷ d ∷ s) =
    if c == b'+' then parse_digits bound 0 (d ∷ s) else parse_digits bound 0 (c ∷ d ∷ s)

-- `s.parse::<u64>()`: an optional plus sign, then at least one digit, with no overflow
unfoldable pub parse_u64 : Str → Option ℕ
unfolding parse_digits
parse_u64 s = parse_unsigned (2 ^ 64) s

pub parse_digits-lt :
    (bound acc : ℕ) (s : Str) (n : ℕ) → acc < bound → parse_digits bound acc s ≡ some n → n < bound
unfolding parse_digits
parse_digits-lt bound acc [] n a h = ground arith
parse_digits-lt bound acc (c ∷ s) n a h =
    ground (arith, parse_digits-lt bound (acc * 10 + (c - b'0')) s n)

pub parse_u64-lt : (s : Str) (n : ℕ) → parse_u64 s ≡ some n → n < 2 ^ 64
unfolding parse_u64
parse_u64-lt [] n h = cc
parse_u64-lt (c ∷ []) n h = parse_digits-lt (2 ^ 64) 0 (c ∷ []) n (omega arith) h
parse_u64-lt (c ∷ d ∷ s) n h =
    let few = parse_digits-lt (2 ^ 64) 0 (d ∷ s) n (omega arith) in
    let most = parse_digits-lt (2 ^ 64) 0 (c ∷ d ∷ s) n (omega arith) in
    elim (Bool-cases (c == b'+')) [
      | inl plus ↦ few (rw plus at h)
      | inr other ↦ most (rw other at h)
    ]

-- `s.split(p).next().unwrap_or("")`: what stands before the first character that `p` holds of
unfoldable pub until : (ℕ → Bool) → Str → Str
until p [] = []
until p (c ∷ s) = let rest = until p s in if p c then [] else c ∷ rest

-- What stands before the last `c`: with `s.rfind(c)`, `&s[..i]`.
unfoldable pub before_last : ℕ → Str → Option Str
unfolding split_once
before_last c s = Option.map (λ (p : Str × Str). reverse p.1) (split_once c (reverse s))

-- The bytes of a code point in UTF-8, and `s.len()`.
unfoldable pub utf8_len : ℕ → ℕ
utf8_len c = if ltb c 0x80 then 1 else if ltb c 0x800 then 2 else if ltb c 0x10000 then 3 else 4

unfoldable pub byte_len : Str → ℕ
unfolding utf8_len
byte_len [] = 0
byte_len (c ∷ s) = utf8_len c + byte_len s
