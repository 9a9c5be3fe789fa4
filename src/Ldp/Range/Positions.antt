-- ===== src/Ldp/Range/Positions.antt =====
-- src/ldp/range.rs: which bytes of a resource a `Range` header selects.
use mathlib.Core.Path.{subst}
use solid_server_rs.Prelude.{
  ℕ, ◌+◌, ◌-◌, ◌<◌, ◌≤◌, ltb, ◌≡◌, refl, ◌≢◌, ◌↔◌, true, false, inl, inr, Option, none, some, [],
  ◌∷◌, ◌++◌, Str, codes, all, any-append, Bool-cases, strip_prefix, strip_prefix-append,
  contains_char, contains_char-append, contains_char-digits, split_once, split_once-append,
  is_ascii_digit, is_whitespace, has_whitespace, has_whitespace-digits, trim, trim-plain, parse_u64,
  arith, if◌then◌else◌, ◌==◌,
}
use solid_server_rs.Ldp.Range.{
  RangeOutcome, full, unsatisfiable, satisfied, suffix_range, open_range, closed_range, select,
  evaluate, select_parts, select_specs,
}

-- The positions that the response to an outcome holds, in a resource of `len` bytes.
abbrev pub Serves : ℕ → RangeOutcome → ℕ → Type 0
Serves len full i = i < len
Serves len unsatisfiable i = ⊥
Serves len (satisfied start end) i = (start ≤ i) × (i ≤ end)

-- A satisfied outcome is an interval of the resource that is not empty.
abbrev IsWithin : ℕ → RangeOutcome → Type 0
IsWithin len (satisfied start end) = (start ≤ end) × (end < len)
IsWithin len _ = Unit

suffix_range-IsWithin : (len : ℕ) (n : Option ℕ) → len ≢ 0 → IsWithin len (suffix_range len n)
unfolding suffix_range
suffix_range-IsWithin len none ne = tt
suffix_range-IsWithin len (some n) ne = elim (Bool-cases (n == 0)) [
  | inl y ↦ rw y tt
  | inr n0 ↦ rw n0 (ground arith)
]

open_range-IsWithin : (len : ℕ) (n : Option ℕ) → len ≢ 0 → IsWithin len (open_range len n)
unfolding open_range
open_range-IsWithin len none ne = tt
open_range-IsWithin len (some n) ne = elim (Bool-cases (ltb (len - 1) n)) [
  | inl y ↦ rw y tt
  | inr n0 ↦ rw n0 (ground arith)
]

closed_range-IsWithin : (len : ℕ) (a b : Option ℕ) → len ≢ 0 → IsWithin len (closed_range len a b)
unfolding closed_range
closed_range-IsWithin len none b ne = tt
closed_range-IsWithin len (some a) none ne = tt
closed_range-IsWithin len (some a) (some b) ne = elim (Bool-cases (ltb b a)) [
  | inl y ↦ rw y tt
  | inr n0 ↦ elim (Bool-cases (ltb (len - 1) a)) [
    | inl y ↦ rw (n0, y) tt
    | inr n ↦ rw (n0, n) (ground arith)
  ]
]

select-IsWithin : (len : ℕ) (first last : Str) → len ≢ 0 → IsWithin len (select len first last)
unfolding select
select-IsWithin len [] [] ne = tt
select-IsWithin len [] (d ∷ last) ne = suffix_range-IsWithin len (parse_u64 (d ∷ last)) ne
select-IsWithin len (c ∷ first) [] ne = open_range-IsWithin len (parse_u64 (c ∷ first)) ne
select-IsWithin len (c ∷ first) (d ∷ last) ne =
    closed_range-IsWithin len (parse_u64 (c ∷ first)) (parse_u64 (d ∷ last)) ne

select_parts-IsWithin :
    (len : ℕ) (parts : Option (Str × Str)) → IsWithin len (select_parts len parts)
select_parts-IsWithin len none = tt
select_parts-IsWithin len (some (first, last)) = elim (Bool-cases (len == 0)) [
  | inl y ↦ rw y tt
  | inr n ↦ rw n (select-IsWithin len (trim first) (trim last) (ground arith))
]

select_specs-IsWithin : (len : ℕ) (s : Option Str) → IsWithin len (select_specs len s)
select_specs-IsWithin len none = tt
select_specs-IsWithin len (some s) = elim (Bool-cases (contains_char b',' (trim s))) [
  | inl y ↦ rw y tt
  | inr n ↦ rw n (select_parts-IsWithin len (split_once b'-' (trim (trim s))))
]

evaluate-IsWithin : (range : Option Str) (len : ℕ) → IsWithin len (evaluate range len)
unfolding evaluate
evaluate-IsWithin none len = tt
evaluate-IsWithin (some range) len =
    select_specs-IsWithin len (strip_prefix (trim range) (codes "bytes="))

-- Whatever the header says, a satisfied range starts no later than it ends and ends inside the
-- resource.
pub evaluate-bounds :
    (range : Option Str) (len start end : ℕ)
    → evaluate range len ≡ satisfied start end
    → (start ≤ end) × (end < len)
evaluate-bounds range len start end h = subst (IsWithin len) h (evaluate-IsWithin range len)

plain_dash :
    (s t : Str)
    → has_whitespace s ≡ false
    → has_whitespace t ≡ false
    → has_whitespace (s ++ b'-' ∷ t) ≡ false
unfolding is_whitespace
plain_dash s t p q = rw (any-append is_whitespace s (b'-' ∷ t)) (rw (p, q) refl)

plain_bytes : (s : Str) → has_whitespace s ≡ false → has_whitespace (codes "bytes=" ++ s) ≡ false
unfolding is_whitespace
plain_bytes s p = rw p refl

comma_free :
    (s t : Str)
    → all is_ascii_digit s ≡ true
    → all is_ascii_digit t ≡ true
    → contains_char b',' (s ++ b'-' ∷ t) ≡ false
unfolding contains_char
comma_free s t p q =
    rw (contains_char-append b',' s (b'-' ∷ t), contains_char-digits b',' s refl p)
      (rw (contains_char-digits b',' t refl q) refl)

-- A header of digits around one dash is cut at the dash.
evaluate-select :
    (first last : Str) (len : ℕ)
    → all is_ascii_digit first ≡ true
    → all is_ascii_digit last ≡ true
    → evaluate (some (codes "bytes=" ++ first ++ b'-' ∷ last)) len
      ≡ (if len == 0 then unsatisfiable else select len first last)
unfolding evaluate
evaluate-select first last len f l =
    let plain_first = has_whitespace-digits first f in
    let plain_last = has_whitespace-digits last l in
    let plain = plain_dash first last plain_first plain_last in
    let no_comma = comma_free first last f l in
    rw
      (
        trim-plain (codes "bytes=" ++ first ++ b'-' ∷ last) (plain_bytes _ plain),
        strip_prefix-append (codes "bytes=") (first ++ b'-' ∷ last),
        trim-plain (first ++ b'-' ∷ last) plain,
      )
      (rw (no_comma, trim-plain (first ++ b'-' ∷ last) plain)
        (rw
          (
            split_once-append b'-' first last (contains_char-digits b'-' first refl f),
            trim-plain first plain_first,
            trim-plain last plain_last,
          )
          refl))

suffix_positions :
    (len n i : ℕ) → len ≢ 0 → Serves len (suffix_range len (some n)) i ↔ ((i < len) × (len ≤ i + n))
unfolding suffix_range
suffix_positions len n i ne = elim (Bool-cases (n == 0)) [
  | inl y ↦ rw y (ground arith)
  | inr n0 ↦ rw n0 (ground arith)
]

open_positions :
    (len a i : ℕ) → len ≢ 0 → Serves len (open_range len (some a)) i ↔ ((a ≤ i) × (i < len))
unfolding open_range
open_positions len a i ne = elim (Bool-cases (ltb (len - 1) a)) [
  | inl y ↦ rw y (ground arith)
  | inr n0 ↦ rw n0 (ground arith)
]

le_ltb : (a b : ℕ) → a ≤ b → ltb b a ≡ false
le_ltb a b h = ground arith

closed_positions :
    (len a b i : ℕ)
    → len ≢ 0
    → a ≤ b
    → Serves len (closed_range len (some a) (some b)) i ↔ ((a ≤ i) × (i ≤ b) × (i < len))
unfolding closed_range
closed_positions len a b i ne le = elim (Bool-cases (ltb (len - 1) a)) [
  | inl y ↦ rw (le_ltb a b le, y) (ground arith)
  | inr n0 ↦ rw (le_ltb a b le, n0) (ground arith)
]

when_empty :
    (len : ℕ) (r : RangeOutcome) (i : ℕ) {P : Type 0}
    → (len ≢ 0 → Serves len r i ↔ P)
    → (P → i < len)
    → Serves len (if len == 0 then unsatisfiable else r) i ↔ P
when_empty len r i h inside = elim (Bool-cases (len == 0)) [
  | inl y ↦ rw y (λ x. absurd x, λ p. let lt = inside p in ground arith)
  | inr n0 ↦ rw n0 (h (ground arith))
]

select-closed :
    (first last : Str) (len a b : ℕ)
    → parse_u64 first ≡ some a
    → parse_u64 last ≡ some b
    → select len first last ≡ closed_range len (some a) (some b)
unfolding select parse_u64
select-closed [] last len a b p q = absurd (cc p)
select-closed (c ∷ first) [] len a b p q = absurd (cc q)
select-closed (c ∷ first) (d ∷ last) len a b p q = rw (p, q) refl

select-open :
    (first : Str) (len a : ℕ)
    → parse_u64 first ≡ some a
    → select len first [] ≡ open_range len (some a)
unfolding select parse_u64
select-open [] len a p = absurd (cc p)
select-open (c ∷ first) len a p = rw p refl

select-suffix :
    (last : Str) (len n : ℕ)
    → parse_u64 last ≡ some n
    → select len [] last ≡ suffix_range len (some n)
unfolding select parse_u64
select-suffix [] len n p = absurd (cc p)
select-suffix (d ∷ last) len n p = rw p refl

-- For texts of digits that are the numbers `a` and `b`: "bytes=a-b" with `a` not above `b` serves the
-- positions of the resource from `a` to `b`, "bytes=a-" those from `a` on, and "bytes=-b" the last `b`;
-- where that is no position, the outcome serves nothing.
pub evaluate-positions :
    (first last : Str) (len a b i : ℕ)
    → all is_ascii_digit first ≡ true
    → all is_ascii_digit last ≡ true
    → parse_u64 first ≡ some a
    → parse_u64 last ≡ some b
    → a ≤ b
    → (Serves len (evaluate (some (codes "bytes=" ++ first ++ b'-' ∷ last)) len) i
        ↔ ((a ≤ i) × (i ≤ b) × (i < len)))
      × (Serves len (evaluate (some (codes "bytes=" ++ first ++ b'-' ∷ [])) len) i
          ↔ ((a ≤ i) × (i < len)))
      × (Serves len (evaluate (some (codes "bytes=" ++ [] ++ b'-' ∷ last)) len) i
          ↔ ((i < len) × (len ≤ i + b)))
evaluate-positions first last len a b i f l p q le = (
  rw (evaluate-select first last len f l, select-closed first last len a b p q)
      (when_empty len _ i (λ ne. closed_positions len a b i ne le) (λ x. x.2)),
  rw (evaluate-select first [] len f refl, select-open first len a p)
      (when_empty len _ i (open_positions len a i) (λ x. x.1)),
  rw (evaluate-select [] last len refl l, select-suffix last len b q)
      (when_empty len _ i (suffix_positions len b i) (λ x. x.0)),
)
