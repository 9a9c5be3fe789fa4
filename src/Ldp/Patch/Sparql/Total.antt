-- ===== src/Ldp/Patch/Sparql/Total.antt =====
-- src/ldp/patch.rs: each round of the loop over a SPARQL Update takes some of the text.
use solid_server_rs.Prelude.{
  ℕ, suc, zero, ◌≡◌, refl, ap, inl, inr, ◌≤◌, ◌<◌, Bool, true, false, not, Option, none, some, List,
  [], ◌∷◌, Str, codes, ◌==◌, strip_prefix, split_once, trim_start, to_ascii_lowercase, lower,
  drop_while, is_whitespace, length, starts_with, is_some, Bool-cases, Option-cases, arith, ◌++◌,
  ==_iff,
}
use solid_server_rs.Error.{Result, ok, err}
use solid_server_rs.Error.Results.{>>=-eq-ok, ok-injective}
use solid_server_rs.Ldp.Patch.Terms.{Triple, N3Patch}
use solid_server_rs.Ldp.Patch.N3.{Parser}
use solid_server_rs.Ldp.Patch.Sparql.{
  skip, skip_separator, after_separator, is_prologue, is_newline, verb, brace, group, Update,
  operation, unless_done, unless_refused, parse_to_concrete_triples, round, rounds,
  parse_sparql_update, parse_text, from_utf8, empty_update, finish,
}

length-drop_while : (p : ℕ → Bool) (s : Str) → length (drop_while p s) ≤ length s
unfolding drop_while
length-drop_while p [] = omega arith
length-drop_while p (c ∷ s) = ground (arith, length-drop_while p s)

length-skip : (n : ℕ) (s : Str) → length (skip n s) ≤ length s
unfolding skip
length-skip zero s = omega arith
length-skip (suc n) [] = omega arith
length-skip (suc n) (c ∷ s) = omega (arith, length-skip n s)

length-strip_prefix : (s p r : Str) → strip_prefix s p ≡ some r → length r ≤ length s
unfolding strip_prefix
length-strip_prefix s [] r h = ground arith
length-strip_prefix [] (p ∷ ps) r h = absurd (cc h)
length-strip_prefix (c ∷ s) (p ∷ ps) r h = ground (arith, length-strip_prefix s ps r)

length-split_once : (c : ℕ) (s a b : Str) → split_once c s ≡ some (a, b) → length b < length s
unfolding split_once
length-split_once c [] a b h = absurd (cc h)
length-split_once c (x ∷ s) a b h = elim (Bool-cases (x == c)) [
  | inl y ↦ let h' = rw y at h in ground arith
  | inr n ↦ elim (Option-cases (split_once c s)) [
    | inl e ↦ absurd (cc (rw e at (rw n at h)))
    | inr ((a', b'), e) ↦
        let h' = rw e at (rw n at h) in ground (arith, length-split_once c s a' b' e)
  ]
]

length-skip_separator : (s : Str) → length (skip_separator s) ≤ length s
unfolding skip_separator trim_start
length-skip_separator s =
    let t = trim_start s in
    let le : length t ≤ length s = length-drop_while is_whitespace s in
    elim (Option-cases (strip_prefix t (codes ";"))) [
      | inl e ↦ rw (e, after_separator) le
      | inr (r, e) ↦
          rw (e, after_separator)
            (omega
              (arith, length-strip_prefix t (codes ";") r e, length-drop_while is_whitespace r))
    ]

-- A line of the prologue does not start with its end.
is_prologue-newline :
    (c : ℕ) (s : Str) → is_newline c ≡ true → is_prologue (to_ascii_lowercase (c ∷ s)) ≡ false
unfolding is_prologue starts_with strip_prefix is_some to_ascii_lowercase lower
is_prologue-newline c s h = let e : c ≡ 0xa = (==_iff c 0xa).0 h in rw e refl

brace-shorter :
    (c : ℕ) (message s : Str) (p : Str × Str) → brace c message s ≡ ok p → length p.1 < length s
brace-shorter c message s p h = elim (Option-cases (split_once c s)) [
  | inl e ↦ absurd (cc (rw (e, brace) at h))
  | inr ((a, b), e) ↦
      let same : (a, b) ≡ p = ok-injective (a, b) p (rw (e, brace) at h) in
      rw (← same) (length-split_once c s a b e)
]

group-shorter : (s : Str) (p : Str × Str) → group s ≡ ok p → length p.1 < length s
unfolding group
group-shorter s p h =
    let (before, e, h1) = >>=-eq-ok (brace b'{' _ s) _ h in
    omega (arith, brace-shorter b'{' _ s before e, brace-shorter b'}' _ before.1 p h1)

module _ {Literal : Type 0} where
  abbrev Ends : Option (Result (Update Literal)) → Type 0
  Ends o = (r : Result (Update Literal)) × (o ≡ some r)

  unless_done-total :
      (u : Update Literal) (t : Str) (next : Str → Option (Result (Update Literal)))
      → ((c : ℕ) (t' : Str) → t ≡ c ∷ t' → Ends (next (c ∷ t')))
      → Ends (unless_done u t next)
  unless_done-total u [] next h = (ok u, refl)
  unless_done-total u (c ∷ t) next h = h c t refl

  unless_refused-total :
      (r : Result (Update Literal × Str))
      (next : Update Literal × Str → Option (Result (Update Literal)))
      → ((u : Update Literal × Str) → r ≡ ok u → Ends (next u))
      → Ends (unless_refused r next)
  unless_refused-total (err e) next h = (err e, refl)
  unless_refused-total (ok u) next h = h u refl

module _ {Literal : Type 0} (parser : Parser Str (Triple Literal)) (base : Str) where
  operation-shorter :
      (u : Update Literal) (s : Str) (v : Option Bool) (next : Update Literal × Str)
      → operation parser base u s v ≡ ok next
      → length next.1 < length s
  operation-shorter u s none next h = absurd (cc h)
  operation-shorter u s (some d) next h =
      let (found, e, h1) = >>=-eq-ok (group (skip 11 s)) _ h in
      let (triples, _, h2) =
        >>=-eq-ok (parse_to_concrete_triples parser (u.prologue ++ found.0) base) _ h1 in
      let there = ok-injective _ next h2 in
      rw (← there) (omega (arith, group-shorter (skip 11 s) found e, length-skip 11 s))

  round-shorter :
      (u : Update Literal) (c : ℕ) (s : Str) (next : Update Literal × Str)
      → round parser base u (c ∷ s) ≡ ok next
      → length next.1 < length (c ∷ s)
  unfolding round drop_while
  round-shorter u c s next h = elim (Bool-cases (is_prologue (to_ascii_lowercase (c ∷ s)))) [
    | inr n ↦ operation-shorter u (c ∷ s) (verb (to_ascii_lowercase (c ∷ s))) next (rw n at h)
    | inl y ↦ elim (Bool-cases (is_newline c)) [
      | inl nl ↦ absurd (cc (is_prologue-newline c s nl, y))
      | inr n ↦
          let there = ok-injective _ next (rw y at h) in
          rw (← there) (rw n (omega (arith, length-drop_while (λ c. not (is_newline c)) s)))
    ]
  ]

  -- The loop ends if its fuel is above the length of the text.
  rounds-total :
      (fuel : ℕ) (u : Update Literal) (s : Str)
      → length s < fuel
      → (r : Result (Update Literal)) × (rounds fuel parser base u s ≡ some r)
  unfolding rounds
  rounds-total zero u s h = absurd (omega arith)
  rounds-total (suc fuel) u s h = unless_done-total u (skip_separator s) _ (λ c t e.
      unless_refused-total (round parser base u (c ∷ t)) _ (λ next done.
        let le : suc (length t) ≤ length s =
          rw (ap (λ (t : Str). length t) e) at (length-skip_separator s) in
        rounds-total fuel next.0 next.1 (omega (arith, round-shorter u c t next done, le, h))))

  parse_text-total :
      (text : Option Str) → (r : Result (N3Patch Literal)) × (parse_text parser base text ≡ some r)
  parse_text-total none = (_, refl)
  parse_text-total (some text) =
      let (r, e) = rounds-total (suc (length text)) empty_update text (omega arith) in
      (finish r, rw e refl)

  -- The parse of every body ends: its loop never runs longer than the text.
  pub parse_sparql_update-total :
      (body : List ℕ)
      → (r : Result (N3Patch Literal)) × (parse_sparql_update parser body base ≡ some r)
  unfolding parse_sparql_update
  parse_sparql_update-total body = parse_text-total (from_utf8 body)
