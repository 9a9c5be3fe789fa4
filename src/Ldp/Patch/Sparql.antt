-- ===== src/Ldp/Patch/Sparql.antt =====
-- src/ldp/patch.rs: the data forms of SPARQL Update. The cursor of the source is the text that is left.
-- The parser of Turtle is a library's.
pub mod Total
pub mod Ground
pub mod Order
use mathlib.Core.Option
use solid_server_rs.Prelude.{
  ℕ, suc, zero, Bool, true, false, not, ◌||◌, ◌&&◌, Option, none, some, List, [], ◌∷◌, ◌++◌, Str,
  codes, ◌==◌, is_some, str_eq, strip_prefix, starts_with, split_once, trim, trim_start,
  trim_end_matches, to_ascii_lowercase, until, drop_while, is_whitespace, length, if◌then◌else◌,
  from_utf8_lossy, as_bytes, ltb,
}
use solid_server_rs.Error.{ServerError, Result, ok, err, unprocessable_patch}
use solid_server_rs.Error.Results.{◌>>=◌, ◌>>◌, guard, collect}
use solid_server_rs.Ldp.Patch.Terms.{
  Term, named_node, Triple, PatTerm, term, PatTriple, N3Patch, subject_as_term,
}
use solid_server_rs.Ldp.Patch.N3.{Parser, check_base, item, is_empty}

-- `std::str::from_utf8`: the text whose bytes these are
unfoldable pub from_utf8 : List ℕ → Option Str
unfolding from_utf8_lossy as_bytes
from_utf8 bytes =
    let s = from_utf8_lossy bytes in if str_eq (as_bytes s) bytes then some s else none

-- the text from the `n`-th character on
unfoldable pub skip : ℕ → Str → Str
skip zero s = s
skip (suc n) [] = []
skip (suc n) (c ∷ s) = skip n s

abbrev pub after_separator : Str → Option Str → Str
after_separator s none = s
after_separator s (some rest) = trim_start rest

-- white space, then one optional `;`, and white space after it
unfoldable pub skip_separator : Str → Str
unfolding trim_start strip_prefix
skip_separator s = let t = trim_start s in after_separator t (strip_prefix t (codes ";"))

abbrev pub is_newline : ℕ → Bool
is_newline c = c == 0xa

-- a line of the prologue as a Turtle directive
unfoldable pub directive : Str → Str
unfolding trim trim_end_matches to_ascii_lowercase until drop_while is_whitespace starts_with
directive line =
    if starts_with line (codes "@")
    then trim (trim_end_matches b'.' line) ++ codes " .\n"
    else (codes "@"
        ++ (to_ascii_lowercase (until is_whitespace line)
            ++ (codes " "
                ++ (trim (
                      trim_end_matches b'.'
                        (trim (skip 1 (drop_while (λ c. not (is_whitespace c)) line))))
                    ++ codes " .\n"))))

unfoldable pub is_prologue : Str → Bool
unfolding starts_with
is_prologue lower =
    starts_with lower (codes "prefix")
    || starts_with lower (codes "base")
    || starts_with lower (codes "@prefix")
    || starts_with lower (codes "@base")

-- whether it is a deletion; `none` for an unsupported verb
unfoldable pub verb : Str → Option Bool
unfolding starts_with
verb lower =
    if starts_with lower (codes "insert data")
    then some false
    else if starts_with lower (codes "delete data")
    then some true
    else none

abbrev pub or_unprocessable : Str → Option (Str × Str) → Result (Str × Str)
or_unprocessable message none = err (unprocessable_patch message)
or_unprocessable message (some p) = ok p

abbrev pub brace : ℕ → Str → Str → Result (Str × Str)
brace c message s = or_unprocessable message (split_once c s)

-- the group between the next braces, and the text after it
unfoldable pub group : Str → Result (Str × Str)
unfolding split_once
group s = do
  before ← brace b'{' (codes "SPARQL-Update DATA block missing '{'") s
  brace b'}' (codes "SPARQL-Update DATA block missing '}'") before.1

pub record Update (Literal : Type 0) : Type 0 where
  pub prologue : Str
  pub deletes : List (PatTriple Literal)
  pub inserts : List (PatTriple Literal)
  pub saw_any : Bool

module _ {Literal : Type 0} where
  unfoldable pub concrete : Triple Literal → PatTriple Literal
  unfolding subject_as_term
  concrete t = record {
    subject = term (subject_as_term t.subject);
    predicate = term (named_node t.predicate);
    object = term t.object;
  }

  unfoldable pub parse_to_concrete_triples :
      Parser Str (Triple Literal) → Str → Str → Result (List (PatTriple Literal))
  unfolding check_base collect concrete
  parse_to_concrete_triples parser text base = do
    check_base parser base
    collect (λ i. item (codes "invalid SPARQL-Update DATA triple: ") i >>= λ t. ok (concrete t))
        (parser.items base text)

  abbrev pub extend : Update Literal → Bool → List (PatTriple Literal) → Update Literal
  extend u true triples = record u { deletes = u.deletes ++ triples; saw_any = true }
  extend u false triples = record u { inserts = u.inserts ++ triples; saw_any = true }

  -- one operation, from its verb on
  abbrev pub operation :
      Parser Str (Triple Literal)
      → Str
      → Update Literal
      → Str
      → Option Bool
      → Result (Update Literal × Str)
  operation parser base u s none =
      err (unprocessable_patch (codes "only INSERT DATA / DELETE DATA SPARQL-Update is supported"))
  operation parser base u s (some is_delete) = do
    found ← group (skip 11 s)
    triples ← parse_to_concrete_triples parser (u.prologue ++ found.0) base
    ok (extend u is_delete triples, found.1)

  -- one round of the loop, from the text after the separator on
  unfoldable pub round :
      Parser Str (Triple Literal) → Str → Update Literal → Str → Result (Update Literal × Str)
  unfolding is_prologue verb group parse_to_concrete_triples directive drop_while until skip
      to_ascii_lowercase trim
  round parser base u s =
      let lower = to_ascii_lowercase s in
      if is_prologue lower
      then ok (
        record u { prologue = u.prologue ++ directive (trim (until is_newline s)) },
        drop_while (λ c. not (is_newline c)) s,
      )
      else operation parser base u s (verb lower)

  abbrev pub unless_done :
      Update Literal
      → Str
      → (Str → Option (Result (Update Literal)))
      → Option (Result (Update Literal))
  unless_done u [] next = some (ok u)
  unless_done u (c ∷ s) next = next (c ∷ s)

  abbrev pub unless_refused :
      Result (Update Literal × Str)
      → (Update Literal × Str → Option (Result (Update Literal)))
      → Option (Result (Update Literal))
  unless_refused (err e) next = some (err e)
  unless_refused (ok u) next = next u

  -- The loop, with fuel; `none` means that the fuel ran out.
  unfoldable pub rounds :
      ℕ
      → Parser Str (Triple Literal)
      → Str
      → Update Literal
      → Str
      → Option (Result (Update Literal))
  unfolding skip_separator round
  rounds zero parser base u s = none
  rounds (suc fuel) parser base u s =
      unless_done u (skip_separator s) (λ t.
        unless_refused (round parser base u t) (λ next. rounds fuel parser base next.0 next.1))

  abbrev pub empty_update : Update Literal
  empty_update = record { prologue = []; deletes = []; inserts = []; saw_any = false }

  abbrev pub finish : Result (Update Literal) → Result (N3Patch Literal)
  finish r = do
    u ← r
    guard (u.saw_any && not (is_empty u.inserts && is_empty u.deletes)) (
        unprocessable_patch
          (codes "SPARQL-Update must contain a non-empty INSERT DATA / DELETE DATA"))
    ok (record { conditions = []; deletes = u.deletes; inserts = u.inserts })

  abbrev pub parse_text :
      Parser Str (Triple Literal) → Str → Option Str → Option (Result (N3Patch Literal))
  parse_text parser base none =
      some (err (unprocessable_patch (codes "SPARQL-Update must be UTF-8")))
  parse_text parser base (some text) =
      Option.map finish (rounds (suc (length text)) parser base empty_update text)

  unfoldable pub parse_sparql_update :
      Parser Str (Triple Literal) → List ℕ → Str → Option (Result (N3Patch Literal))
  unfolding rounds from_utf8
  parse_sparql_update parser body base = parse_text parser base (from_utf8 body)
