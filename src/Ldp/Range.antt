-- ===== src/Ldp/Range.antt =====
-- src/ldp/range.rs: the byte interval that a `Range` header asks for.
pub mod Positions
use solid_server_rs.Prelude.{
  ℕ, ◌-◌, min, ltb, Bool, Option, none, some, [], ◌∷◌, Str, codes, strip_prefix, contains_char,
  split_once, trim, parse_u64, if◌then◌else◌, ◌==◌,
}

pub data RangeOutcome : Type 0 where
  full unsatisfiable : RangeOutcome
  satisfied : ℕ → ℕ → RangeOutcome

unfoldable pub interval : RangeOutcome → Option (ℕ × ℕ)
interval (satisfied start end) = some (start, end)
interval _ = none

-- The four cases of the final `match`, of the parsed numbers, for a length that is not 0.
module _ (len : ℕ) where
  unfoldable pub suffix_range : Option ℕ → RangeOutcome
  suffix_range none = full
  suffix_range (some n) = if n == 0 then unsatisfiable else satisfied (len - n) (len - 1)

  unfoldable pub open_range : Option ℕ → RangeOutcome
  open_range none = full
  open_range (some start) = if ltb (len - 1) start then unsatisfiable else satisfied start (len - 1)

  unfoldable pub closed_range : Option ℕ → Option ℕ → RangeOutcome
  closed_range none end_req = full
  closed_range (some start) none = full
  closed_range (some start) (some end_req) =
      if ltb end_req start
      then full
      else if ltb (len - 1) start
      then unsatisfiable
      else satisfied start (min end_req (len - 1))

  unfoldable pub select : Str → Str → RangeOutcome
  unfolding suffix_range open_range closed_range
  select [] [] = full
  select [] (d ∷ last) = suffix_range (parse_u64 (d ∷ last))
  select (c ∷ first) [] = open_range (parse_u64 (c ∷ first))
  select (c ∷ first) (d ∷ last) = closed_range (parse_u64 (c ∷ first)) (parse_u64 (d ∷ last))

  abbrev select_parts : Option (Str × Str) → RangeOutcome
  select_parts none = full
  select_parts (some (first, last)) =
      let f = trim first in let l = trim last in if len == 0 then unsatisfiable else select f l

  abbrev select_specs : Option Str → RangeOutcome
  select_specs none = full
  select_specs (some s) =
      let specs = trim s in
      if contains_char b',' specs then full else select_parts (split_once b'-' (trim specs))

unfoldable pub evaluate : Option Str → ℕ → RangeOutcome
unfolding select
evaluate none len = full
evaluate (some range) len = select_specs len (strip_prefix (trim range) (codes "bytes="))
