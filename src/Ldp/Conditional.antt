-- ===== src/Ldp/Conditional.antt =====
-- src/ldp/conditional.rs: the preconditions of a request that writes, over entity tags.
pub mod Tags
pub mod RoundTrip
pub mod Read
mod Tests
use solid_server_rs.Prelude.{
  ℕ, leb, Bool, true, false, not, ◌&&◌, ◌||◌, Option, none, some, List, [], ◌∷◌, ◌++◌, Str, codes,
  any, all, str_eq, split, split_once, strip_prefix, strip_suffix, is_some, trim, as_bytes,
  if◌then◌else◌, ◌==◌,
}
use solid_server_rs.Error.{Result, ok, err, precondition_failed}

pub data Precondition : Type 0 where
  proceed failed : Precondition

pub record InboundTag : Type 0 where
  pub opaque_part : Str
  pub weak : Bool

unfoldable pub is_wildcard : Str → Bool
is_wildcard header = str_eq (trim header) (codes "*")

abbrev head_or : Option (Str × Str) → Str → Str
head_or none inner = inner
head_or (some (head, _)) inner = head

unfoldable pub state_part : Str → Str
state_part inner = head_or (split_once b'+' inner) inner

abbrev pub is_etagc : ℕ → Bool
is_etagc b = b == 0x21 || leb 0x23 b && leb b 0x7e || leb 0x80 b

-- the end of `parse_entity_tag`, after each `?`
abbrev pub unquoted : Bool → Option Str → Option InboundTag
unquoted weak none = none
unquoted weak (some inner) =
    let tag : InboundTag = record { opaque_part = inner; weak = weak } in
    if all is_etagc (as_bytes inner) then some tag else none

abbrev pub opened : Bool → Option Str → Option InboundTag
opened weak none = none
opened weak (some rest) = unquoted weak (strip_suffix rest (codes "\""))

abbrev pub weakness : Option Str → Str → Option InboundTag
weakness (some rest) t = opened true (strip_prefix rest (codes "\""))
weakness none t = opened false (strip_prefix t (codes "\""))

unfoldable pub parse_entity_tag : Str → Option InboundTag
parse_entity_tag raw = weakness (strip_prefix (trim raw) (codes "W/")) (trim raw)

abbrev strong_part : Option InboundTag → Option Str
strong_part none = none
strong_part (some tag) = if not tag.weak then some tag.opaque_part else none

unfoldable pub parse_current : Str → Option Str
parse_current current_strong = strong_part (parse_entity_tag current_strong)

abbrev same_state : Str → Option Str → Bool
same_state part none = false
same_state part (some cur) = str_eq (state_part part) (state_part cur)

abbrev same_part : Str → Option Str → Bool
same_part part none = false
same_part part (some cur) = str_eq part cur

unfoldable pub matches_strong_state : InboundTag → Str → Bool
matches_strong_state tag current_strong =
    if tag.weak then false else same_state tag.opaque_part (parse_current current_strong)

unfoldable pub matches_weak_state : InboundTag → Str → Bool
matches_weak_state tag current_strong = same_state tag.opaque_part (parse_current current_strong)

unfoldable pub matches_weak : InboundTag → Str → Bool
matches_weak tag current_strong = same_part tag.opaque_part (parse_current current_strong)

abbrev pub cons_tag : Option InboundTag → List InboundTag → List InboundTag
cons_tag none tags = tags
cons_tag (some tag) tags = tag ∷ tags

unfoldable pub filter_tags : List Str → List InboundTag
filter_tags [] = []
filter_tags (s ∷ ss) = cons_tag (parse_entity_tag s) (filter_tags ss)

unfoldable pub tag_list : Str → List InboundTag
unfolding filter_tags
tag_list header = filter_tags (split b',' header)

abbrev pub any_current : (InboundTag → Str → Bool) → Str → Option Str → Bool
any_current matches header none = false
any_current matches header (some cur) = any (λ t. matches t cur) (tag_list header)

abbrev pub matched : (InboundTag → Str → Bool) → Str → Option Str → Bool
matched matches header current =
    if is_wildcard header then is_some current else any_current matches header current

abbrev pub if_match_ok : Option Str → Option Str → Bool
if_match_ok none current = true
if_match_ok (some im) current = matched matches_strong_state im current

abbrev pub if_none_match_hit : Option Str → Option Str → Bool
if_none_match_hit none current = false
if_none_match_hit (some inm) current = matched matches_weak_state inm current

unfoldable pub evaluate : Option Str → Option Str → Option Str → Precondition
evaluate if_match if_none_match current =
    if not (if_match_ok if_match current)
    then failed
    else if if_none_match_hit if_none_match current
    then failed
    else proceed

unfoldable pub require : Precondition → Result {0} (Unit {0})
require proceed = ok tt
require failed = err precondition_failed

abbrev variant_of : Option Str → Str → Str → Str
variant_of none stored variant = stored ++ (b'+' ∷ variant)
variant_of (some head) stored variant = head ++ (b'+' ∷ variant ++ codes "\"")

unfoldable pub variant_etag : Str → Str → Str
variant_etag stored variant = variant_of (strip_suffix stored (codes "\"")) stored variant
