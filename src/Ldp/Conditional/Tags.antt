-- ===== src/Ldp/Conditional/Tags.antt =====
-- src/ldp/conditional.rs: what the parser of entity tags makes of a tag that the server minted.
use mathlib.Core.List.{reverse-append, reverse-reverse, append_assoc}
use solid_server_rs.Prelude.{Bool, true, any}
use solid_server_rs.Prelude.{
  ◌≡◌, refl, sym, ap, ◌∙◌, true, false, some, [], ◌∷◌, ◌++◌, Str, codes, all, all-append, reverse,
  str_eq, split_once-append, split_once-none, split-whole, contains_char, contains_char-append,
  strip_prefix, strip_suffix-append, drop_while, is_whitespace, trim, trim_start, trim_end,
  utf8_encode, as_bytes,
}
use solid_server_rs.Ldp.Conditional.{
  InboundTag, state_part, is_etagc, parse_entity_tag, parse_current, tag_list, filter_tags,
  variant_etag, is_wildcard,
}

-- A list of one.
pub or_false : (b : Bool) → any (λ (x : Bool). x) (b ∷ []) ≡ b
or_false true = refl
or_false false = refl

-- A tag in its quotes.
abbrev pub quoted : Str → Str
quoted inner = b'"' ∷ (inner ++ codes "\"")

abbrev pub strong : Str → InboundTag
strong inner = record { opaque_part = inner; weak = false }

abbrev pub IsOpaque : Str → Type 0
IsOpaque inner = (all is_etagc (as_bytes inner) ≡ true) × (contains_char b',' inner ≡ false)

trim-quoted : (inner : Str) → trim (quoted inner) ≡ quoted inner
unfolding trim trim_start trim_end drop_while is_whitespace
trim-quoted inner =
    let e : reverse (quoted inner) ≡ b'"' ∷ reverse (b'"' ∷ inner) =
      reverse-append (b'"' ∷ inner) (codes "\"") in
    let back : reverse (b'"' ∷ reverse (b'"' ∷ inner)) ≡ quoted inner =
      ap reverse (sym e) ∙ reverse-reverse (quoted inner) in
    rw e (ap (drop_while is_whitespace) back)

pub parse_entity_tag-quoted :
    (inner : Str)
    → all is_etagc (as_bytes inner) ≡ true
    → parse_entity_tag (quoted inner) ≡ some (strong inner)
unfolding parse_entity_tag strip_prefix
parse_entity_tag-quoted inner h =
    rw (trim-quoted inner) (rw (strip_suffix-append inner (codes "\"")) (rw h refl))

pub tag_list-quoted : (inner : Str) → IsOpaque inner → tag_list (quoted inner) ≡ strong inner ∷ []
unfolding tag_list filter_tags contains_char
tag_list-quoted inner (h, no_comma) =
    let one : contains_char b',' (quoted inner) ≡ false =
      rw (contains_char-append b',' inner (codes "\""), no_comma) refl in
    rw (split-whole b',' (quoted inner) one) (rw (parse_entity_tag-quoted inner h) refl)

pub is_wildcard-quoted : (inner : Str) → is_wildcard (quoted inner) ≡ false
unfolding is_wildcard str_eq
is_wildcard-quoted inner = rw (trim-quoted inner) refl

pub parse_current-quoted :
    (inner : Str) → all is_etagc (as_bytes inner) ≡ true → parse_current (quoted inner) ≡ some inner
unfolding parse_current
parse_current-quoted inner h = rw (parse_entity_tag-quoted inner h) refl

pub state_part-plain : (inner : Str) → contains_char b'+' inner ≡ false → state_part inner ≡ inner
unfolding state_part
state_part-plain inner h = rw (split_once-none b'+' inner h) refl

pub state_part-variant :
    (inner variant : Str)
    → contains_char b'+' inner ≡ false
    → state_part (inner ++ b'+' ∷ variant) ≡ inner
unfolding state_part
state_part-variant inner variant h = rw (split_once-append b'+' inner variant h) refl

pub variant_etag-quoted :
    (inner variant : Str) → variant_etag (quoted inner) variant ≡ quoted (inner ++ b'+' ∷ variant)
unfolding variant_etag
variant_etag-quoted inner variant =
    rw (strip_suffix-append (b'"' ∷ inner) (codes "\""))
      (ap (λ t. b'"' ∷ t) (sym (append_assoc inner (b'+' ∷ variant) (codes "\""))))

bytes-append : (s t : Str) → as_bytes (s ++ t) ≡ as_bytes s ++ as_bytes t
unfolding as_bytes
bytes-append [] t = refl
bytes-append (c ∷ s) t =
    ap (λ r. utf8_encode c ++ r) (bytes-append s t)
    ∙ sym (append_assoc (utf8_encode c) (as_bytes s) (as_bytes t))

pub variant-IsOpaque :
    (inner variant : Str) → IsOpaque inner → IsOpaque variant → IsOpaque (inner ++ b'+' ∷ variant)
unfolding as_bytes utf8_encode contains_char
variant-IsOpaque inner variant (h, no_comma) (k, none_there) = (
  rw
      (
        bytes-append inner (b'+' ∷ variant),
        all-append is_etagc (as_bytes inner) (b'+' ∷ as_bytes variant),
      )
      (rw (h, k) refl),
  rw (contains_char-append b',' inner (b'+' ∷ variant)) (rw (no_comma, none_there) refl),
)
