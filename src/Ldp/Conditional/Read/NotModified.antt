-- ===== src/Ldp/Conditional/Read/NotModified.antt =====
-- src/ldp/conditional.rs: a client is told that nothing changed only about what it holds.
use solid_server_rs.Prelude.{
  ◌≡◌, ◌↔◌, refl, inl, inr, true, Option, some, Str, all, str_eq, str_eq_iff, as_bytes, ℤ,
  Bool-cases,
}
use solid_server_rs.Ldp.Conditional.{is_etagc, matches_weak}
use solid_server_rs.Ldp.Conditional.Tags.{
  or_false, quoted, IsOpaque, tag_list-quoted, is_wildcard-quoted, parse_current-quoted,
}
use solid_server_rs.Ldp.Conditional.Read.{not_modified, evaluate_read, none_match_hit}

hit-quoted :
    (part cur : Str)
    → IsOpaque part
    → all is_etagc (as_bytes cur) ≡ true
    → none_match_hit (quoted part) (quoted cur) ≡ str_eq part cur
unfolding matches_weak
hit-quoted part cur o h =
    rw (is_wildcard-quoted part)
      (rw (tag_list-quoted part o) (rw (parse_current-quoted cur h) (or_false _)))

-- Asked with a tag, the server answers that the representation is not modified exactly where the tag is
-- the one of the representation that it would send, its variant included; any date that is sent with
-- the tag, and the time of the last change, have no say.
pub evaluate_read-not_modified :
    (part cur : Str) (if_modified_since : Option Str) (last_modified : Option ℤ)
    → IsOpaque part
    → all is_etagc (as_bytes cur) ≡ true
    → (evaluate_read (some (quoted part)) if_modified_since (quoted cur) last_modified
        ≡ not_modified)
      ↔ (part ≡ cur)
unfolding evaluate_read
evaluate_read-not_modified part cur if_modified_since last_modified o h =
    rw (hit-quoted part cur o h) (
      λ e. elim (Bool-cases (str_eq part cur)) [
        | inl same ↦ (str_eq_iff part cur).0 same
        | inr other ↦ absurd (cc (rw other at e))
      ],
      λ same. rw ((str_eq_iff part cur).1 same) refl,
    )
