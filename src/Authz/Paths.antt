-- ===== src/Authz/Paths.antt =====
-- src/authz/wac.rs: the resource that a target stands for, its ACL document and its ancestors.
pub mod Ancestors
use solid_server_rs.Prelude.{
  ℕ, zero, suc, ltb, Bool, true, false, Option, none, some, List, [], ◌∷◌, ◌++◌, Str, codes, str_eq,
  strip_suffix, before_last, byte_len, trim_end_matches, length, if◌then◌else◌,
}
use solid_server_rs.Authz.Mode.{acl_suffix, is_acl_resource}

-- `target[..target.len() - ACL_SUFFIX.len()]`, which is reached only if the suffix is there
abbrev without_suffix : Option Str → Str → Str
without_suffix none target = target
without_suffix (some s) target = s

unfoldable pub protected_resource : Str → Str
protected_resource target =
    if is_acl_resource target
    then without_suffix (strip_suffix target acl_suffix) target
    else target

unfoldable pub acl_for : Str → Str
acl_for resource = resource ++ acl_suffix

-- the loop of `ancestors_nearest_first`: each round cuts `current` at its last slash
unfoldable pub ancestors_loop : ℕ → Str → Str → List Str
ancestors_loop zero root current = []
ancestors_loop (suc fuel) root current =
    let next = ancestors_loop fuel root in
    if ltb (byte_len root) (byte_len current)
    then elim (before_last b'/' current) [ none ↦ [] | some p ↦ (p ++ codes "/") ∷ next p ]
    else []

abbrev last_is : List Str → Str → Bool
last_is [] root = false
last_is (a ∷ []) root = str_eq a root
last_is (a ∷ b ∷ l) root = last_is (b ∷ l) root

unfoldable pub root_of : Str → Str
root_of base_url = trim_end_matches b'/' base_url ++ codes "/"

-- The length of the text is more rounds than the loop can take.
unfoldable pub ancestors_nearest_first : Str → Str → List Str
unfolding ancestors_loop root_of
ancestors_nearest_first base_url resource =
    let root = root_of base_url in
    let current = without_suffix (strip_suffix resource (codes "/")) resource in
    let ancestors = ancestors_loop (length resource) root current in
    if str_eq resource root
    then []
    else if last_is ancestors root
    then ancestors
    else ancestors ++ root ∷ []
