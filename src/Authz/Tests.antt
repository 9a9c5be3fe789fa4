-- ===== src/Authz/Tests.antt =====
-- src/authz: runs on a small pod, and the theorems at inputs that meet their hypotheses.
use solid_server_rs.Prelude.{
  ℕ, ◌≡◌, refl, inl, inr, Bool, true, false, ◌||◌, Option, none, some, List, [], ◌∷◌, ◌++◌, Str,
  codes, str_eq, to_ascii_lowercase, if◌then◌else◌, ends_with, strip_suffix, strip_prefix,
  trim_end_matches, byte_len, before_last, contains_char, drop_while, is_some, is_whitespace, lower,
  split, split_once, trim, trim_end, trim_start, utf8_len,
}
use solid_server_rs.Error.{Result, ok, err, not_found}
use solid_server_rs.Authz.Mode.{from_acl_iri, AccessMode, read, ModeSet, contains, is_acl_resource}
use solid_server_rs.Authz.Acl.{
  Subject, Triple, Term, AclScope, default, Requester, rdf_type, foaf_agent, acl_term, modes_for,
  satisfies, matches_agent, matches_origin, granted_modes, authorization_subjects,
  applies_to_resource, named_objects, subject_eq, is_authenticated,
}
use solid_server_rs.Authz.Paths.{
  acl_for, ancestors_loop, ancestors_nearest_first, root_of, protected_resource,
}
use solid_server_rs.Authz.Paths.Ancestors.{container, containers, ancestors-containers}
use solid_server_rs.Authz.Reader.{parse_acl_body, read_acl, read_and_parse_acl, Resource, Store}
use solid_server_rs.Authz.Wac.{
  allow, unauthenticated, authorize, authorize_read, allow_read, read_unauthenticated,
  read_plan_candidates, authorize_planned, authorize_read_planned, resolved_modes_for,
  effective_modes, resolve_effective_acl, resolve_inherited,
}
use solid_server_rs.Ldp.Content.{RdfFormat, classify}
use solid_server_rs.Authz.Reader.Coherence.{IsSnapshot, IsCoherent, IsCurrent, present, absent}
use solid_server_rs.Authz.Acl.Objects.{Says}
use solid_server_rs.Authz.Acl.Rules.{authorization}
use solid_server_rs.Authz.Acl.Engine.{IsGrant, modes_for_iff, modes_for-anonymous}
use solid_server_rs.Authz.Wac.Governing.{scopes, Governs, NoDocument}
use solid_server_rs.Authz.Wac.Authorize.{Permits, authorize_iff}
use solid_server_rs.Authz.Wac.Cached.{Same, authorize-cached}
use solid_server_rs.Authz.Wac.Plan.{Plans}
use solid_server_rs.Cache.Acl.{AclCache, store, with_max_entry_ttl, disabled}
use solid_server_rs.Cache.Acl.Entries.{store-Entries}
use solid_server_rs.Collections.{get}
use solid_server_rs.Prelude.{Bool-cases, ap, ◌∙◌}
use solid_server_rs.Authz.Mode.{no_modes}
use solid_server_rs.Authz.Wac.{effective_permissions}
use solid_server_rs.Authz.Wac.{forbidden, read_forbidden}
use solid_server_rs.Authz.Wac.Decisions.{
  no_acl-refused, authorize_planned-cached, authorize_read-cached, effective_permissions-cached,
}
use solid_server_rs.Authz.WacAllow.{wac_allow_header}
use solid_server_rs.Authz.WacAllow.Parsing.{parse_header, parse_header-wac_allow_header}

abbrev base : Str
base = codes "https://pod.example"

abbrev document : Str
document = codes "https://pod.example/a/data"

-- The ACL of /a/: everybody may read what is in it by default.
abbrev rule : Subject
rule = Subject.named (codes "#pub")

abbrev says : Str → Str → Triple
says p o = record { subject = rule; predicate = p; object = Term.named_node o }

abbrev public_read : List Triple
public_read =
    says rdf_type (acl_term (codes "Authorization"))
    ∷ says (acl_term (codes "agentClass")) foaf_agent
    ∷ says (acl_term (codes "default")) (codes "https://pod.example/a/")
    ∷ says (acl_term (codes "mode")) (codes "http://www.w3.org/ns/auth/acl#Read")
    ∷ []

abbrev stored : Resource
stored = record {
  body = [];
  meta = record {
    content_type = codes "text/turtle";
    blob_key = codes "k";
    etag = codes "e1";
    last_modified = none;
  };
}

abbrev pod : Store
pod =
    let there : Str → Bool = λ iri. str_eq iri (codes "https://pod.example/a/.acl") in
    record {
      read = λ iri. if there iri then ok stored else err not_found;
      meta = λ iri. if there iri then ok (some stored.meta) else ok none;
      read_at = λ iri meta. if there iri then ok stored.body else err not_found;
    }

abbrev parse : RdfFormat → List ℕ → Str → Result (List Triple)
parse format body iri = ok public_read

abbrev clock : Str → ℕ
clock acl = 1000

abbrev read_only : ModeSet
read_only = record { has_read = true; has_write = false; has_append = false; has_control = false }

abbrev nobody : Requester
nobody = record { web_id = none; origin = none }

public_may_read : modes_for public_read (codes "https://pod.example/a/") nobody default ≡ read_only
unfolding modes_for authorization_subjects str_eq acl_term applies_to_resource named_objects
    subject_eq matches_agent matches_origin granted_modes from_acl_iri is_authenticated
public_may_read = refl

may_read_cases :
    contains (modes_for public_read (codes "https://pod.example/a/") nobody default) read ≡ true
may_read_cases = rw public_may_read refl

-- The document has no ACL of its own, that of its container is read.
public_read_runs :
    authorize pod parse clock base document read none none none ≡ (none, ok (allow read_only))
unfolding authorize str_eq acl_for protected_resource is_acl_resource ends_with strip_suffix
    strip_prefix ancestors_nearest_first trim_end_matches byte_len before_last satisfies
    resolved_modes_for modes_for authorization_subjects parse_acl_body acl_term applies_to_resource
    named_objects subject_eq matches_agent matches_origin granted_modes from_acl_iri
    is_authenticated ancestors_loop root_of read_acl read_and_parse_acl effective_modes
    resolve_effective_acl resolve_inherited classify drop_while is_some is_whitespace lower split
    split_once to_ascii_lowercase trim trim_end trim_start utf8_len
public_read_runs = refl

public_read_advertised :
    authorize_read pod parse clock base document read none none none
    ≡ (none, ok (allow_read (record { user = read_only; public = read_only })))
unfolding authorize_read str_eq acl_for protected_resource is_acl_resource ends_with strip_suffix
    strip_prefix ancestors_nearest_first trim_end_matches byte_len before_last satisfies
    resolved_modes_for modes_for authorization_subjects parse_acl_body acl_term applies_to_resource
    named_objects subject_eq matches_agent matches_origin granted_modes from_acl_iri
    is_authenticated ancestors_loop root_of read_acl read_and_parse_acl resolve_effective_acl
    resolve_inherited classify drop_while is_some is_whitespace lower split split_once
    to_ascii_lowercase trim trim_end trim_start utf8_len
public_read_advertised = refl

authorize_iff_example :
    (ts : List Triple) × (g : Str) × (s : AclScope) × Governs pod parse clock
      (scopes base (protected_resource document))
      ts
      g
      s
    × Permits ts g nobody s read
authorize_iff_example =
    (authorize_iff pod parse clock base document read none none).0 (read_only, public_read_runs)

abbrev bare : Store
bare = record {
  read = λ iri. err not_found;
  meta = λ iri. ok none;
  read_at = λ iri meta. err not_found;
}

bare-NoDocument : NoDocument bare parse clock (scopes base (protected_resource document))
unfolding read_and_parse_acl str_eq protected_resource is_acl_resource ends_with strip_suffix
    strip_prefix ancestors_nearest_first ancestors_loop root_of trim_end_matches byte_len
    before_last drop_while utf8_len
bare-NoDocument = (refl, (refl, (refl, tt)))

bare-IsSnapshot : IsSnapshot bare
bare-IsSnapshot iri = absent refl refl

abbrev fresh : Option AclCache
fresh = some (with_max_entry_ttl 4 60)

bare-IsCoherent : IsCoherent bare parse fresh
unfolding with_max_entry_ttl disabled get
bare-IsCoherent = λ k e h. absurd (cc h)

abbrev alice : Str
alice = codes "https://alice.example/#me"

no_acl-refused_example :
    ((authorize bare parse clock base document read none none fresh).1 ≡ ok unauthenticated)
    × ((authorize bare parse clock base document read (some alice) none fresh).1 ≡ ok forbidden)
    × ((authorize_read bare parse clock base document read none none fresh).1
        ≡ ok read_unauthenticated)
    × ((authorize_read bare parse clock base document read (some alice) none fresh).1
        ≡ ok read_forbidden)
no_acl-refused_example =
    no_acl-refused bare parse clock bare-IsSnapshot fresh bare-IsCoherent base document read alice
      none bare-NoDocument

pod-IsSnapshot : IsSnapshot pod
pod-IsSnapshot iri = elim (Bool-cases (str_eq iri (codes "https://pod.example/a/.acl"))) [
  | inl there ↦ present stored (rw there refl) (rw there refl) (rw there refl)
  | inr missing ↦ absent (rw missing refl) (rw missing refl)
]

abbrev plan : List (Str × Option Str)
plan =
    (codes "https://pod.example/a/data.acl", none)
    ∷ (codes "https://pod.example/a/.acl", some (codes "e1"))
    ∷ (codes "https://pod.example/.acl", none)
    ∷ []

abbrev cache : AclCache
cache =
    store (with_max_entry_ttl 4 60) (codes "https://pod.example/a/.acl") (codes "e1") public_read
      990

new-IsCoherent : IsCoherent pod parse (some (with_max_entry_ttl 4 60))
unfolding with_max_entry_ttl disabled get
new-IsCoherent = λ k e h. absurd (cc h)

cache-IsCoherent : IsCoherent pod parse (some cache)
unfolding parse_acl_body
cache-IsCoherent =
    store-Entries (IsCurrent pod parse) (with_max_entry_ttl 4 60)
      (codes "https://pod.example/a/.acl") (codes "e1") public_read 990 new-IsCoherent
      (λ r found tag. refl)

authorize-cached_example :
    Same pod parse clock pod-IsSnapshot
      (some cache)
      cache-IsCoherent
      (authorize pod parse clock base document read none none)
    × Same pod parse clock pod-IsSnapshot
        (some cache)
        cache-IsCoherent
        (authorize_read pod parse clock base document read none none)
    × Same pod parse clock pod-IsSnapshot
        (some cache)
        cache-IsCoherent
        (authorize_planned pod parse clock read none none (read_plan_candidates base document) plan)
    × Same pod parse clock pod-IsSnapshot (some cache) cache-IsCoherent (
        authorize_read_planned pod parse clock read none none
          (read_plan_candidates base document)
          plan)
authorize-cached_example =
    authorize-cached pod parse clock pod-IsSnapshot (some cache) cache-IsCoherent base document read
      none none (read_plan_candidates base document) plan

read_through_cache :
    (authorize_read pod parse clock base document read none none (some cache)).1
    ≡ ok (allow_read (record { user = read_only; public = read_only }))
read_through_cache =
    let same =
      authorize-cached pod parse clock pod-IsSnapshot (some cache) cache-IsCoherent base document
        read none none (read_plan_candidates base document) plan in
    same.1.1 ∙ ap (λ p. p.1) public_read_advertised

authorize_read-cached_example :
    ((authorize pod parse clock base document read none none (some cache)).1 ≡ ok (allow read_only))
    × ((m : AccessMode) → (contains read_only m || contains read_only m) ≡ contains read_only m)
authorize_read-cached_example =
    authorize_read-cached pod parse clock pod-IsSnapshot (some cache) cache-IsCoherent base document
      read none none (record { user = read_only; public = read_only }) read_through_cache

modes_for_iff_example :
    (rule : Subject) × Says public_read rule rdf_type authorization
    × IsGrant public_read (codes "https://pod.example/a/") nobody default rule read
modes_for_iff_example =
    (modes_for_iff public_read (codes "https://pod.example/a/") nobody default read).0
      may_read_cases

modes_for-anonymous_example :
    contains
      (modes_for public_read
        (codes "https://pod.example/a/")
        (record { web_id = some alice; origin = none })
        default)
      read
    ≡ true
modes_for-anonymous_example =
    modes_for-anonymous public_read (codes "https://pod.example/a/") default (some alice) none read
      may_read_cases

plan-Plans : Plans pod parse clock (read_plan_candidates base document) plan
unfolding read_plan_candidates read_and_parse_acl acl_for str_eq protected_resource is_acl_resource
    ends_with strip_suffix strip_prefix ancestors_nearest_first ancestors_loop root_of
    trim_end_matches byte_len before_last drop_while utf8_len
plan-Plans = (refl, λ h. refl, (refl, λ h. absurd (cc h), (refl, λ h. refl, tt)))

authorize_planned-cached_example :
    ((authorize_planned pod parse clock read none none
        (read_plan_candidates base document)
        plan
        (some cache)).1
      ≡ (authorize pod parse clock base document read none none (some cache)).1)
    × ((authorize_read_planned pod parse clock read none none
          (read_plan_candidates base document)
          plan
          (some cache)).1
        ≡ (authorize_read pod parse clock base document read none none (some cache)).1)
authorize_planned-cached_example =
    authorize_planned-cached pod parse clock pod-IsSnapshot (some cache) cache-IsCoherent base
      document read none none plan plan-Plans

ancestors-containers_example :
    (ancestors_nearest_first base (container (root_of base) (codes "a" ∷ []) ++ codes "data")
      ≡ containers (root_of base) (codes "a" ∷ []))
    × (ancestors_nearest_first base (container (root_of base) (codes "data" ∷ codes "a" ∷ []))
        ≡ containers (root_of base) (codes "a" ∷ []))
    × (ancestors_nearest_first base (root_of base) ≡ [])
unfolding contains_char
ancestors-containers_example =
    ancestors-containers base (codes "a" ∷ []) (codes "data") ((λ h. cc h, refl), tt)
      (λ h. cc h, refl)

effective_permissions-cached_example :
    ((effective_permissions pod parse clock base document none none none (some cache)).1
      ≡ ok (record { user = read_only; public = read_only }))
    × ((effective_permissions pod parse clock base document none none
          (some read_only)
          (some cache)).1
        ≡ ok (record { user = read_only; public = read_only }))
effective_permissions-cached_example =
    effective_permissions-cached pod parse clock pod-IsSnapshot (some cache) cache-IsCoherent base
      document read none none (record { user = read_only; public = read_only }) read_through_cache

parse_header-wac_allow_header_example :
    parse_header (wac_allow_header (record { user = read_only; public = no_modes }))
    ≡ some (record { user = read_only; public = no_modes })
parse_header-wac_allow_header_example =
    parse_header-wac_allow_header (record { user = read_only; public = no_modes })
