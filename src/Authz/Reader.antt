-- ===== src/Authz/Reader.antt =====
-- src/authz/wac.rs: reading an ACL document, through the cache of parsed ones if there is one.
-- The store is what the authorizer sees of it while it answers one request: a snapshot of the
-- answers of `meta`, `read` and `read_at` (src/store/mod.rs). The parsers of oxttl and oxjsonld
-- are a parameter. `now_secs` gives the clock's reading at the ACL document that is read. A method
-- takes the ACL cache, if there is one, and returns it beside its result.
pub mod Coherence
use solid_server_rs.Prelude.{ℕ, Option, none, some, List, [], Str}
use solid_server_rs.Error.{ServerError, Result, ok, err, not_found}
use solid_server_rs.Authz.Acl.{Triple}
use solid_server_rs.Cache.Acl as Cached
use solid_server_rs.Cache.Acl.{AclCache}
use solid_server_rs.Ldp.Content.{RdfFormat, turtle, classify}

pub record ResourceMeta : Type 0 where
  pub content_type : Str
  pub blob_key : Str
  pub etag : Str
  pub last_modified : Option ℕ

pub record Resource : Type 0 where
  pub body : List ℕ
  pub meta : ResourceMeta

pub record Store : Type 0 where
  pub read : Str → Result Resource
  pub meta : Str → Result (Option ResourceMeta)
  pub read_at : Str → ResourceMeta → Result (List ℕ)

-- The authorizer's methods: `Option<&AclCache>` goes in, and comes out with the result.
abbrev pub Wac : Type 0 → Type 0
Wac A = Option AclCache → Option AclCache × Result A

abbrev pub pure : {A : Type 0} → A → Wac A
pure a cache = (cache, ok a)

abbrev pub fail : {A : Type 0} → ServerError → Wac A
fail e cache = (cache, err e)

-- `?` on what was run with the cache
abbrev pub and_then :
    {A B : Type 0} → Option AclCache × Result A → (A → Wac B) → Option AclCache × Result B
and_then (cache, ok a) k = k a cache
and_then (cache, err e) k = (cache, err e)

infixl 5 ◌>>=◌
abbrev pub ◌>>=◌ : {A B : Type 0} → Wac A → (A → Wac B) → Wac B
◌>>=◌ m k cache = and_then (m cache) k

-- `Err(NotFound)` is read as an absent document, any other error is passed on
abbrev or_absent : {A : Type 0} → Result A → Result (Option A)
or_absent (ok a) = ok (some a)
or_absent (err not_found) = ok none
or_absent (err e) = err e

abbrev unwrap_format : Result RdfFormat → RdfFormat
unwrap_format (ok f) = f
unwrap_format (err e) = turtle

abbrev unwrap_triples : Result (List Triple) → List Triple
unwrap_triples (ok ts) = ts
unwrap_triples (err e) = []

abbrev map_result : {A B : Type 0} → (A → B) → Result A → Result B
map_result f (ok a) = ok (f a)
map_result f (err e) = err e

unfoldable pub parse_acl_body :
    (RdfFormat → List ℕ → Str → Result (List Triple)) → Resource → Str → List Triple
parse_acl_body parse_to_triples resource acl =
    let format = unwrap_format (classify (some resource.meta.content_type)) in
    unwrap_triples (parse_to_triples format resource.body acl)

module _ (store : Store) (parse_to_triples : RdfFormat → List ℕ → Str → Result (List Triple))
    (now_secs : Str → ℕ) where
  unfoldable pub read_and_parse_acl : Str → Result (Option (List Triple))
  read_and_parse_acl acl =
      or_absent (map_result (λ r. parse_acl_body parse_to_triples r acl) (store.read acl))

  -- the end of a miss: parse what was read, and cache it at its own ETag
  abbrev parse_and_insert :
      Str → AclCache → Result (Option Resource) → Option AclCache × Result (Option (List Triple))
  parse_and_insert acl cache (err e) = (some cache, err e)
  parse_and_insert acl cache (ok none) = (some cache, ok none)
  parse_and_insert acl cache (ok (some resource)) =
      let triples = parse_acl_body parse_to_triples resource acl in
      (some (Cached.store cache acl resource.meta.etag triples (now_secs acl)), ok (some triples))

  -- what follows `cache.get`; a miss fetches the document
  abbrev after_lookup :
      Str
      → AclCache × Option (List Triple)
      → Result (Option Resource)
      → Option AclCache × Result (Option (List Triple))
  after_lookup acl (cache, some triples) fetched = (some cache, ok (some triples))
  after_lookup acl (cache, none) fetched = parse_and_insert acl cache fetched

  abbrev after_meta :
      Str
      → AclCache
      → (ResourceMeta → Result (Option Resource))
      → Result (Option ResourceMeta)
      → Option AclCache × Result (Option (List Triple))
  after_meta acl cache fetch (err e) = (some cache, err e)
  after_meta acl cache fetch (ok none) = (some cache, ok none)
  after_meta acl cache fetch (ok (some meta)) =
      after_lookup acl (Cached.lookup cache acl meta.etag (now_secs acl)) (fetch meta)

  unfoldable pub read_acl : Str → Wac (Option (List Triple))
  unfolding read_and_parse_acl
  read_acl acl none = (none, read_and_parse_acl acl)
  read_acl acl (some cache) =
      after_meta acl cache (λ meta. or_absent (store.read acl)) (store.meta acl)

  unfoldable pub read_acl_confirmed : Str → Wac (Option (List Triple))
  unfolding read_and_parse_acl
  read_acl_confirmed acl none = (none, read_and_parse_acl acl)
  read_acl_confirmed acl (some cache) =
      after_meta acl cache
        (λ meta. or_absent (
          map_result (λ b. let r : Resource = record { body = b; meta = meta } in r)
            (store.read_at acl meta)))
        (store.meta acl)
