-- ===== src/Authz/Reader/Coherence.antt =====
-- src/authz/wac.rs: reading through the cache gives what reading without it gives.
use solid_server_rs.Prelude.{ℕ, ◌≡◌, ◌≢◌, refl, sym, ap, ◌∙◌, Option, none, some, List, Str}
use mathlib.Core.Path.{subst}
use solid_server_rs.Error.{ServerError, Result, ok, err, not_found}
use solid_server_rs.Authz.Acl.{Triple}
use solid_server_rs.Authz.Reader.{
  ResourceMeta, Resource, Store, Wac, pure, fail, and_then, ◌>>=◌, or_absent, map_result,
  parse_acl_body, read_and_parse_acl, read_acl, read_acl_confirmed, after_meta, after_lookup,
}
use solid_server_rs.Cache.Acl as Cached
use solid_server_rs.Cache.Acl.{AclCache}
use solid_server_rs.Cache.Acl.Entries.{Entries, lookup-Entries, lookup-found, store-Entries}
use solid_server_rs.Ldp.Content.{RdfFormat}

-- The store answers as one snapshot: at each IRI it has no resource, or one resource that `read`,
-- `meta` and `read_at` agree on, or it fails with one error that is not "not found".
pub data Answers (store : Store) (iri : Str) : Type 0 where
  absent : store.meta iri ≡ ok none → store.read iri ≡ err not_found → Answers store iri
  present :
      (r : Resource)
      → store.meta iri ≡ ok (some r.meta)
      → store.read iri ≡ ok r
      → store.read_at iri r.meta ≡ ok r.body
      → Answers store iri
  failing :
      (e : ServerError)
      → store.meta iri ≡ err e
      → store.read iri ≡ err e
      → e ≢ not_found
      → Answers store iri

or_absent-err : {A : Type 0} (e : ServerError) → e ≢ not_found → or_absent {A = A} (err e) ≡ err e
or_absent-err not_found h = absurd (h refl)
or_absent-err _ h = refl

abbrev pub IsSnapshot : Store → Type 0
IsSnapshot store = (iri : Str) → Answers store iri

module _ (store : Store) (parse_to_triples : RdfFormat → List ℕ → Str → Result (List Triple)) where
  -- An entry at the ETag of the stored document holds what that document parses to.
  abbrev pub IsCurrent : Str → Str → List Triple → Type 0
  IsCurrent iri etag triples =
      (r : Resource)
      → store.read iri ≡ ok r
      → r.meta.etag ≡ etag
      → triples ≡ parse_acl_body parse_to_triples r iri

  abbrev pub IsCoherent : Option AclCache → Type 0
  IsCoherent none = Unit
  IsCoherent (some cache) = Entries IsCurrent cache.inner

  -- The cache does not show in the result, and stays coherent.
  abbrev pub IsTransparent : {A : Type 0} → Wac A → Type 0
  IsTransparent m =
      ((m none).0 ≡ none)
      × ((cache : Option AclCache)
          → IsCoherent cache
          → IsCoherent (m cache).0 × ((m cache).1 ≡ (m none).1))

  pub pure-IsTransparent : {A : Type 0} (a : A) → IsTransparent (pure a)
  pure-IsTransparent a = (refl, λ cache h. (h, refl))

  pub fail-IsTransparent : {A : Type 0} (e : ServerError) → IsTransparent (fail {A = A} e)
  fail-IsTransparent e = (refl, λ cache h. (h, refl))

  and_then-same :
      {A B : Type 0} (r : Result A) (k : A → Wac B) (cache : Option AclCache)
      → IsCoherent cache
      → ((a : A) → IsTransparent (k a))
      → ((and_then (none, r) k).0 ≡ none)
        × IsCoherent (and_then (cache, r) k).0
        × ((and_then (cache, r) k).1 ≡ (and_then (none, r) k).1)
  and_then-same (ok a) k cache h t =
      let (stays, same) = t a in let (kept, equal) = same cache h in (stays, kept, equal)
  and_then-same (err e) k cache h t = (refl, h, refl)

  pub bind-IsTransparent :
      {A B : Type 0} (m : Wac A) (k : A → Wac B)
      → IsTransparent m
      → ((a : A) → IsTransparent (k a))
      → IsTransparent (m >>= k)
  bind-IsTransparent {A} m k (stays, same) t =
      let bare : m none ≡ (none, (m none).1) = λ i. (stays i, (m none).1) in
      (
        ap (λ p. (and_then p k).0) bare ∙ (and_then-same (m none).1 k none tt t).0,
        λ cache h.
            let (kept, equal) = same cache h in
            let with_cache : m cache ≡ ((m cache).0, (m none).1) = λ i. ((m cache).0, equal i) in
            let (_, kept', equal') = and_then-same (m none).1 k (m cache).0 kept t in
            (
              subst (λ p. IsCoherent (and_then p k).0) (sym with_cache) kept',
              ap (λ p. (and_then p k).1) with_cache
                  ∙ equal'
                  ∙ sym (ap (λ p. (and_then p k).1) bare),
            ),
      )

  module _ (now_secs : Str → ℕ) where
    after_lookup-same :
        (acl : Str) (c : AclCache) (o : Option (List Triple)) (r : Resource)
        → store.read acl ≡ ok r
        → Entries IsCurrent c.inner
        → ((triples : List Triple)
            → o ≡ some triples
            → triples ≡ parse_acl_body parse_to_triples r acl)
        → IsCoherent (after_lookup store parse_to_triples now_secs acl (c, o) (ok (some r))).0
          × ((after_lookup store parse_to_triples now_secs acl (c, o) (ok (some r))).1
              ≡ ok (some (parse_acl_body parse_to_triples r acl)))
    after_lookup-same acl c none r read h hit =
        (store-Entries IsCurrent c acl r.meta.etag _ (now_secs acl) h (λ r' read' same. cc), refl)
    after_lookup-same acl c (some triples) r read h hit =
        (h, ap (λ t. ok (some t)) (hit triples refl))

    after_meta-same :
        (acl : Str) (c : AclCache) (fetch : ResourceMeta → Result (Option Resource))
        → Answers store acl
        → ((r : Resource) → store.read acl ≡ ok r → fetch r.meta ≡ ok (some r))
        → Entries IsCurrent c.inner
        → IsCoherent (after_meta store parse_to_triples now_secs acl c fetch (store.meta acl)).0
          × ((after_meta store parse_to_triples now_secs acl c fetch (store.meta acl)).1
              ≡ read_and_parse_acl store parse_to_triples now_secs acl)
    unfolding read_and_parse_acl
    after_meta-same acl c fetch (absent m r) f h = rw (m, r) (h, refl)
    after_meta-same acl c fetch (failing e m r other) f h =
        rw (m, r) (h, sym (or_absent-err e other))
    after_meta-same acl c fetch (present r m read _) f h =
        let (c', o) = Cached.lookup c acl r.meta.etag (now_secs acl) in
        rw (m, f r read)
          (rw read (
            after_lookup-same acl c' o r read
              (lookup-Entries IsCurrent c acl r.meta.etag (now_secs acl) h)
              (λ triples hit.
                lookup-found IsCurrent c acl r.meta.etag (now_secs acl) triples h hit r read refl)))

    pub read_acl-IsTransparent :
        IsSnapshot store
        → (acl : Str) → IsTransparent (read_acl store parse_to_triples now_secs acl)
    unfolding read_acl
    read_acl-IsTransparent snapshot acl = (refl, go)
      where
        go :
            (cache : Option AclCache)
            → IsCoherent cache
            → IsCoherent (read_acl store parse_to_triples now_secs acl cache).0
              × ((read_acl store parse_to_triples now_secs acl cache).1
                  ≡ (read_acl store parse_to_triples now_secs acl none).1)
        go none h = (tt, refl)
        go (some c) h =
            after_meta-same acl c (λ meta. or_absent (store.read acl)) (snapshot acl)
              (λ r read. ap or_absent read) h

    read_at-same :
        (acl : Str)
        → Answers store acl
        → (r : Resource) → store.read acl ≡ ok r
        → or_absent (
            map_result
              (λ b. let q : Resource = record { body = b; meta = r.meta } in q)
              (store.read_at acl r.meta))
          ≡ ok (some r)
    read_at-same acl (absent m missing) r read = cc
    read_at-same acl (failing e m fails other) r read = cc
    read_at-same acl (present r' m read' at) r read =
        let same : r' ≡ r = cc in
        let at' : store.read_at acl r.meta ≡ ok r.body =
          subst (λ (q : Resource). store.read_at acl q.meta ≡ ok q.body) same at in
        rw at' refl

    pub read_acl_confirmed-IsTransparent :
        IsSnapshot store
        → (acl : Str) → IsTransparent (read_acl_confirmed store parse_to_triples now_secs acl)
    unfolding read_acl_confirmed
    read_acl_confirmed-IsTransparent snapshot acl = (refl, go)
      where
        go :
            (cache : Option AclCache)
            → IsCoherent cache
            → IsCoherent (read_acl_confirmed store parse_to_triples now_secs acl cache).0
              × ((read_acl_confirmed store parse_to_triples now_secs acl cache).1
                  ≡ (read_acl_confirmed store parse_to_triples now_secs acl none).1)
        go none h = (tt, refl)
        go (some c) h = after_meta-same acl c _ (snapshot acl) (read_at-same acl (snapshot acl)) h
