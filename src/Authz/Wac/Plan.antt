-- ===== src/Authz/Wac/Plan.antt =====
-- src/authz/wac.rs: the one-round plan of ACL lookups decides as the step-by-step search does.
use solid_server_rs.Prelude.{
  ℕ, suc, ◌≡◌, refl, ap, ◌∙◌, Option, none, some, List, [], ◌∷◌, Str, map, length, ◌==◌, ==_iff,
  str_eq_self, arith, if◌then◌else◌,
}
use solid_server_rs.Error.{Result, ok, err}
use solid_server_rs.Authz.Mode.{AccessMode}
use solid_server_rs.Authz.Acl.{Triple, AclScope, access_to, default}
use solid_server_rs.Authz.Paths.{acl_for, ancestors_nearest_first, protected_resource}
use solid_server_rs.Authz.Reader.{
  Store, Wac, pure, and_then, read_and_parse_acl, read_acl, read_acl_confirmed,
}
use solid_server_rs.Authz.Wac.{
  ResolvedAcl, nothing, AclCandidate, read_plan_candidates, resolve_inherited,
  resolve_effective_acl, authorize, authorize_read, resolved_modes_for, resolve_planned,
  resolve_effective_acl_planned, authorize_planned, authorize_read_planned, decide, decide_read,
}
use solid_server_rs.Authz.Wac.Governing.{Outcome, round, decision_on}
use solid_server_rs.Ldp.Content.{RdfFormat}

scope-suc : (n : ℕ) → (if suc n == 0 then access_to else default) ≡ default
scope-suc n = ground arith

same_round :
    (r : Result (Option (List Triple))) (a : Str) (sc : AclScope) (l l' : Wac ResolvedAcl)
    → l none ≡ l' none
    → and_then (none, r) (round a sc l) ≡ and_then (none, r) (round a sc l')
same_round (err e) a sc l l' h = refl
same_round (ok none) a sc l l' h = h
same_round (ok (some triples)) a sc l l' h = refl

module _ (store : Store) (parse_to_triples : RdfFormat → List ℕ → Str → Result (List Triple))
    (now_secs : Str → ℕ) where
  -- The plan lists the candidates' documents in their order, and no document that it reports as
  -- absent is there.
  abbrev pub Plans : List AclCandidate → List (Str × Option Str) → Type 0
  Plans [] [] = Unit
  Plans [] (_ ∷ _) = ⊥
  Plans (_ ∷ _) [] = ⊥
  Plans (c ∷ candidates) ((iri, etag) ∷ plan) =
      (c.acl ≡ iri)
      × (etag ≡ none → read_and_parse_acl store parse_to_triples now_secs c.acl ≡ ok none)
      × Plans candidates plan

  abbrev candidate : Str → AclCandidate
  candidate governed = record { acl = acl_for governed; governed = governed }

  length-Plans :
      (candidates : List AclCandidate) (plan : List (Str × Option Str))
      → Plans candidates plan
      → length candidates ≡ length plan
  length-Plans [] [] h = refl
  length-Plans [] (_ ∷ _) h = absurd h
  length-Plans (_ ∷ _) [] h = absurd h
  length-Plans (c ∷ candidates) (_ ∷ plan) (_, _, h) = ap suc (length-Plans candidates plan h)

  nothing_planned :
      (idx : ℕ) (plan : List (Str × Option Str))
      → resolve_planned store parse_to_triples now_secs idx [] plan none ≡ (none, ok nothing)
  unfolding resolve_planned
  nothing_planned idx plan = refl

  abbrev plan_from : ℕ → List AclCandidate → List (Str × Option Str) → Wac ResolvedAcl
  plan_from = resolve_planned store parse_to_triples now_secs

  -- One round of the planned search: an absent document is passed over, any other is read.
  planned-step :
      (idx : ℕ) (c : AclCandidate) (cs : List AclCandidate) (iri : Str) (etag : Option Str)
      (plan : List (Str × Option Str))
      → Plans (c ∷ cs) ((iri, etag) ∷ plan)
      → plan_from idx (c ∷ cs) ((iri, etag) ∷ plan) none
        ≡ and_then
            (none, read_and_parse_acl store parse_to_triples now_secs c.acl)
            (round c.governed
              (if idx == 0 then access_to else default)
              (plan_from (suc idx) cs plan))
  unfolding resolve_planned read_acl_confirmed
  planned-step idx c cs iri none plan (same, absent, h) =
      rw (← same, str_eq_self c.acl) (rw (absent refl) refl)
  planned-step idx c cs iri (some etag) plan (same, absent, h) = rw (← same, str_eq_self c.acl) refl

  inherited-planned :
      (n : ℕ) (ancestors : List Str) (plan : List (Str × Option Str))
      → Plans (map candidate ancestors) plan
      → plan_from (suc n) (map candidate ancestors) plan none
        ≡ resolve_inherited store parse_to_triples now_secs ancestors none
  unfolding resolve_inherited read_acl
  inherited-planned n [] plan h = nothing_planned (suc n) plan
  inherited-planned n (a ∷ ancestors) [] h = absurd h
  inherited-planned n (a ∷ ancestors) ((iri, etag) ∷ plan) h =
      planned-step (suc n) (candidate a) (map candidate ancestors) iri etag plan h
      ∙ ap
          (λ sc.
            and_then (none, read_and_parse_acl store parse_to_triples now_secs (acl_for a))
              (round a sc (plan_from (suc (suc n)) (map candidate ancestors) plan)))
          (scope-suc n)
      ∙ same_round (read_and_parse_acl store parse_to_triples now_secs (acl_for a)) a default
          (plan_from (suc (suc n)) (map candidate ancestors) plan)
          (resolve_inherited store parse_to_triples now_secs ancestors)
          (inherited-planned (suc n) ancestors plan h.2)

  planned-candidates :
      (base_url resource : Str) (plan : List (Str × Option Str))
      → Plans (candidate resource ∷ map candidate (ancestors_nearest_first base_url resource)) plan
      → plan_from 0
          (candidate resource ∷ map candidate (ancestors_nearest_first base_url resource))
          plan
          none
        ≡ resolve_effective_acl store parse_to_triples now_secs base_url resource none
  unfolding resolve_effective_acl read_acl
  planned-candidates base_url resource [] h = absurd h
  planned-candidates base_url resource ((iri, etag) ∷ plan) h =
      let up = ancestors_nearest_first base_url resource in
      planned-step 0 (candidate resource) (map candidate up) iri etag plan h
      ∙ same_round (read_and_parse_acl store parse_to_triples now_secs (acl_for resource)) resource
          access_to (plan_from 1 (map candidate up) plan)
          (resolve_inherited store parse_to_triples now_secs up) (inherited-planned 0 up plan h.2)

  resolve-planned :
      (base_url target : Str) (plan : List (Str × Option Str))
      → Plans (read_plan_candidates base_url target) plan
      → resolve_effective_acl_planned store parse_to_triples now_secs
          (read_plan_candidates base_url target)
          plan
          none
        ≡ resolve_effective_acl store parse_to_triples now_secs base_url
            (protected_resource target)
            none
  unfolding resolve_effective_acl_planned read_plan_candidates
  resolve-planned base_url target plan h =
      let same = (==_iff _ _).1 (length-Plans (read_plan_candidates base_url target) plan h) in
      rw same (planned-candidates base_url (protected_resource target) plan h)

  after_resolution :
      (required : AccessMode) (web_id origin : Option Str) (o : Outcome)
      → and_then o (λ r. pure (
          decide
            (resolved_modes_for r (record { web_id = web_id; origin = origin }))
            required
            web_id))
        ≡ decision_on store parse_to_triples now_secs required web_id origin o
  after_resolution required web_id origin (c, ok r) = refl
  after_resolution required web_id origin (c, err e) = refl

  -- Without the cache, with a plan that is true to the store, the planned methods answer as the step-by-step ones.
  pub authorize_planned-authorize :
      (base_url target : Str) (required : AccessMode) (web_id origin : Option Str)
      (plan : List (Str × Option Str))
      → Plans (read_plan_candidates base_url target) plan
      → (authorize_planned store parse_to_triples now_secs required web_id origin
            (read_plan_candidates base_url target)
            plan
            none
          ≡ authorize store parse_to_triples now_secs base_url target required web_id origin none)
        × (authorize_read_planned store parse_to_triples now_secs required web_id origin
              (read_plan_candidates base_url target)
              plan
              none
            ≡ authorize_read store parse_to_triples now_secs base_url target required web_id origin
                none)
  unfolding authorize authorize_read authorize_planned authorize_read_planned
  authorize_planned-authorize base_url target required web_id origin plan h =
      let e = resolve-planned base_url target plan h in
      (
        ap
              (λ o. and_then o (λ r. pure (
                decide (resolved_modes_for r (record { web_id = web_id; origin = origin })) required
                  web_id)))
              e
            ∙ after_resolution required web_id origin (
                resolve_effective_acl store parse_to_triples now_secs base_url
                  (protected_resource target) none),
        ap (λ o. and_then o (λ r. pure (decide_read r required web_id origin))) e,
      )
