-- ===== src/Auth/TokenCache/History.antt =====
-- src/auth_cache.rs: what a hit stands for, after any calls on a new cache.
use solid_server_rs.Prelude.{
  ℕ, ◌+◌, ◌<◌, max, ◌≡◌, refl, inl, inr, false, Option, none, some, List, Str, arith, Option-cases,
  ℤ, pos, negsuc, is_at_most, min, ◌-◌, ◌^◌,
}
use solid_server_rs.Collections.{get, str_key}
use solid_server_rs.Auth.Proof.{Libraries, ProofPolicy, MarkResult, verify_fresh_proof}
use solid_server_rs.Auth.Proof.Meaning.{Proves, PassesReplay, verify_fresh_proof_iff}
use solid_server_rs.Auth.TokenCache.{
  VerifiedToken, CacheEntry, VerifiedTokenCache, verified, min_ℤ, with_max_entry_ttl,
  entry_deadline, find_in, find, store, decide, authenticate,
}
use solid_server_rs.Auth.TokenCache.Tracking.{Call, run, last_inserted, find-Tracks, run-Tracks}

-- The deadline is the earlier of the two.
before_deadline :
    (inserted ttl now : ℕ) (exp : ℤ)
    → is_at_most (min_ℤ (pos (min (inserted + ttl) (2 ^ 63 - 1))) exp) (pos now) ≡ false
    → (now < inserted + ttl) × (is_at_most exp (pos now) ≡ false)
before_deadline inserted ttl now (pos e) h = ground arith
before_deadline inserted ttl now (negsuc e) h = absurd (cc h)

module _ {Content Replay : Type 0} (lib : Libraries)
    (mark : Str → ℕ → Replay → Replay × MarkResult) where
  verified-injective : (a b : VerifiedToken Content) → verified a ≡ verified b → a ≡ b
  verified-injective a b h = cc

  decide-verified :
      (policy : ProofPolicy) (o : Option (CacheEntry Content)) (dpop_proof : Option Str)
      (key method url : Str) (now : ℕ) (store : Replay) (token : VerifiedToken Content)
      → (decide lib mark policy o dpop_proof key method url now store).1 ≡ verified token
      → (e : CacheEntry Content) × (o ≡ some e)
        × (e.token ≡ token)
        × ((verify_fresh_proof lib mark policy dpop_proof key e.cnf_jkt method url now store).1
            ≡ none)
  decide-verified policy none dpop_proof key method url now store token h = absurd (cc h)
  decide-verified policy (some e) dpop_proof key method url now store token h =
      elim (Option-cases
        (verify_fresh_proof lib mark policy dpop_proof key e.cnf_jkt method url now store).1) [
          | inl passed ↦ let h' = rw passed at h in (e, refl, verified-injective _ _ h', passed)
          | inr (f, refused) ↦ absurd (cc (rw refused at h))
        ]

  -- After any calls on a new cache, a token that is served from it is the one that was last inserted
  -- under the digest of the access token, less than the limit ago and before its expiry, and the proof
  -- that came with this request proves the key that the token is bound to, for this method and this
  -- URL. The replay store answers that the identifier of the proof is new, or that it could not mark it,
  -- and the policy fails open; in the second case nothing is known of an earlier use of the identifier.
  pub authenticate-verified :
      (capacity ttl : ℕ) (policy : ProofPolicy) (calls : List (Call Content)) (access_token : Str)
      (dpop_proof : Option Str) (method url : Str) (now : ℕ) (store : Replay)
      (token : VerifiedToken Content)
      → (authenticate lib mark
          (run lib (with_max_entry_ttl capacity policy ttl) calls)
          access_token
          dpop_proof
          method
          url
          now
          store).2
        ≡ verified token
      → (at : ℕ) × (jkt : Str) × (exp : ℤ) × (jti : Str) × (last_inserted lib
            (λ k. none)
            calls
            (lib.sha256 access_token)
          ≡ some (token, at))
        × (token.cnf_jkt ≡ some jkt)
        × (token.expiry ≡ some exp)
        × (now < at + max ttl 1)
        × (is_at_most exp (pos now) ≡ false)
        × Proves lib policy dpop_proof (lib.sha256 access_token) jkt method url now jti
        × PassesReplay lib policy dpop_proof
            (lib.sha256 access_token)
            jkt
            method
            url
            now
            mark
            store
            jti
  unfolding authenticate find entry_deadline with_max_entry_ttl get
  authenticate-verified capacity ttl policy calls access_token dpop_proof method url now store token
        h =
      let key = lib.sha256 access_token in
      let c : VerifiedTokenCache Content = run lib (with_max_entry_ttl capacity policy ttl) calls in
      let t =
        run-Tracks lib policy (max ttl 1) calls (λ k. none) (with_max_entry_ttl capacity policy ttl)
          (record { agrees = λ k e f. absurd (cc f); same_policy = refl; same_ttl = refl }) in
      let (e, there, same, passed) =
        decide-verified c.policy (find_in c c.inner key now).1 dpop_proof key method url now store
          token h in
      let ((stood, ej, ee), live) =
        (find-Tracks _ policy (max ttl 1) c c.inner key now t t.agrees).1 e there in
      let (in_time, unexpired) =
        before_deadline e.inserted_at c.max_entry_ttl_secs now e.exp live in
      let passed' = rw t.same_policy at passed in
      let (jti, proves, marked) =
        (verify_fresh_proof_iff lib policy dpop_proof key e.cnf_jkt method url now mark store).0.0
          passed' in
      (
        e.inserted_at,
        e.cnf_jkt,
        e.exp,
        jti,
        rw (← same) stood,
        rw (← same) ej,
        rw (← same) ee,
        omega (arith, in_time, t.same_ttl),
        unexpired,
        proves,
        marked,
      )
