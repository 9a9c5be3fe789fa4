-- ===== src/Auth/TokenCache/Tests.antt =====
-- src/auth_cache.rs at a concrete request, and the theorems there.
use solid_server_rs.Prelude.{
  ℕ, ◌+◌, ◌<◌, max, ◌≡◌, refl, ◌⊎◌, inr, ◌↔◌, true, false, none, some, List, [], ◌∷◌, Str, codes,
  str_eq, any, if◌then◌else◌, eq_ignore_ascii_case, to_ascii_lowercase, lower, ℤ, pos, is_at_most,
}
use solid_server_rs.Collections.{get, remove, insert, contains_key, evict_one}
use solid_server_rs.Auth.Proof.{
  Claims, Libraries, ProofPolicy, MarkResult, fresh, replay, failed, check_proof, require, present,
  verified, check_ath, normalize_htu, checked_age, replay_ttl, verify_fresh_proof,
  invalid_token_dpop,
}
use solid_server_rs.Auth.Proof.Meaning.{Proves, PassesReplay, verify_fresh_proof_iff}
use solid_server_rs.Auth.TokenCache
use solid_server_rs.Auth.TokenCache.{
  VerifiedToken, VerifiedTokenCache, reject, miss, with_max_entry_ttl, entry_deadline, find, store,
  authenticate,
}
use solid_server_rs.Auth.TokenCache.Tracking.{Call, find_call, insert_call, run, last_inserted}
use solid_server_rs.Auth.TokenCache.History.{authenticate-verified}

abbrev url : Str
url = codes "https://pod.example/a"

abbrev token : VerifiedToken Str
token = record {
  cnf_jkt = some (codes "thumb");
  expiry = some (pos 1000);
  content = codes "https://pod.example/alice#me";
}

abbrev claims : Claims
claims = record {
  htm = some (codes "GET");
  htu = some url;
  jti = some (codes "1");
  iat = some (pos 105);
  ath = some (codes "access");
}

-- a digest is the token itself, and every proof is one of this key with these claims
abbrev libraries : Libraries
libraries = record {
  sha256 = λ s. s;
  base64url = λ s. s;
  verify_proof = λ s. inr (claims, inr (codes "thumb"));
  proof_has_ath = λ s. true;
  url_without_query = λ s. some s;
}

abbrev mark : Str → ℕ → List Str → List Str × MarkResult
mark jti ttl marked = if any (str_eq jti) marked then (marked, replay) else (jti ∷ marked, fresh)

abbrev policy : ProofPolicy
policy = record { clock_tolerance_secs = 5; allow_missing_ath = false; replay_fail_closed = true }

abbrev calls : List (Call Str)
calls = insert_call (codes "access") token 100 ∷ find_call (codes "access") 101 ∷ []

abbrev cache : VerifiedTokenCache Str
cache = run libraries (with_max_entry_ttl 2 policy 300) calls

is_served :
    (authenticate libraries mark cache
      (codes "access")
      (some (codes "proof"))
      (codes "get")
      url
      110
      []).2
    ≡ TokenCache.verified token
unfolding authenticate run find store with_max_entry_ttl entry_deadline get insert remove
    contains_key evict_one str_eq verify_fresh_proof check_proof require present verified check_ath
    normalize_htu checked_age replay_ttl eq_ignore_ascii_case to_ascii_lowercase lower
is_served = refl

-- Where the policy fails open and the replay store is down, a used identifier is accepted.
fails_open :
    (authenticate libraries {Replay = List Str}
      (λ jti ttl marked. (marked, failed))
      (run libraries
        (with_max_entry_ttl 2 (record policy { replay_fail_closed = false }) 300)
        calls)
      (codes "access")
      (some (codes "proof"))
      (codes "get")
      url
      110
      (codes "1" ∷ [])).2
    ≡ TokenCache.verified token
unfolding authenticate run find store with_max_entry_ttl entry_deadline get insert remove
    contains_key evict_one str_eq verify_fresh_proof check_proof require present verified check_ath
    normalize_htu checked_age replay_ttl eq_ignore_ascii_case to_ascii_lowercase lower
fails_open = refl

-- The same proof a second time.
replay_is_refused :
    (authenticate libraries mark cache
      (codes "access")
      (some (codes "proof"))
      (codes "get")
      url
      110
      (codes "1" ∷ [])).2
    ≡ reject (invalid_token_dpop (codes "DPoP proof has already been used (replay)."))
unfolding authenticate run find store with_max_entry_ttl entry_deadline get insert remove
    contains_key evict_one str_eq verify_fresh_proof check_proof require present verified check_ath
    normalize_htu checked_age replay_ttl eq_ignore_ascii_case to_ascii_lowercase lower
replay_is_refused = refl

-- After 300 seconds the token is verified anew.
old_entry_misses :
    (authenticate libraries mark cache
      (codes "access")
      (some (codes "proof"))
      (codes "get")
      url
      400
      []).2
    ≡ miss
unfolding authenticate run find store with_max_entry_ttl entry_deadline get insert remove
    contains_key evict_one str_eq
old_entry_misses = refl

verify_fresh_proof_iff_example :
    (((verify_fresh_proof libraries mark policy
          (some (codes "proof"))
          (codes "access")
          (codes "thumb")
          (codes "get")
          url
          110
          []).1
        ≡ none)
      ↔ ((jti : Str) × Proves libraries policy
            (some (codes "proof"))
            (codes "access")
            (codes "thumb")
            (codes "get")
            url
            110
            jti
          × PassesReplay libraries policy
              (some (codes "proof"))
              (codes "access")
              (codes "thumb")
              (codes "get")
              url
              110
              mark
              []
              jti))
    × (((jti : Str) × Proves libraries policy
            (some (codes "proof"))
            (codes "access")
            (codes "thumb")
            (codes "get")
            url
            110
            jti
          × ((verify_fresh_proof libraries mark policy
                (some (codes "proof"))
                (codes "access")
                (codes "thumb")
                (codes "get")
                url
                110
                []).0
              ≡ (mark jti (replay_ttl policy) []).0))
        ⊎ (((verify_fresh_proof libraries mark policy
                (some (codes "proof"))
                (codes "access")
                (codes "thumb")
                (codes "get")
                url
                110
                []).0
              ≡ [])
            × ¬ (
                (jti : Str) × Proves libraries policy
                  (some (codes "proof"))
                  (codes "access")
                  (codes "thumb")
                  (codes "get")
                  url
                  110
                  jti)))
verify_fresh_proof_iff_example =
    verify_fresh_proof_iff libraries policy (some (codes "proof")) (codes "access") (codes "thumb")
      (codes "get") url 110 mark []

authenticate-verified_example :
    (at : ℕ) × (jkt : Str) × (exp : ℤ) × (jti : Str) × (last_inserted libraries
        (λ k. none)
        calls
        (codes "access")
      ≡ some (token, at))
    × (token.cnf_jkt ≡ some jkt)
    × (token.expiry ≡ some exp)
    × (110 < at + max 300 1)
    × (is_at_most exp (pos 110) ≡ false)
    × Proves libraries policy (some (codes "proof")) (codes "access") jkt (codes "get") url 110 jti
    × PassesReplay libraries policy
        (some (codes "proof"))
        (codes "access")
        jkt
        (codes "get")
        url
        110
        mark
        []
        jti
authenticate-verified_example =
    authenticate-verified libraries mark 2 300 policy calls (codes "access") (some (codes "proof"))
      (codes "get") url 110 [] token is_served
