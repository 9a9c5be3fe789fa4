-- ===== src/Auth/Proof.antt =====
-- src/auth_cache.rs: the checks of a fresh DPoP proof. SHA-256, base64url, the verification of a proof
-- and of the key in it, the parser of URLs and the replay store are libraries'. A key is what its
-- thumbprint is, or the error of it.
pub mod Meaning
use solid_server_rs.Prelude.{
  ℕ, ◌+◌, ◌-◌, ◌%◌, ◌^◌, min, ltb, leb, Bool, true, false, not, ◌&&◌, Option, none, some, ◌⊎◌, inl,
  inr, List, [], ◌∷◌, ◌++◌, Str, codes, str_eq, eq_ignore_ascii_case, if◌then◌else◌, ℤ, pos, negsuc,
}

pub data ErrorKind : Type 0 where
  invalid_token replay_store_unavailable : ErrorKind

pub record VerifyError : Type 0 where
  pub kind : ErrorKind
  pub message : Str
  pub dpop : Bool

-- the claims of a proof that are read, where they are of the right type
pub record Claims : Type 0 where
  pub htm : Option Str
  pub htu : Option Str
  pub jti : Option Str
  pub iat : Option ℤ
  pub ath : Option Str

pub data MarkResult : Type 0 where
  fresh replay failed : MarkResult

-- what the server calls of its libraries; errors are texts
pub record Libraries : Type 0 where
  pub sha256 : Str → Str
  pub base64url : Str → Str
  pub verify_proof : Str → Str ⊎ (Claims × (Str ⊎ Str))
  pub proof_has_ath : Str → Bool
  pub url_without_query : Str → Option Str

pub record ProofPolicy : Type 0 where
  pub clock_tolerance_secs : ℕ
  pub allow_missing_ath : Bool
  pub replay_fail_closed : Bool

abbrev pub dpop_proof_max_age_secs : ℕ
dpop_proof_max_age_secs = 300

-- in `u64`
unfoldable pub replay_ttl : ProofPolicy → ℕ
replay_ttl policy = (dpop_proof_max_age_secs + policy.clock_tolerance_secs) % 2 ^ 64

unfoldable pub invalid_token_dpop : Str → VerifyError
invalid_token_dpop message = record { kind = invalid_token; message = message; dpop = true }

pub data Checked (A : Type 0) : Type 0 where
  pass : A → Checked A
  refuse : VerifyError → Checked A

infixl 5 ◌>>=◌ ◌>>◌
abbrev pub ◌>>=◌ : {A B : Type 0} → Checked A → (A → Checked B) → Checked B
refuse e >>= f = refuse e
pass a >>= f = f a

abbrev pub ◌>>◌ : {B : Type 0} → Checked (Unit {0}) → Checked B → Checked B
c >> d = c >>= λ _. d

unfoldable pub require : Bool → Str → Checked (Unit {0})
require true message = pass tt
require false message = refuse (invalid_token_dpop message)

unfoldable pub present : {A : Type 0} → Option A → Str → Checked A
present none message = refuse (invalid_token_dpop message)
present (some a) message = pass a

unfoldable pub verified : {A : Type 0} → Str → Str → Str ⊎ A → Checked A
verified before after (inl e) = refuse (invalid_token_dpop (before ++ (e ++ after)))
verified before after (inr a) = pass a

abbrev pub text_or_empty : Option Str → Str
text_or_empty none = []
text_or_empty (some s) = s

abbrev pub is_filled : Option Str → Bool
is_filled none = false
is_filled (some []) = false
is_filled (some (c ∷ s)) = true

-- `now.checked_sub(iat)` and its absolute value; `now` is not negative
unfoldable pub checked_age : ℕ → ℤ → Option ℕ
checked_age now (pos iat) = some (if leb iat now then now - iat else iat - now)
checked_age now (negsuc n) = if ltb (now + n + 1) (2 ^ 63) then some (now + n + 1) else none

abbrev pub at_most : Option ℕ → ℕ → Bool
at_most none n = false
at_most (some age) n = leb age n

-- what a mark comes to
abbrev pub judge : ProofPolicy → MarkResult → Option VerifyError
judge policy fresh = none
judge policy replay = some (invalid_token_dpop (codes "DPoP proof has already been used (replay)."))
judge policy failed =
    if policy.replay_fail_closed
    then some (record {
      kind = replay_store_unavailable;
      message = codes "Replay protection backend is unavailable.";
      dpop = true;
    })
    else none

module _ (lib : Libraries) where
  abbrev pub or_itself : Str → Option Str → Str
  or_itself htu none = htu
  or_itself htu (some url) = url

  unfoldable pub normalize_htu : Str → Str
  normalize_htu htu = or_itself htu (lib.url_without_query htu)

  abbrev pub same_url : Option Str → Str → Bool
  same_url none url = false
  same_url (some htu) url = str_eq (normalize_htu htu) (normalize_htu url)

  -- the comparison of `ath`, where it is required and where it is not
  unfoldable pub check_ath : Bool → Option Str → Str → Checked (Unit {0})
  unfolding require
  check_ath true (some a) ath = require (str_eq a ath) (codes "DPoP proof ath mismatch.")
  check_ath true none ath = refuse (invalid_token_dpop (codes "DPoP proof is missing ath."))
  check_ath false (some a) ath = require (str_eq a ath) (codes "DPoP proof ath mismatch.")
  check_ath false none ath = pass tt

  -- `verify_fresh_proof` as far as the replay mark: the `jti` to mark
  unfoldable pub check_proof : ProofPolicy → Option Str → Str → Str → Str → Str → ℕ → Checked Str
  check_proof policy dpop_proof token_digest cnf_jkt method url now = do
    proof ← present dpop_proof (codes "DPoP proof is required (no DPoP HTTP Header).")
    found ← verified (codes "DPoP proof verification failed: ") [] (lib.verify_proof proof)
    require (eq_ignore_ascii_case (text_or_empty found.0.htm) method)
        (codes "DPoP proof htm mismatch.")
    require (same_url found.0.htu url) (codes "DPoP proof htu mismatch.")
    require (is_filled found.0.jti) (codes "DPoP proof is missing a jti.")
    iat ← present found.0.iat (codes "DPoP proof is missing iat.")
    require (at_most (checked_age now iat) (replay_ttl policy))
        (codes "DPoP proof iat is not recent enough.")
    check_ath (not (policy.allow_missing_ath && not (lib.proof_has_ath proof))) found.0.ath
        (lib.base64url token_digest)
    thumbprint ← verified (codes "DPoP proof key is invalid: ") (codes ".") found.1
    require (str_eq thumbprint cnf_jkt)
        (codes "JWT Access Token confirmation mismatch (cnf.jkt != proof jwk thumbprint).")
    present found.0.jti (codes "DPoP proof is missing a jti.")

  module _ {Replay : Type 0} (mark : Str → ℕ → Replay → Replay × MarkResult) where
    abbrev pub consume : ProofPolicy → Replay → Checked Str → Replay × Option VerifyError
    consume policy store (refuse e) = (store, some e)
    consume policy store (pass jti) =
        let (store', result) = mark jti (replay_ttl policy) store in (store', judge policy result)

    -- `none` is `Ok(())`
    unfoldable pub verify_fresh_proof :
        ProofPolicy → Option Str → Str → Str → Str → Str → ℕ → Replay → Replay × Option VerifyError
    verify_fresh_proof policy dpop_proof token_digest cnf_jkt method url now store =
        consume policy store (check_proof policy dpop_proof token_digest cnf_jkt method url now)
