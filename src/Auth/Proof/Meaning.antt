-- ===== src/Auth/Proof/Meaning.antt =====
-- src/auth_cache.rs: what a proof must show to be accepted, and when its identifier is used up.
use mathlib.Core.Option.{some-injective}
use mathlib.Core.Path.{subst}
use solid_server_rs.Prelude.{
  ℕ, ◌≤◌, ◌≡◌, ◌≢◌, refl, sym, ap, ◌∙◌, ◌⊎◌, inl, inr, ◌↔◌, Bool, true, false, not, ◌&&◌, Option,
  none, some, [], ◌∷◌, Str, codes, str_eq, str_eq_iff, eq_ignore_ascii_case, leb→le, Bool-cases,
  arith, ℤ,
}
use solid_server_rs.Auth.Proof.{
  Claims, Libraries, ProofPolicy, MarkResult, fresh, replay, failed, VerifyError, Checked, pass,
  refuse, ◌>>=◌, require, present, verified, text_or_empty, is_filled, checked_age, at_most,
  normalize_htu, same_url, check_ath, check_proof, replay_ttl, verify_fresh_proof, judge, consume,
}

>>=-eq-pass :
    {A B : Type 0} (c : Checked A) (f : A → Checked B) {b : B}
    → (c >>= f) ≡ pass b
    → (a : A) × (c ≡ pass a) × (f a ≡ pass b)
>>=-eq-pass (refuse e) f h = absurd (cc h)
>>=-eq-pass (pass a) f h = (a, refl, h)

pass-injective : {A : Type 0} (a b : A) → pass a ≡ pass b → a ≡ b
pass-injective a b h = cc

require-eq-pass : (b : Bool) (message : Str) → require b message ≡ pass tt → b ≡ true
unfolding require
require-eq-pass true message h = refl
require-eq-pass false message h = absurd (cc h)

present-eq-pass :
    {A : Type 0} (o : Option A) (message : Str) (a : A) → present o message ≡ pass a → o ≡ some a
unfolding present
present-eq-pass none message a h = absurd (cc h)
present-eq-pass (some b) message a h = cc h

verified-eq-pass :
    {A : Type 0} (before after : Str) (s : Str ⊎ A) (a : A)
    → verified before after s ≡ pass a
    → s ≡ inr a
unfolding verified
verified-eq-pass before after (inl e) a h = absurd (cc h)
verified-eq-pass before after (inr b) a h = cc h

is_filled_lem : (o : Option Str) (s : Str) → o ≡ some s → (is_filled o ≡ true) ↔ (s ≢ [])
is_filled_lem none s h = absurd (cc h)
is_filled_lem (some []) s h = (λ e. absurd (cc e), λ ne. absurd (ne (sym (some-injective [] s h))))
is_filled_lem (some (c ∷ t)) s h = (λ e empty. cc (some-injective (c ∷ t) s h, empty), λ ne. refl)

at_most_lem :
    (o : Option ℕ) (n : ℕ) → (at_most o n ≡ true) ↔ ((age : ℕ) × (o ≡ some age) × (age ≤ n))
at_most_lem none n = (λ h. absurd (cc h), λ h. absurd (cc h.1))
at_most_lem (some age) n = (
  λ h. (age, refl, leb→le age n h),
  λ h. let same = some-injective age h.0 h.1 in let le = h.2 in ground (arith, same, le),
)

Checked-cases :
    {A : Type 0} (c : Checked A) → ((a : A) × (c ≡ pass a)) ⊎ ((e : VerifyError) × (c ≡ refuse e))
Checked-cases (pass a) = inl (a, refl)
Checked-cases (refuse e) = inr (e, refl)

judge_iff :
    (policy : ProofPolicy) (r : MarkResult)
    → (judge policy r ≡ none) ↔ ((r ≡ fresh) ⊎ ((r ≡ failed) × (policy.replay_fail_closed ≡ false)))
judge_iff policy fresh = (λ h. inl refl, λ h. refl)
judge_iff policy replay =
    (λ h. absurd (cc h), elim [ inl e ↦ absurd (cc e) | inr (e, _) ↦ absurd (cc e) ])
judge_iff policy failed = elim (Bool-cases policy.replay_fail_closed) [
  | inl y ↦
      rw y
        (λ h. absurd (cc h), elim [ inl e ↦ absurd (cc e) | inr (_, closed) ↦ absurd (cc closed) ])
  | inr n ↦ rw n (λ h. inr (refl, refl), λ h. refl)
]

module _ (lib : Libraries) where
  -- The proof is bound to the token: it names the token's digest, or names none where that is allowed.
  abbrev pub NamesToken : ProofPolicy → Str → Option Str → Str → Type 0
  NamesToken policy proof ath digest =
      (ath ≡ some (lib.base64url digest))
      ⊎ ((ath ≡ none) × (policy.allow_missing_ath ≡ true) × (lib.proof_has_ath proof ≡ false))

  check_ath_iff :
      (policy : ProofPolicy) (proof : Str) (ath : Option Str) (digest : Str)
      → (check_ath lib
            (not (policy.allow_missing_ath && not (lib.proof_has_ath proof)))
            ath
            (lib.base64url digest)
          ≡ pass tt)
        ↔ NamesToken policy proof ath digest
  unfolding check_ath require
  check_ath_iff policy proof (some a) digest =
      let d = lib.base64url digest in
      let (to, from) = str_eq_iff a d in
      let named : (require (str_eq a d) (codes "DPoP proof ath mismatch.") ≡ pass tt)
          ↔ NamesToken policy proof (some a) digest =
        (
          λ h. inl (ap some (to (require-eq-pass (str_eq a d) _ h))),
          λ h. elim h [
            | inl e ↦ rw (from (some-injective a d e)) refl
            | inr (absent, _, _) ↦ absurd (cc absent)
          ],
        ) in
      elim (Bool-cases (not (policy.allow_missing_ath && not (lib.proof_has_ath proof)))) [
        | inl y ↦ rw y named
        | inr n ↦ rw n named
      ]
  check_ath_iff policy proof none digest = elim (Bool-cases policy.allow_missing_ath) [
    | inr n ↦ rw n (
      λ h. absurd (cc h),
      elim [ inl e ↦ absurd (cc e) | inr (_, allowed, _) ↦ absurd (cc allowed) ],
    )
    | inl y ↦ elim (Bool-cases (lib.proof_has_ath proof)) [
      | inl has ↦ rw y (
          rw has (
            λ h. absurd (cc h),
            elim [ inl e ↦ absurd (cc e) | inr (_, _, without) ↦ absurd (cc without) ],
          ))
      | inr without ↦ rw y (rw without (λ h. inr (refl, refl, refl), λ h. refl))
    ]
  ]

  -- What a request shows with a proof: it is signed by the key in it, that key has the thumbprint of the
  -- token, and it was made for this method, this URL and this token, not long ago.
  pub record Proves (policy : ProofPolicy) (dpop_proof : Option Str)
      (digest cnf_jkt method url : Str) (now : ℕ) (jti : Str) : Type 0 where
    pub proof : Str
    pub claims : Claims
    pub htu : Str
    pub iat : ℤ
    pub age : ℕ
    pub presented : dpop_proof ≡ some proof
    pub signed : lib.verify_proof proof ≡ inr (claims, inr cnf_jkt)
    pub for_method : eq_ignore_ascii_case (text_or_empty claims.htm) method ≡ true
    pub has_htu : claims.htu ≡ some htu
    pub for_url : normalize_htu lib htu ≡ normalize_htu lib url
    pub has_jti : claims.jti ≡ some jti
    pub jti_filled : jti ≢ []
    pub has_iat : claims.iat ≡ some iat
    pub has_age : checked_age now iat ≡ some age
    pub recent : age ≤ replay_ttl policy
    pub for_token : NamesToken policy proof claims.ath digest

  same_url_lem :
      (o : Option Str) (url : Str)
      → (same_url lib o url ≡ true)
        ↔ ((htu : Str) × (o ≡ some htu) × (normalize_htu lib htu ≡ normalize_htu lib url))
  same_url_lem none url = (λ h. absurd (cc h), λ h. absurd (cc h.1))
  same_url_lem (some h') url =
      let (to, from) = str_eq_iff (normalize_htu lib h') (normalize_htu lib url) in
      (λ h. (h', refl, to h), λ h. from (ap (normalize_htu lib) (some-injective h' h.0 h.1) ∙ h.2))

  module _ (policy : ProofPolicy) (dpop_proof : Option Str) (digest cnf_jkt method url : Str)
      (now : ℕ) where
    Proves-of_pass :
        (jti : Str)
        → check_proof lib policy dpop_proof digest cnf_jkt method url now ≡ pass jti
        → Proves policy dpop_proof digest cnf_jkt method url now jti
    unfolding check_proof
    Proves-of_pass jti h =
        let (proof, e1, h1) = >>=-eq-pass (present dpop_proof _) _ h in
        let (found, e2, h2) = >>=-eq-pass (verified _ _ (lib.verify_proof proof)) _ h1 in
        let (_, e3, h3) =
          >>=-eq-pass (require (eq_ignore_ascii_case (text_or_empty found.0.htm) method) _) _ h2 in
        let (_, e4, h4) = >>=-eq-pass (require (same_url lib found.0.htu url) _) _ h3 in
        let (_, e5, h5) = >>=-eq-pass (require (is_filled found.0.jti) _) _ h4 in
        let (iat, e6, h6) = >>=-eq-pass (present found.0.iat _) _ h5 in
        let (_, e7, h7) =
          >>=-eq-pass (require (at_most (checked_age now iat) (replay_ttl policy)) _) _ h6 in
        let (_, e8, h8) = >>=-eq-pass (check_ath lib _ found.0.ath (lib.base64url digest)) _ h7 in
        let (thumbprint, e9, h9) = >>=-eq-pass (verified _ _ found.1) _ h8 in
        let (_, e10, h10) = >>=-eq-pass (require (str_eq thumbprint cnf_jkt) _) _ h9 in
        let jti_there = present-eq-pass found.0.jti _ jti h10 in
        let (htu, has_htu, for_url) = (same_url_lem found.0.htu url).0 (require-eq-pass _ _ e4) in
        let (age, has_age, recent) =
          (at_most_lem (checked_age now iat) (replay_ttl policy)).0 (require-eq-pass _ _ e7) in
        let bound = (str_eq_iff thumbprint cnf_jkt).0 (require-eq-pass _ _ e10) in
        record {
          proof = proof;
          claims = found.0;
          htu = htu;
          iat = iat;
          age = age;
          presented = present-eq-pass dpop_proof _ proof e1;
          signed =
              verified-eq-pass _ _ (lib.verify_proof proof) found e2
              ∙ ap (λ (k : Str ⊎ Str). let p : Claims × (Str ⊎ Str) = (found.0, k) in inr p)
                  (verified-eq-pass _ _ found.1 thumbprint e9 ∙ ap inr bound);
          for_method = require-eq-pass _ _ e3;
          has_htu = has_htu;
          for_url = for_url;
          has_jti = jti_there;
          jti_filled = (is_filled_lem found.0.jti jti jti_there).0 (require-eq-pass _ _ e5);
          has_iat = present-eq-pass found.0.iat _ iat e6;
          has_age = has_age;
          recent = recent;
          for_token = (check_ath_iff policy proof found.0.ath digest).0 e8;
        }

    pass_of_Proves :
        (jti : Str)
        → Proves policy dpop_proof digest cnf_jkt method url now jti
        → check_proof lib policy dpop_proof digest cnf_jkt method url now ≡ pass jti
    unfolding check_proof present verified require
    pass_of_Proves jti p = rw p.presented (
        rw p.signed (
          rw p.for_method (
            rw ((same_url_lem p.claims.htu url).1 (p.htu, p.has_htu, p.for_url)) (
              rw ((is_filled_lem p.claims.jti jti p.has_jti).1 p.jti_filled) (
                rw p.has_iat (
                  rw
                    ((at_most_lem (checked_age now p.iat) (replay_ttl policy)).1
                      (p.age, p.has_age, p.recent))
                    (rw ((check_ath_iff policy p.proof p.claims.ath digest).1 p.for_token)
                      (rw ((str_eq_iff cnf_jkt cnf_jkt).1 refl) (rw p.has_jti refl)))))))))

    module _ {Replay : Type 0} (mark : Str → ℕ → Replay → Replay × MarkResult)
        (store : Replay) where
      -- The replay store marks the identifier as new, or cannot mark it and the policy lets such a
      -- failure through: then nothing is known of the identifier.
      abbrev pub PassesReplay : Str → Type 0
      PassesReplay jti =
          let result = (mark jti (replay_ttl policy) store).1 in
          (result ≡ fresh) ⊎ ((result ≡ failed) × (policy.replay_fail_closed ≡ false))

      -- A fresh proof is accepted exactly when it proves what it has to and the replay store answers
      -- that its identifier is new, or that it could not mark it, and the policy fails open; in the
      -- second case an identifier is accepted whether it was used before or not. The identifier of a
      -- proof that proves all is handed to the replay store, and no other is.
      pub verify_fresh_proof_iff :
          (((verify_fresh_proof lib mark policy dpop_proof digest cnf_jkt method url now store).1
              ≡ none)
            ↔ ((jti : Str) × Proves policy dpop_proof digest cnf_jkt method url now jti
                × PassesReplay jti))
          × (((jti : Str) × Proves policy dpop_proof digest cnf_jkt method url now jti
                × ((verify_fresh_proof lib mark policy dpop_proof digest cnf_jkt method url now
                      store).0
                    ≡ (mark jti (replay_ttl policy) store).0))
              ⊎ (((verify_fresh_proof lib mark policy dpop_proof digest cnf_jkt method url now
                      store).0
                    ≡ store)
                  × ¬ ((jti : Str) × Proves policy dpop_proof digest cnf_jkt method url now jti)))
      unfolding verify_fresh_proof
      verify_fresh_proof_iff =
          let c = check_proof lib policy dpop_proof digest cnf_jkt method url now in
          elim (Checked-cases c) [
            | inl (jti, e) ↦
                let (to, from) = judge_iff policy (mark jti (replay_ttl policy) store).1 in
                let p = Proves-of_pass jti e in
                rw (e, consume)
                  (
                    (
                      λ h. (jti, p, to h),
                      λ h.
                          let again = pass_of_Proves h.0 h.1 in
                          let same : h.0 ≡ jti = pass-injective h.0 jti (sym again ∙ e) in
                          from (subst (λ (j : Str). PassesReplay j) same h.2),
                    ),
                    inl (jti, p, refl),
                  )
            | inr (f, e) ↦
                rw (e, consume)
                  (
                    (λ h. absurd (cc h), λ h. absurd (cc (pass_of_Proves h.0 h.1, e))),
                    inr (refl, λ h. cc (pass_of_Proves h.0 h.1, e)),
                  )
          ]
