-- ===== src/Notifications/Tokens/History.antt =====
-- src/notifications/mod.rs and ws.rs: which tokens open the receiving end, after any calls on a new
-- hub.
use mathlib.Core.Option.{some-injective}
use solid_server_rs.Prelude.{
  ℕ, ◌≤◌, ◌<◌, leb, leb→le, ◌≡◌, ◌≢◌, refl, ◌↔◌, inl, inr, Bool, ap, ◌∙◌, true, false, Option, none,
  some, List, [], ◌∷◌, Str, str_eq_iff, arith, All, Bool-cases,
}
use solid_server_rs.Collections.{get, str_key}
use solid_server_rs.Notifications.Tokens.{
  ReceiveTokenBinding, ReceiveTokens, validate_found, validate_receive_token, upgraded, given,
  answer, receive_given, receive_handler,
}
use solid_server_rs.Notifications.Tokens.Tracking.{Call, time_of, run, last_minted, run-Tracks}

validate_found-true :
    (m : ReceiveTokens) (token topic : Str) (now : ℕ) (o : Option ReceiveTokenBinding)
    → ((validate_found m token topic now o).1 ≡ true)
      ↔ ((b : ReceiveTokenBinding) × (o ≡ some b) × (b.topic ≡ topic) × (now < b.expires_at))
validate_found-true m token topic now none = (λ h. absurd (cc h), λ h. absurd (cc h.1))
validate_found-true m token topic now (some b) = elim (Bool-cases (leb b.expires_at now)) [
  | inl y ↦ rw y (
    λ h. absurd (cc h),
    λ (c, f, _, live).
        let late = leb→le _ _ (rw (some-injective b c f) at y) in
        absurd (omega (arith, late, live)),
  )
  | inr n ↦ rw n (
    λ h. (b, refl, (str_eq_iff b.topic topic).0 h, ground arith),
    λ (c, f, same, _).
        (str_eq_iff b.topic topic).1 (ap (λ x. x.topic) (some-injective b c f) ∙ same),
  )
]

given_iff : (o : Option Str) (s : Str) → (given o ≡ some s) ↔ ((o ≡ some s) × (s ≢ []))
given_iff none s = (λ h. absurd (cc h), λ h. absurd (cc h.0))
given_iff (some []) s = (λ h. absurd (cc h), λ h. absurd (h.1 (some-injective s [] (cc h.0))))
given_iff (some (c ∷ r)) s = (λ h. (h, λ e. absurd (cc (some-injective _ s h, e))), λ h. h.0)

module _ {Rejection : Type 0} where
  answer-upgraded :
      (topic t : Str) (ws : Option Rejection) (valid : Bool)
      → (answer topic ws valid ≡ upgraded t) ↔ ((topic ≡ t) × (ws ≡ none) × (valid ≡ true))
  answer-upgraded topic t ws false = (λ h. absurd (cc h), λ h. absurd (cc h.2))
  answer-upgraded topic t none true = (λ h. (cc, refl, refl), λ h. ap upgraded h.0)
  answer-upgraded topic t (some r) true = (λ h. absurd (cc h), λ h. absurd (cc h.1))

  receive_given-upgraded :
      (m : ReceiveTokens) (topic token : Option Str) (ws : Option Rejection) (now : ℕ) (t : Str)
      → ((receive_given m topic token ws now).1 ≡ upgraded t) ↔ (
          (topic ≡ some t)
          × (ws ≡ none)
          × (k : Str) × (token ≡ some k)
          × ((validate_found m k t now (get k m)).1 ≡ true))
  unfolding validate_receive_token
  receive_given-upgraded m none token ws now t = (λ h. absurd (cc h), λ h. absurd (cc h.0))
  receive_given-upgraded m (some topic) none ws now t =
      (λ h. absurd (cc h), λ (_, _, k, f, _). absurd (cc f))
  receive_given-upgraded m (some topic) (some k) ws now t = (
    λ h.
        let (same, free, valid) =
          (answer-upgraded topic t ws (validate_found m k topic now (get k m)).1).0 h in
        (ap some same, free, k, refl, rw same at valid),
    λ (here, free, j, same, valid).
        let at_topic : topic ≡ t = some-injective topic t here in
        (answer-upgraded topic t ws (validate_found m k topic now (get k m)).1).1
          (at_topic, free, (rw (some-injective k j same, at_topic) valid)),
  )

  -- After any calls on a new hub that lie no later than `now`, a receive request is upgraded to a
  -- subscription of the topic `t` exactly when it names `t`, which is not empty, it is an upgrade
  -- request, and its token is not empty and was last minted for `t` and has not expired.
  pub receive-upgraded_iff :
      (calls : List Call) (topic token : Option Str) (ws : Option Rejection) (now : ℕ) (t : Str)
      → All (λ c. time_of c ≤ now) calls
      → ((receive_handler (run [] calls) topic token ws now).1 ≡ upgraded t) ↔ (
          (topic ≡ some t)
          × (t ≢ [])
          × (ws ≡ none)
          × (k : Str) × (token ≡ some k)
          × (k ≢ [])
          × (b : ReceiveTokenBinding) × (last_minted (λ s. none) calls k ≡ some b)
          × (b.topic ≡ t)
          × (now < b.expires_at))
  unfolding receive_handler get
  receive-upgraded_iff calls topic token ws now t earlier =
      let m = run [] calls in
      let tracks =
        run-Tracks now calls (λ s. none) []
          (record {
            distinct = tt;
            sound = λ k b f. absurd (cc f);
            complete = λ k b f live. absurd (cc f);
          })
          earlier in
      (
        λ h.
            let (named, free, k, token_is, valid) =
              (receive_given-upgraded m (given topic) (given token) ws now t).0 h in
            let (here, filled) = (given_iff topic t).0 named in
            let (held, long) = (given_iff token k).0 token_is in
            let (b, found, same, live) = (validate_found-true m k t now (get k m)).0 valid in
            (here, filled, free, k, held, long, b, tracks.sound k b found, same, live),
        λ (here, filled, free, k, held, long, b, minted, same, live).
            (receive_given-upgraded m (given topic) (given token) ws now t).1 (
              (given_iff topic t).1 (here, filled),
              free,
              k,
              (given_iff token k).1 (held, long),
              (validate_found-true m k t now (get k m)).1
                  (b, tracks.complete k b minted live, same, live),
            ),
      )
