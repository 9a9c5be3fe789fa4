-- ===== src/RateLimit/Evicting.antt =====
-- src/rate_limit.rs: what the eviction from a full shard keeps.
use mathlib.Core.Path.{subst}
use mathlib.Core.Option.{some-injective}
use solid_server_rs.Prelude.{
  ℕ, ◌≤◌, ◌<◌, ltb, leb, leb→le, ◌≡◌, ◌≢◌, sym, ap, ◌∙◌, inl, inr, Bool, true, false, not, ◌&&◌,
  some, [], ◌∷◌, All, length, arith, Bool-cases,
}
use solid_server_rs.Collections.{get, retain, contains_key, evict_one}
use solid_server_rs.Collections.Laws.{get-remove, length-retain-le, min_by_key_lem}
use solid_server_rs.Collections.Distinct.{IsDistinct, get-retain, get_of_listed, retain-IsDistinct}
use solid_server_rs.RateLimit.Addresses.{IpAddr, ip_key, ip_eq_iff}
use solid_server_rs.RateLimit.Buckets.{Bucket, Shard, is_recent, make_room, sweep}

module _ {F : Type 0} where
  length-retain-lt :
      (p : Bucket F → Bool) (k : IpAddr) (c : Bucket F) (m : Shard F)
      → get k m ≡ some c
      → p c ≡ false
      → length (retain p m) < length m
  unfolding get retain
  length-retain-lt p k c [] h gone = absurd (cc h)
  length-retain-lt p k c ((j, b) ∷ m) h gone =
      let step = length-retain-lt p k c m in
      let le = length-retain-le p m in
      elim (Bool-cases (ip_key.beq j k)) [
        | inl same ↦
            let here : p b ≡ false = cc (some-injective b c (rw same at h), gone) in
            rw here (omega (arith, le))
        | inr other ↦
            let lt = step (rw other at h) gone in
            elim (Bool-cases (p b)) [
              | inl stays ↦ rw stays (omega (arith, lt))
              | inr goes ↦ rw goes (omega (arith, lt))
            ]
      ]

  All-get :
      (P : Bucket F → Type 0) (k : IpAddr) (c : Bucket F) (m : Shard F)
      → All (λ e. P e.1) m
      → get k m ≡ some c
      → P c
  unfolding get
  All-get P k c [] all h = absurd (cc h)
  All-get P k c ((j, b) ∷ m) (here, all) h =
      let later = All-get P k c m all in
      elim (Bool-cases (ip_key.beq j k)) [
        | inl same ↦ subst P (some-injective b c (rw same at h)) here
        | inr other ↦ later (rw other at h)
      ]

  get-nonempty : (j : IpAddr) (b : Bucket F) (m : Shard F) → get j m ≡ some b → m ≢ []
  unfolding get
  get-nonempty j b [] h = absurd (cc h)
  get-nonempty j b (x ∷ m) h = λ e. cc e

  -- The coldest bucket goes, and that is not one that has a colder one beside it.
  evict-keeps :
      (j k : IpAddr) (b c : Bucket F) (m : Shard F)
      → IsDistinct m
      → get j m ≡ some b
      → get k m ≡ some c
      → c.last_seen < b.last_seen
      → get j (evict_one (λ x. x.last_seen) m) ≡ some b
  unfolding evict_one
  evict-keeps j k b c m d hot cold lt =
      let (e, found, listed, least) =
        min_by_key_lem (λ y. y.last_seen) m (get-nonempty j b m hot) in
      let at_e = get_of_listed e.0 e.1 m d listed in
      let below = All-get (λ y. e.1.last_seen ≤ y.last_seen) k c m least cold in
      rw (found, evict_one)
        (elim (Bool-cases (ip_key.beq e.0 j)) [
          | inr other ↦ rw (get-remove e.0 j m, other) hot
          | inl same ↦
              let is_e : e.1 ≡ b =
                some-injective e.1 b
                  (sym at_e ∙ ap (λ i. get i m) ((ip_eq_iff e.0 j).0 same) ∙ hot) in
              absurd (omega (arith, below, lt, ap (λ y. y.last_seen) is_e))
        ])

  pub make_room-keeps :
      (limit : ℕ) (ip j k : IpAddr) (b c : Bucket F) (now : ℕ) (m : Shard F)
      → IsDistinct m
      → length m ≤ limit
      → get j m ≡ some b
      → is_recent now b ≡ true
      → get k m ≡ some c
      → c.last_seen < b.last_seen
      → get j (make_room limit ip now m) ≡ some b
  unfolding make_room
  make_room-keeps limit ip j k b c now m d fits hot recent cold lt =
      let kept = retain (is_recent now) m in
      let hot' = (get-retain (is_recent now) j m d b).1 (hot, recent) in
      elim (Bool-cases (leb limit (length m) && not (contains_key ip m))) [
        | inr room ↦ rw room hot
        | inl full ↦ rw full (elim (Bool-cases (leb limit (length kept))) [
          | inr freed ↦ rw freed hot'
          | inl still ↦ rw still (elim (Bool-cases (is_recent now c)) [
            | inl recent_c ↦
                evict-keeps j k b c kept (retain-IsDistinct (is_recent now) m d) hot'
                  ((get-retain (is_recent now) k m d c).1 (cold, recent_c)) lt
            | inr idle_c ↦ absurd (
                omega (
                  arith,
                  leb→le _ _ still,
                  length-retain-lt (is_recent now) k c m cold idle_c,
                  fits,
                ))
          ])
        ])
      ]

  pub sweep-keeps :
      (j : IpAddr) (b : Bucket F) (now : ℕ) (m : Shard F)
      → IsDistinct m
      → get j m ≡ some b
      → is_recent now b ≡ true
      → get j (sweep now m) ≡ some b
  sweep-keeps j b now m d hot recent = elim (Bool-cases (ltb 1024 (length m))) [
    | inl y ↦ rw y ((get-retain (is_recent now) j m d b).1 (hot, recent))
    | inr n ↦ rw n hot
  ]
