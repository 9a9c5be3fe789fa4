-- ===== src/RateLimit/Fairness.antt =====
-- src/rate_limit.rs: the verdict on one address does not depend on the requests of another.
use solid_server_rs.Prelude.{
  ℕ, ◌-◌, ◌<◌, max, lt→ltb, ◌==◌, ==_iff, ◌≡◌, ◌≢◌, ◌∙◌, sym, refl, inl, inr, Bool, true, false,
  Option, none, some, List, [], ◌∷◌, Str, arith, Bool-cases,
}
use solid_server_rs.Collections.{get}
use solid_server_rs.RateLimit.Addresses.{IpAddr, ip_key, shard_for}
use solid_server_rs.RateLimit.Buckets.{
  Floats, Bucket, RateLimiter, idle_ttl, with_shard, set_max_buckets_per_shard, new, take_in,
  is_exempt, allow, is_probe, concluded, from_peer, rate_limit_middleware,
}
use solid_server_rs.RateLimit.Bounds.{Arrival, Fits, run, run-Fits, served}
use solid_server_rs.RateLimit.Hot.{AreDistinct, allow-AreDistinct, take_in-keeps, allow-verdict}
use solid_server_rs.RateLimit.{resolve_client_ip}

module _ {F : Type 0} where
  concluded-AreDistinct :
      (l : RateLimiter F) (allowed : Bool) → AreDistinct l → AreDistinct (concluded (l, allowed)).0
  concluded-AreDistinct l true d = d
  concluded-AreDistinct l false d = d

module _ {F : Type 0} (floats : Floats F) where
  from_peer-AreDistinct :
      (parse_ip : Str → Option IpAddr) (l : RateLimiter F) (peer : Option IpAddr) (xff : Option Str)
      (now : ℕ)
      → AreDistinct l
      → AreDistinct (from_peer floats parse_ip l peer xff now).0
  from_peer-AreDistinct parse_ip l none xff now d = d
  from_peer-AreDistinct parse_ip l (some peer) xff now d =
      let ip = resolve_client_ip parse_ip peer xff l.trusted_proxy_hops in
      let (l', allowed) = allow floats l ip now in
      concluded-AreDistinct l' allowed (allow-AreDistinct floats l ip now d)

  run-AreDistinct :
      (parse_ip : Str → Option IpAddr) (arrivals : List Arrival) (l : RateLimiter F)
      → AreDistinct l
      → AreDistinct (run floats parse_ip l arrivals)
  unfolding run rate_limit_middleware
  run-AreDistinct parse_ip [] l d = d
  run-AreDistinct parse_ip (a ∷ arrivals) l d =
      run-AreDistinct parse_ip arrivals _ (elim (Bool-cases (is_probe a.path)) [
        | inl probe ↦ rw probe d
        | inr request ↦ rw request (from_peer-AreDistinct parse_ip l a.peer a.xff a.now d)
      ])

  -- On a limiter whose shards are maps within their limit.
  verdict-unaffected :
      (limit : ℕ) (l : RateLimiter F) (ip j k : IpAddr) (b c : Bucket F) (now later : ℕ)
      → AreDistinct l
      → Fits limit l
      → ip ≢ j
      → get j (l.shards (shard_for j)) ≡ some b
      → now - b.last_seen < idle_ttl
      → get k (l.shards (shard_for j)) ≡ some c
      → c.last_seen < b.last_seen
      → (allow floats (allow floats l ip now).0 j later).1 ≡ (allow floats l j later).1
  unfolding allow
  verdict-unaffected limit l ip j k b c now later d f apart hot recent cold lt =
      elim (Bool-cases (is_exempt l ip)) [
        | inl free ↦ rw free refl
        | inr counted ↦
            let l' : RateLimiter F = record l {
              shards =
                  with_shard (shard_for ip) (take_in floats l ip now (l.shards (shard_for ip))).0
                    l.shards;
            } in
            let kept : get j (l'.shards (shard_for j)) ≡ some b =
              elim (Bool-cases (shard_for ip == shard_for j)) [
                | inr other ↦ rw other hot
                | inl here ↦
                    let same : shard_for ip ≡ shard_for j = (==_iff _ _).0 here in
                    rw (here, same)
                      (take_in-keeps floats l ip j k b c now (l.shards (shard_for j)) apart
                        (d (shard_for j)) (rw f.same_limit (f.fits (shard_for j))) hot
                        (lt→ltb _ _ recent) cold lt)
              ] in
            rw counted
              (allow-verdict floats l' j b later kept ∙ sym (allow-verdict floats l j b later hot))
      ]

  -- After any requests to a new limiter whose shards hold `limit` buckets (at least 1), a request
  -- from another address changes nothing in the verdict on an address that has a bucket, was last
  -- seen less than ten minutes before that request, and shares its shard with an address last seen
  -- before it: its bucket is neither evicted nor refilled by the addresses of others.
  pub allow-unaffected :
      (parse_ip : Str → Option IpAddr) (rate capacity : F) (hops : ℕ)
      (exempt_loopback exempt_internal : Bool) (limit : ℕ) (arrivals : List Arrival)
      (ip j k : IpAddr) (b c : Bucket F) (now later : ℕ)
      → ip ≢ j
      → get j (
          (served floats parse_ip rate capacity hops exempt_loopback exempt_internal limit
              arrivals).shards
            (shard_for j))
        ≡ some b
      → now - b.last_seen < idle_ttl
      → get k (
          (served floats parse_ip rate capacity hops exempt_loopback exempt_internal limit
              arrivals).shards
            (shard_for j))
        ≡ some c
      → c.last_seen < b.last_seen
      → (allow floats
          (allow floats
            (served floats parse_ip rate capacity hops exempt_loopback exempt_internal limit
              arrivals)
            ip
            now).0
          j
          later).1
        ≡ (allow floats
            (served floats parse_ip rate capacity hops exempt_loopback exempt_internal limit
              arrivals)
            j
            later).1
  unfolding set_max_buckets_per_shard new
  allow-unaffected parse_ip rate capacity hops exempt_loopback exempt_internal limit arrivals ip j k
        b c now later apart hot recent cold lt =
      let start =
        set_max_buckets_per_shard limit
          (new floats rate capacity hops exempt_loopback exempt_internal) in
      verdict-unaffected (max limit 1) (run floats parse_ip start arrivals) ip j k b c now later
        (run-AreDistinct parse_ip arrivals start (λ i. tt))
        (run-Fits floats parse_ip (max limit 1) arrivals start (omega arith)
          (record { same_limit = refl; fits = λ i. omega arith }))
        apart hot recent cold lt
