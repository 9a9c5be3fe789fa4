-- ===== src/RateLimit/Buckets.antt =====
-- src/rate_limit.rs: the buckets of the addresses, their shards, and the middleware. The numbers of
-- type `f64` and their operations are a parameter. Instants are natural numbers (nanoseconds), and a
-- duration between two of them stops at 0. The shards are a function of the index; a lock that a
-- panic has poisoned is entered all the same.
use solid_server_rs.Prelude.{
  ℕ, zero, suc, ◌+◌, ◌-◌, ◌%◌, ◌^◌, max, ltb, leb, ◌==◌, Bool, true, false, not, ◌&&◌, ◌||◌, Option,
  none, some, [], Str, codes, str_eq, length, if◌then◌else◌,
}
use solid_server_rs.Collections.{HashMap, get, insert, retain, contains_key, evict_one}
use solid_server_rs.RateLimit.{resolve_client_ip}
use solid_server_rs.RateLimit.Addresses.{
  IpAddr, ip_key, is_loopback, is_internal_ip, num_shards, shard_for,
}

-- `f64`, as far as the limiter uses it
pub record Floats (F : Type 0) : Type 0 where
  pub zero : F
  pub one : F
  pub default_rate_per_ip : F
  pub default_burst : F
  pub plus : F → F → F
  pub minus : F → F → F
  pub times : F → F → F
  pub min_of : F → F → F
  pub at_least : F → F → Bool
  pub above : F → F → Bool
  pub is_finite : F → Bool
  pub as_secs : ℕ → F

pub record Bucket (F : Type 0) : Type 0 where
  pub tokens : F
  pub last_refill : ℕ
  pub last_seen : ℕ

abbrev pub idle_ttl : ℕ
idle_ttl = 600000000000

abbrev pub max_buckets_per_shard_default : ℕ
max_buckets_per_shard_default = 8192

abbrev pub Shard : Type 0 → Type 0
Shard F = HashMap IpAddr (Bucket F)

pub record RateLimiter (F : Type 0) : Type 0 where
  pub shards : ℕ → Shard F
  pub rate : F
  pub capacity : F
  pub trusted_proxy_hops : ℕ
  pub exempt_loopback : Bool
  pub exempt_internal : Bool
  pub max_buckets_per_shard : ℕ
  pub limited_total : ℕ

pub data Outcome : Type 0 where
  passed_on : Outcome
  rate_limited : Outcome

abbrev pub is_probe : Str → Bool
is_probe path = str_eq path (codes "/livez") || str_eq path (codes "/readyz")

module _ {F : Type 0} where
  abbrev pub is_recent : ℕ → Bucket F → Bool
  is_recent now b = ltb (now - b.last_seen) idle_ttl

  -- room for a new address in a full shard
  unfoldable pub make_room : ℕ → IpAddr → ℕ → Shard F → Shard F
  make_room limit ip now m =
      let kept = retain (is_recent now) m in
      if leb limit (length m) && not (contains_key ip m)
      then (if leb limit (length kept) then evict_one (λ b. b.last_seen) kept else kept)
      else m

  abbrev pub sweep : ℕ → Shard F → Shard F
  sweep now m = if ltb 1024 (length m) then retain (is_recent now) m else m

  abbrev pub bucket_or : Bucket F → Option (Bucket F) → Bucket F
  bucket_or b none = b
  bucket_or b (some c) = c

  -- the value of the map of shards at one index replaced
  abbrev pub with_shard : ℕ → Shard F → (ℕ → Shard F) → ℕ → Shard F
  with_shard index m shards i = if index == i then m else shards i

  abbrev pub count_below : ℕ → (ℕ → Shard F) → ℕ
  count_below zero shards = 0
  count_below (suc n) shards = count_below n shards + length (shards n)

  unfoldable pub bucket_count : RateLimiter F → ℕ
  bucket_count l = count_below num_shards l.shards

  unfoldable pub set_max_buckets_per_shard : ℕ → RateLimiter F → RateLimiter F
  set_max_buckets_per_shard limit l = record l { max_buckets_per_shard = max limit 1 }

  abbrev pub is_exempt : RateLimiter F → IpAddr → Bool
  is_exempt l ip = (l.exempt_internal && is_internal_ip ip) || (l.exempt_loopback && is_loopback ip)

  abbrev pub concluded : RateLimiter F × Bool → RateLimiter F × Outcome
  concluded (l, true) = (l, passed_on)
  concluded (l, false) = (record l { limited_total = (l.limited_total + 1) % 2 ^ 64 }, rate_limited)

  module _ (floats : Floats F) where
    abbrev pub new_bucket : F → ℕ → Bucket F
    new_bucket capacity now = record { tokens = capacity; last_refill = now; last_seen = now }

    abbrev pub spend : ℕ → F → Bucket F × Bool
    spend now tokens =
        if floats.at_least tokens floats.one
        then (
          record { tokens = floats.minus tokens floats.one; last_refill = now; last_seen = now },
          true,
        )
        else (record { tokens = tokens; last_refill = now; last_seen = now }, false)

    unfoldable pub try_take : F → F → ℕ → Bucket F → Bucket F × Bool
    try_take rate capacity now b =
        let elapsed = floats.as_secs (now - b.last_refill) in
        spend now (floats.min_of (floats.plus b.tokens (floats.times elapsed rate)) capacity)

    unfoldable pub new : F → F → ℕ → Bool → Bool → RateLimiter F
    new rate capacity trusted_proxy_hops exempt_loopback exempt_internal = record {
      shards = λ i. [];
      rate =
          if floats.is_finite rate && floats.above rate floats.zero
          then rate
          else floats.default_rate_per_ip;
      capacity =
          if floats.is_finite capacity && floats.at_least capacity floats.one
          then capacity
          else floats.default_burst;
      trusted_proxy_hops = trusted_proxy_hops;
      exempt_loopback = exempt_loopback;
      exempt_internal = exempt_internal;
      max_buckets_per_shard = max_buckets_per_shard_default;
      limited_total = 0;
    }

    -- `allow` under the lock of the shard
    unfoldable pub take_in : RateLimiter F → IpAddr → ℕ → Shard F → Shard F × Bool
    take_in l ip now m =
        let room = make_room l.max_buckets_per_shard ip now m in
        let (bucket, allowed) =
          try_take l.rate l.capacity now (bucket_or (new_bucket l.capacity now) (get ip room)) in
        (sweep now (insert ip bucket room), allowed)

    unfoldable pub allow : RateLimiter F → IpAddr → ℕ → RateLimiter F × Bool
    allow l ip now =
        let index = shard_for ip in
        let (m, allowed) = take_in l ip now (l.shards index) in
        if is_exempt l ip
        then (l, true)
        else (record l { shards = with_shard index m l.shards }, allowed)

    abbrev pub from_peer :
        (Str → Option IpAddr)
        → RateLimiter F
        → Option IpAddr
        → Option Str
        → ℕ
        → RateLimiter F × Outcome
    from_peer parse_ip l none xff now = (l, passed_on)
    from_peer parse_ip l (some peer) xff now =
        concluded (allow l (resolve_client_ip parse_ip peer xff l.trusted_proxy_hops) now)

    -- `peer` is the address of the connection, and `xff` the header as text, where they are there
    unfoldable pub rate_limit_middleware :
        (Str → Option IpAddr)
        → RateLimiter F
        → Str
        → Option IpAddr
        → Option Str
        → ℕ
        → RateLimiter F × Outcome
    rate_limit_middleware parse_ip l path peer xff now =
        if is_probe path then (l, passed_on) else from_peer parse_ip l peer xff now
