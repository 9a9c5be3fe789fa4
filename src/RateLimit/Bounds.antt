-- ===== src/RateLimit/Bounds.antt =====
-- src/rate_limit.rs: how many buckets there are, after any requests.
use solid_server_rs.Prelude.{
  ℕ, zero, suc, ◌+◌, ◌*◌, ◌≤◌, ◌<◌, max, ltb, leb, ◌==◌, ◌≡◌, ◌⊎◌, refl, inl, inr, Bool, true,
  false, Option, none, some, List, [], ◌∷◌, Str, length, if◌then◌else◌, arith, Bool-cases,
}
use solid_server_rs.Collections.{get, insert, retain, contains_key, evict_one}
use solid_server_rs.Collections.Laws.{
  length-retain-le, length-remove-le, length-remove-lt, length-evict_one-lt,
}
use solid_server_rs.RateLimit.Addresses.{IpAddr, ip_key, shard_for}
use solid_server_rs.RateLimit.Buckets.{
  Floats, Bucket, Shard, RateLimiter, is_recent, make_room, sweep, bucket_or, count_below,
  bucket_count, set_max_buckets_per_shard, new_bucket, try_take, new, take_in, is_exempt, allow,
  is_probe, concluded, from_peer, rate_limit_middleware,
}
use solid_server_rs.RateLimit.{resolve_client_ip}

-- a request as the middleware sees it
pub record Arrival : Type 0 where
  pub path : Str
  pub peer : Option IpAddr
  pub xff : Option Str
  pub now : ℕ

module _ {F : Type 0} where
  -- After the call there is one entry more, unless the key was there.
  length-insert-le :
      (limit : ℕ) (ip : IpAddr) (b : Bucket F) (m : Shard F)
      → length m ≤ limit
      → (length m < limit) ⊎ (contains_key ip m ≡ true)
      → length (insert ip b m) ≤ limit
  unfolding insert
  length-insert-le limit ip b m fits (inl free) = omega (arith, length-remove-le ip m, free)
  length-insert-le limit ip b m fits (inr there) = omega (arith, length-remove-lt ip m there, fits)

  evicted-lt :
      (limit : ℕ) (m : Shard F)
      → 0 < limit
      → length m ≤ limit
      → (length (if leb limit (length m) then evict_one (λ b. b.last_seen) m else m) < limit)
  evicted-lt limit [] positive fits = ground arith
  evicted-lt limit (e ∷ m) positive fits = elim (Bool-cases (leb limit (length (e ∷ m)))) [
    | inl full ↦
        rw full
          (omega (arith, length-evict_one-lt (λ b. b.last_seen) (e ∷ m) (λ h. absurd (cc h)), fits))
    | inr room ↦ rw room (ground arith)
  ]

  make_room-fits :
      (limit : ℕ) (ip : IpAddr) (now : ℕ) (m : Shard F)
      → 0 < limit
      → length m ≤ limit
      → (length (make_room limit ip now m) ≤ limit)
        × ((length (make_room limit ip now m) < limit)
            ⊎ (contains_key ip (make_room limit ip now m) ≡ true))
  unfolding make_room
  make_room-fits limit ip now m positive fits = elim (Bool-cases (leb limit (length m))) [
    | inr room ↦ let free : length m < limit = ground arith in rw room (fits, inl free)
    | inl full ↦ elim (Bool-cases (contains_key ip m)) [
      | inl there ↦ rw (full, there) (fits, inr there)
      | inr absent ↦
          let kept = retain (is_recent now) m in
          let lt =
            evicted-lt limit kept positive
              (omega (arith, length-retain-le (is_recent now) m, fits)) in
          rw (full, absent) (omega (arith, lt), inl lt)
    ]
  ]

  length-sweep-le : (now : ℕ) (m : Shard F) → length (sweep now m) ≤ length m
  length-sweep-le now m = elim (Bool-cases (ltb 1024 (length m))) [
    | inl y ↦ rw y (length-retain-le (is_recent now) m)
    | inr n ↦ rw n (omega arith)
  ]

  -- every shard has at most as many buckets as the limiter says, and the limit is `limit`
  pub record Fits (limit : ℕ) (l : RateLimiter F) : Type 0 where
    pub same_limit : l.max_buckets_per_shard ≡ limit
    pub fits : (i : ℕ) → length (l.shards i) ≤ limit

  count_below-le :
      (limit n : ℕ) (shards : ℕ → Shard F)
      → ((i : ℕ) → length (shards i) ≤ limit)
      → count_below n shards ≤ n * limit
  count_below-le limit zero shards h = omega arith
  count_below-le limit (suc n) shards h =
      let rest = count_below-le limit n shards h in
      let last = h n in
      let step : suc n * limit ≡ n * limit + limit = ground arith in omega (arith, rest, last, step)

  concluded-Fits :
      (limit : ℕ) (l : RateLimiter F) (allowed : Bool)
      → Fits limit l
      → Fits limit (concluded (l, allowed)).0
  concluded-Fits limit l true f = f
  concluded-Fits limit l false f = record { same_limit = f.same_limit; fits = f.fits }

  module _ (floats : Floats F) where
    take_in-fits :
        (limit : ℕ) (l : RateLimiter F) (ip : IpAddr) (now : ℕ) (m : Shard F)
        → 0 < limit
        → l.max_buckets_per_shard ≡ limit
        → length m ≤ limit
        → length (take_in floats l ip now m).0 ≤ limit
    unfolding take_in
    take_in-fits limit l ip now m positive same fits =
        let room = make_room l.max_buckets_per_shard ip now m in
        let bucket =
          (try_take floats l.rate l.capacity now
            (bucket_or (new_bucket floats l.capacity now) (get ip room))).0 in
        let (small, free) =
          make_room-fits l.max_buckets_per_shard ip now m (rw same positive) (rw same fits) in
        let grown = length-insert-le l.max_buckets_per_shard ip bucket room small free in
        omega (arith, length-sweep-le now (insert ip bucket room), grown, same)

    allow-Fits :
        (limit : ℕ) (l : RateLimiter F) (ip : IpAddr) (now : ℕ)
        → 0 < limit
        → Fits limit l
        → Fits limit (allow floats l ip now).0
    unfolding allow
    allow-Fits limit l ip now positive f = elim (Bool-cases (is_exempt l ip)) [
      | inl free ↦ rw free f
      | inr counted ↦ rw counted (record {
        same_limit = f.same_limit;
        fits = λ i. elim (Bool-cases (shard_for ip == i)) [
          | inl here ↦ rw here (
              take_in-fits limit l ip now (l.shards (shard_for ip)) positive f.same_limit
                (f.fits (shard_for ip)))
          | inr other ↦ rw other (f.fits i)
        ];
      })
    ]

    from_peer-Fits :
        (parse_ip : Str → Option IpAddr) (limit : ℕ) (l : RateLimiter F) (peer : Option IpAddr)
        (xff : Option Str) (now : ℕ)
        → 0 < limit
        → Fits limit l
        → Fits limit (from_peer floats parse_ip l peer xff now).0
    from_peer-Fits parse_ip limit l none xff now positive f = f
    from_peer-Fits parse_ip limit l (some peer) xff now positive f =
        let ip = resolve_client_ip parse_ip peer xff l.trusted_proxy_hops in
        let (l', allowed) = allow floats l ip now in
        concluded-Fits limit l' allowed (allow-Fits limit l ip now positive f)

    -- the limiter after requests in the order in which they take the lock
    unfoldable pub run : (Str → Option IpAddr) → RateLimiter F → List Arrival → RateLimiter F
    run parse_ip l [] = l
    run parse_ip l (a ∷ arrivals) =
        run parse_ip (rate_limit_middleware floats parse_ip l a.path a.peer a.xff a.now).0 arrivals

    pub run-Fits :
        (parse_ip : Str → Option IpAddr) (limit : ℕ) (arrivals : List Arrival) (l : RateLimiter F)
        → 0 < limit
        → Fits limit l
        → Fits limit (run parse_ip l arrivals)
    unfolding run rate_limit_middleware
    run-Fits parse_ip limit [] l positive f = f
    run-Fits parse_ip limit (a ∷ arrivals) l positive f =
        run-Fits parse_ip limit arrivals _ positive (elim (Bool-cases (is_probe a.path)) [
          | inl probe ↦ rw probe f
          | inr request ↦ rw request (from_peer-Fits parse_ip limit l a.peer a.xff a.now positive f)
        ])

    -- a new limiter with this limit of a shard, after these requests
    abbrev pub served :
        (Str → Option IpAddr) → F → F → ℕ → Bool → Bool → ℕ → List Arrival → RateLimiter F
    served parse_ip rate capacity hops exempt_loopback exempt_internal limit arrivals =
        run parse_ip
          (set_max_buckets_per_shard limit
            (new floats rate capacity hops exempt_loopback exempt_internal))
          arrivals

    -- After any requests to a new limiter, whatever their addresses, there are at most as many buckets
    -- as the limit of a shard (at least 1) allows in 64 shards.
    pub bucket_count-le :
        (parse_ip : Str → Option IpAddr) (rate capacity : F) (hops : ℕ)
        (exempt_loopback exempt_internal : Bool) (limit : ℕ) (arrivals : List Arrival)
        → bucket_count
            (served parse_ip rate capacity hops exempt_loopback exempt_internal limit arrivals)
          ≤ 64 * max limit 1
    unfolding bucket_count set_max_buckets_per_shard new
    bucket_count-le parse_ip rate capacity hops exempt_loopback exempt_internal limit arrivals =
        let start =
          set_max_buckets_per_shard limit
            (new floats rate capacity hops exempt_loopback exempt_internal) in
        let f =
          run-Fits parse_ip (max limit 1) arrivals start (omega arith)
            (record { same_limit = refl; fits = λ i. omega arith }) in
        count_below-le (max limit 1) 64 (run parse_ip start arrivals).shards f.fits
