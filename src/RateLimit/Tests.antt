-- ===== src/RateLimit/Tests.antt =====
-- src/rate_limit.rs at concrete requests: headers as proxies write them; an address is read as one of three names.
use solid_server_rs.Prelude.{
  ℕ, ◌+◌, ◌-◌, ◌*◌, ◌/◌, ◌≤◌, min, max, ltb, leb, arith, true, false, List, ◌≡◌, refl, Option, none,
  some, [], ◌∷◌, ◌++◌, Str, codes, str_eq, contains_char, split, trim, trim_start, trim_end,
  drop_while, is_whitespace, if◌then◌else◌,
}
use solid_server_rs.RateLimit.{client_ip_from_xff, resolve_client_ip}
use solid_server_rs.Collections.{get, remove, insert, retain, contains_key, evict_one}
use solid_server_rs.RateLimit.Addresses.{
  IpAddr, v4, v6, ip_key, ip_eq_iff, is_internal_ip, shard_for,
}
use solid_server_rs.RateLimit.Buckets.{
  Floats, Bucket, RateLimiter, make_room, bucket_count, set_max_buckets_per_shard, try_take, new,
  take_in, allow, rate_limit_middleware,
}
use solid_server_rs.RateLimit.Bounds.{Arrival, run, served, bucket_count-le}
use solid_server_rs.RateLimit.Fairness.{allow-unaffected}
use solid_server_rs.RateLimit.ClientIp.{appended, resolve_client_ip-appended}

abbrev parse_ip : Str → Option ℕ
parse_ip s =
    if str_eq s (codes "1.1.1.1")
    then some 1
    else if str_eq s (codes "2.2.2.2")
    then some 2
    else if str_eq s (codes "6.6.6.6")
    then some 6
    else none

resolve_client_ip-appended_example :
    (resolve_client_ip parse_ip 9
        (some (appended (codes "6.6.6.6" ++ (b',' ∷ codes " 1.1.1.1")) (codes " 2.2.2.2" ∷ [])))
        2
      ≡ 1)
    × (resolve_client_ip parse_ip 9 (some (appended (codes " 1.1.1.1") (codes " 2.2.2.2" ∷ []))) 2
        ≡ 1)
    × (resolve_client_ip parse_ip 9 (some (codes "6.6.6.6")) 0 ≡ 9)
unfolding str_eq contains_char trim trim_start trim_end drop_while is_whitespace
resolve_client_ip-appended_example =
    resolve_client_ip-appended parse_ip 9 1 (codes "6.6.6.6") (codes " 1.1.1.1")
      (codes " 2.2.2.2" ∷ []) (some (codes "6.6.6.6")) ((refl, 2, refl), tt) refl refl

-- An entry that is no address is passed over, and the next one, which the client wrote, is taken.
unreadable_entry_is_passed_over :
    resolve_client_ip parse_ip 9 (some (codes "6.6.6.6, 1.1.1.1:4711")) 1 ≡ 6
unfolding resolve_client_ip client_ip_from_xff split str_eq trim trim_start trim_end drop_while
    is_whitespace
unreadable_entry_is_passed_over = refl

-- Whole tokens and whole seconds.
abbrev floats : Floats ℕ
floats = record {
  zero = 0;
  one = 1;
  default_rate_per_ip = 500;
  default_burst = 2000;
  plus = ◌+◌;
  minus = ◌-◌;
  times = ◌*◌;
  min_of = min;
  at_least = λ a b. leb b a;
  above = λ a b. ltb b a;
  is_finite = λ a. true;
  as_secs = λ d. d / 1000000000;
}

abbrev address : ℕ → IpAddr
address n = v4 (9 ∷ 9 ∷ 9 ∷ n ∷ [])

abbrev no_address : Str → Option IpAddr
no_address s = none

abbrev arrival : ℕ → ℕ → Arrival
arrival n now = record { path = codes "/a"; peer = some (address n); xff = none; now = now }

-- These addresses share a shard.
abbrev arrivals : List Arrival
arrivals = arrival 1 1 ∷ arrival 65 2 ∷ []

abbrev limiter : RateLimiter ℕ
limiter = served floats no_address 1 1 0 true true 2 arrivals

abbrev emptied : ℕ → Bucket ℕ
emptied at = record { tokens = 0; last_refill = at; last_seen = at }

one_evicted :
    (bucket_count (allow floats limiter (address 129) 3).0 ≡ 2)
    × ((allow floats (allow floats limiter (address 129) 3).0 (address 65) 4).1 ≡ false)
    × ((allow floats (allow floats limiter (address 129) 3).0 (address 1) 4).1 ≡ true)
unfolding bucket_count allow run rate_limit_middleware resolve_client_ip set_max_buckets_per_shard
    new take_in make_room try_take shard_for is_internal_ip get insert remove retain contains_key
    evict_one str_eq
one_evicted = (refl, refl, refl)

internal_addresses :
    (is_internal_ip (v4 (172 ∷ 31 ∷ 0 ∷ 1 ∷ [])) ≡ true)
    × (is_internal_ip (v4 (172 ∷ 32 ∷ 0 ∷ 1 ∷ [])) ≡ false)
    × (is_internal_ip (v6 (0 ∷ 0 ∷ 0 ∷ 0 ∷ 0 ∷ 0 ∷ 0 ∷ 0 ∷ 0 ∷ 0 ∷ 255 ∷ 255 ∷ 10 ∷ 0 ∷ 0 ∷ 1 ∷ []))
        ≡ true)
    × (is_internal_ip (v6 (254 ∷ 128 ∷ 0 ∷ 0 ∷ 0 ∷ 0 ∷ 0 ∷ 0 ∷ 0 ∷ 0 ∷ 0 ∷ 0 ∷ 0 ∷ 0 ∷ 0 ∷ 1 ∷ []))
        ≡ true)
unfolding is_internal_ip str_eq
internal_addresses = (refl, refl, refl, refl)

bucket_count-le_example : bucket_count limiter ≤ 64 * max 2 1
bucket_count-le_example = bucket_count-le floats no_address 1 1 0 true true 2 arrivals

has_bucket :
    (get (address 65) (limiter.shards (shard_for (address 65))) ≡ some (emptied 2))
    × (get (address 1) (limiter.shards (shard_for (address 65))) ≡ some (emptied 1))
unfolding allow run rate_limit_middleware resolve_client_ip set_max_buckets_per_shard new take_in
    make_room try_take shard_for is_internal_ip get insert remove retain contains_key evict_one
    str_eq
has_bucket = (refl, refl)

allow-unaffected_example :
    (allow floats (allow floats limiter (address 129) 3).0 (address 65) 4).1
    ≡ (allow floats limiter (address 65) 4).1
unfolding str_eq
allow-unaffected_example =
    allow-unaffected floats no_address 1 1 0 true true 2 arrivals (address 129) (address 65)
      (address 1) (emptied 2) (emptied 1) 3 4 (λ e. cc ((ip_eq_iff _ _).1 e)) has_bucket.0
      (omega arith) has_bucket.1 (omega arith)
