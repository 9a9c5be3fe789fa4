-- ===== src/RateLimit/Hot.antt =====
-- src/rate_limit.rs: new addresses do not reset the bucket of an address that is seen more often.
use solid_server_rs.Prelude.{
  ℕ, ◌≤◌, ◌<◌, ltb, leb, ◌==◌, ◌≡◌, ◌≢◌, refl, inl, inr, true, false, not, ◌&&◌, some, length,
  if◌then◌else◌, Bool-cases, Option-cases,
}
use solid_server_rs.Collections.{get, insert, retain, contains_key, evict_one, min_by_key}
use solid_server_rs.Collections.Laws.{get-insert, contains_of_get}
use solid_server_rs.Collections.Distinct.{
  IsDistinct, remove-IsDistinct, insert-IsDistinct, retain-IsDistinct,
}
use solid_server_rs.RateLimit.Addresses.{IpAddr, ip_key, ip_eq_iff, shard_for}
use solid_server_rs.RateLimit.Buckets.{
  Floats, Bucket, Shard, RateLimiter, is_recent, make_room, sweep, bucket_or, new_bucket, try_take,
  take_in, is_exempt, allow,
}
use solid_server_rs.RateLimit.Evicting.{make_room-keeps, sweep-keeps}

module _ {F : Type 0} where
  evict_one-IsDistinct :
      (rank : Bucket F → ℕ) (m : Shard F) → IsDistinct m → IsDistinct (evict_one rank m)
  unfolding evict_one
  evict_one-IsDistinct rank m d = elim (Option-cases (min_by_key rank m)) [
    | inl empty ↦ rw (empty, evict_one) d
    | inr (e, found) ↦ rw (found, evict_one) (remove-IsDistinct e.0 m d)
  ]

  make_room-IsDistinct :
      (limit : ℕ) (ip : IpAddr) (now : ℕ) (m : Shard F)
      → IsDistinct m
      → IsDistinct (make_room limit ip now m)
  unfolding make_room
  make_room-IsDistinct limit ip now m d =
      let kept = retain (is_recent now) m in
      let d' = retain-IsDistinct (is_recent now) m d in
      elim (Bool-cases (leb limit (length m) && not (contains_key ip m))) [
        | inr room ↦ rw room d
        | inl full ↦ rw full (elim (Bool-cases (leb limit (length kept))) [
          | inr freed ↦ rw freed d'
          | inl still ↦ rw still (evict_one-IsDistinct (λ x. x.last_seen) kept d')
        ])
      ]

  sweep-IsDistinct : (now : ℕ) (m : Shard F) → IsDistinct m → IsDistinct (sweep now m)
  sweep-IsDistinct now m d = elim (Bool-cases (ltb 1024 (length m))) [
    | inl y ↦ rw y (retain-IsDistinct (is_recent now) m d)
    | inr n ↦ rw n d
  ]

  abbrev pub AreDistinct : RateLimiter F → Type 0
  AreDistinct l = (i : ℕ) → IsDistinct (l.shards i)

  module _ (floats : Floats F) where
    take_in-IsDistinct :
        (l : RateLimiter F) (ip : IpAddr) (now : ℕ) (m : Shard F)
        → IsDistinct m
        → IsDistinct (take_in floats l ip now m).0
    unfolding take_in
    take_in-IsDistinct l ip now m d =
        let room = make_room l.max_buckets_per_shard ip now m in
        let bucket =
          (try_take floats l.rate l.capacity now
            (bucket_or (new_bucket floats l.capacity now) (get ip room))).0 in
        sweep-IsDistinct now (insert ip bucket room) (
          insert-IsDistinct ip bucket room
            (make_room-IsDistinct l.max_buckets_per_shard ip now m d))

    pub allow-AreDistinct :
        (l : RateLimiter F) (ip : IpAddr) (now : ℕ)
        → AreDistinct l
        → AreDistinct (allow floats l ip now).0
    unfolding allow
    allow-AreDistinct l ip now d i = elim (Bool-cases (is_exempt l ip)) [
      | inl free ↦ rw free (d i)
      | inr counted ↦ rw counted (elim (Bool-cases (shard_for ip == i)) [
        | inl here ↦
            rw here (take_in-IsDistinct l ip now (l.shards (shard_for ip)) (d (shard_for ip)))
        | inr other ↦ rw other (d i)
      ])
    ]

    pub take_in-keeps :
        (l : RateLimiter F) (ip j k : IpAddr) (b c : Bucket F) (now : ℕ) (m : Shard F)
        → ip ≢ j
        → IsDistinct m
        → length m ≤ l.max_buckets_per_shard
        → get j m ≡ some b
        → is_recent now b ≡ true
        → get k m ≡ some c
        → c.last_seen < b.last_seen
        → get j (take_in floats l ip now m).0 ≡ some b
    unfolding take_in
    take_in-keeps l ip j k b c now m apart d fits hot recent cold lt =
        let limit = l.max_buckets_per_shard in
        let room = make_room limit ip now m in
        let bucket =
          (try_take floats l.rate l.capacity now
            (bucket_or (new_bucket floats l.capacity now) (get ip room))).0 in
        let there = make_room-keeps limit ip j k b c now m d fits hot recent cold lt in
        let other : ip_key.beq ip j ≡ false = elim (Bool-cases (ip_key.beq ip j)) [
          | inl y ↦ absurd (apart ((ip_eq_iff ip j).0 y))
          | inr n ↦ n
        ] in
        sweep-keeps j b now (insert ip bucket room)
          (insert-IsDistinct ip bucket room (make_room-IsDistinct limit ip now m d))
          (rw (get-insert ip j bucket room, other) there) recent

    -- The verdict on an address that has a bucket depends on this bucket alone.
    pub allow-verdict :
        (l : RateLimiter F) (j : IpAddr) (b : Bucket F) (now : ℕ)
        → get j (l.shards (shard_for j)) ≡ some b
        → (allow floats l j now).1
          ≡ (if is_exempt l j then true else (try_take floats l.rate l.capacity now b).1)
    unfolding allow take_in make_room
    allow-verdict l j b now h =
        let m = l.shards (shard_for j) in
        let present = contains_of_get j m b h in
        elim (Bool-cases (is_exempt l j)) [
          | inl free ↦ rw free refl
          | inr counted ↦ rw counted (elim (Bool-cases (leb l.max_buckets_per_shard (length m))) [
            | inl full ↦ rw (full, present, h) refl
            | inr room ↦ rw (room, h) refl
          ])
        ]
