-- ===== src/RateLimit/Addresses.antt =====
-- src/rate_limit.rs: addresses, those that are internal, and the shard of an address. An address of
-- the standard library is the list of its octets, four or sixteen.
use Prim.Native.Nat.{bit_xor}
use solid_server_rs.Prelude.{
  ℕ, ◌*◌, ◌/◌, ◌%◌, ◌^◌, leb, ◌==◌, ◌≡◌, ◌↔◌, ap, Bool, true, false, ◌&&◌, ◌||◌, List, [], ◌∷◌,
  str_eq, str_eq_iff, if◌then◌else◌,
}
use solid_server_rs.Collections.{Eq}

pub data IpAddr : Type 0 where
  v4 : List ℕ → IpAddr
  v6 : List ℕ → IpAddr

abbrev pub octets : IpAddr → List ℕ
octets (v4 o) = o
octets (v6 o) = o

-- `Ipv4Addr::is_loopback`, `is_private` and `is_link_local` of the standard library
abbrev pub is_loopback_v4 : List ℕ → Bool
is_loopback_v4 (a ∷ o) = a == 127
is_loopback_v4 [] = false

abbrev pub is_private : List ℕ → Bool
is_private (a ∷ b ∷ o) =
    (a == 10) || ((a == 172) && (leb 16 b && leb b 31)) || ((a == 192) && (b == 168))
is_private o = false

abbrev pub is_link_local : List ℕ → Bool
is_link_local (a ∷ b ∷ o) = (a == 169) && (b == 254)
is_link_local o = false

-- `Ipv6Addr::is_loopback`
abbrev pub is_loopback_v6 : List ℕ → Bool
is_loopback_v6 o = str_eq o (0 ∷ 0 ∷ 0 ∷ 0 ∷ 0 ∷ 0 ∷ 0 ∷ 0 ∷ 0 ∷ 0 ∷ 0 ∷ 0 ∷ 0 ∷ 0 ∷ 0 ∷ 1 ∷ [])

abbrev pub is_loopback : IpAddr → Bool
is_loopback (v4 o) = is_loopback_v4 o
is_loopback (v6 o) = is_loopback_v6 o

unfoldable pub is_internal_v4 : List ℕ → Bool
is_internal_v4 o = is_loopback_v4 o || is_private o || is_link_local o

-- the two segments before the address of version 4 that `to_ipv4` finds at the end
abbrev pub is_embedding : List ℕ → Bool
is_embedding o =
    str_eq o (0 ∷ 0 ∷ 0 ∷ 0 ∷ 0 ∷ 0 ∷ 0 ∷ 0 ∷ 0 ∷ 0 ∷ 0 ∷ 0 ∷ [])
    || str_eq o (0 ∷ 0 ∷ 0 ∷ 0 ∷ 0 ∷ 0 ∷ 0 ∷ 0 ∷ 0 ∷ 0 ∷ 255 ∷ 255 ∷ [])

-- The masks of the first segment keep its first seven or its first ten bits.
abbrev pub is_internal_v6 : List ℕ → Bool
is_internal_v6 (a ∷ b ∷ c ∷ d ∷ e ∷ f ∷ g ∷ h ∷ i ∷ j ∷ k ∷ l ∷ rest) =
    let embedded = a ∷ b ∷ c ∷ d ∷ e ∷ f ∷ g ∷ h ∷ i ∷ j ∷ k ∷ l ∷ [] in
    if is_embedding embedded
    then is_internal_v4 rest
    else (a / 2 == 126) || ((a == 254) && (b / 64 == 2))
is_internal_v6 o = false

unfoldable pub is_internal_ip : IpAddr → Bool
unfolding is_internal_v4
is_internal_ip (v4 o) = is_internal_v4 o
is_internal_ip (v6 o) = if is_loopback_v6 o then true else is_internal_v6 o

abbrev pub num_shards : ℕ
num_shards = 64

abbrev pub hash_octets : ℕ → List ℕ → ℕ
hash_octets hash [] = hash
hash_octets hash (b ∷ o) = hash_octets ((bit_xor hash b * 1099511628211) % 2 ^ 64) o

-- the index of the shard
unfoldable pub shard_for : IpAddr → ℕ
shard_for ip = hash_octets 14695981039346656037 (octets ip) % num_shards

abbrev pub ip_eq : IpAddr → IpAddr → Bool
ip_eq (v4 o) (v4 p) = str_eq o p
ip_eq (v6 o) (v6 p) = str_eq o p
ip_eq a b = false

pub ip_eq_iff : (a b : IpAddr) → (ip_eq a b ≡ true) ↔ (a ≡ b)
ip_eq_iff (v4 o) (v4 p) = (λ h. ap v4 ((str_eq_iff o p).0 h), λ h. (str_eq_iff o p).1 (ap octets h))
ip_eq_iff (v6 o) (v6 p) = (λ h. ap v6 ((str_eq_iff o p).0 h), λ h. (str_eq_iff o p).1 (ap octets h))
ip_eq_iff (v4 o) (v6 p) = (λ h. absurd (cc h), λ h. absurd (cc h))
ip_eq_iff (v6 o) (v4 p) = (λ h. absurd (cc h), λ h. absurd (cc h))

instance abbrev pub ip_key : Eq IpAddr
ip_key = record { beq = ip_eq; beq_iff = ip_eq_iff }
