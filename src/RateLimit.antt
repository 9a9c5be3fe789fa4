-- ===== src/RateLimit.antt =====
-- src/rate_limit.rs: the address that a request is counted under; the limiter in the children.
pub mod ClientIp
pub mod Addresses
pub mod Buckets
pub mod Bounds
pub mod Evicting
pub mod Hot
pub mod Fairness
mod Tests
use solid_server_rs.Prelude.{
  ℕ, ◌-◌, Option, none, some, List, Str, split, trim, reverse, get_elem?, filter_map, if◌then◌else◌,
  ◌==◌,
}

-- `parse_ip` is `str::parse::<IpAddr>` of the standard library.
module _ {IpAddr : Type 0} (parse_ip : Str → Option IpAddr) where
  unfoldable pub client_ip_from_xff : Str → ℕ → Option IpAddr
  client_ip_from_xff xff trusted_proxy_hops =
      let ips = filter_map (λ tok. parse_ip (trim tok)) (reverse (split b',' xff)) in
      if trusted_proxy_hops == 0 then none else get_elem? ips (trusted_proxy_hops - 1)

  abbrev or_peer : IpAddr → Option IpAddr → IpAddr
  or_peer peer none = peer
  or_peer peer (some ip) = ip

  abbrev from_header : Option Str → ℕ → Option IpAddr
  from_header none hops = none
  from_header (some h) hops = client_ip_from_xff h hops

  unfoldable pub resolve_client_ip : IpAddr → Option Str → ℕ → IpAddr
  unfolding client_ip_from_xff
  resolve_client_ip peer xff trusted_proxy_hops =
      if trusted_proxy_hops == 0 then peer else or_peer peer (from_header xff trusted_proxy_hops)
