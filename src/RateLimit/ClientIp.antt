-- ===== src/RateLimit/ClientIp.antt =====
-- src/rate_limit.rs: a client cannot choose the address that it is counted under.
use mathlib.Core.List.{reverse-append}
use solid_server_rs.Prelude.{
  suc, ◌-◌, ◌≡◌, refl, ap, ◌∙◌, false, Option, some, List, [], ◌∷◌, ◌++◌, Str, All, length, split,
  split-append, split-whole, contains_char, trim, reverse, get_elem?, get_elem?-append, filter_map,
  arith, ◌==◌,
}
use solid_server_rs.RateLimit.{client_ip_from_xff, resolve_client_ip, or_peer}

-- The header after proxies have added what they saw, the last one first in the list.
unfoldable pub appended : Str → List Str → Str
appended sent [] = sent
appended sent (entry ∷ entries) = appended sent entries ++ (b',' ∷ entry)

module _ {IpAddr : Type 0} (parse_ip : Str → Option IpAddr) where
  -- An address that a proxy wrote.
  abbrev pub IsEntry : Str → Type 0
  IsEntry entry =
      (contains_char b',' entry ≡ false) × (ip : IpAddr) × (parse_ip (trim entry) ≡ some ip)

  abbrev read : List Str → List IpAddr
  read toks = filter_map (λ tok. parse_ip (trim tok)) toks

  reverse-split-appended :
      (header entry : Str)
      → contains_char b',' entry ≡ false
      → reverse (split b',' (header ++ (b',' ∷ entry))) ≡ entry ∷ reverse (split b',' header)
  reverse-split-appended header entry h =
      ap reverse (
        split-append b',' header entry
        ∙ ap (λ l. split b',' header ++ l) (split-whole b',' entry h))
      ∙ reverse-append (split b',' header) (entry ∷ [])

  -- from the right, the proxies' addresses come first
  read-appended :
      (sent : Str) (entries : List Str)
      → All IsEntry entries
      → (ips : List IpAddr) × (length ips ≡ length entries)
        × (read (reverse (split b',' (appended sent entries)))
            ≡ ips ++ read (reverse (split b',' sent)))
  unfolding appended
  read-appended sent [] h = ([], refl, refl)
  read-appended sent (entry ∷ entries) ((no_comma, ip, parsed), h) =
      let (ips, same, rest) = read-appended sent entries h in
      (
        ip ∷ ips,
        ap suc same,
        ap read (reverse-split-appended (appended sent entries) entry no_comma)
            ∙ rw parsed (ap (λ l. ip ∷ l) rest),
      )

  behind-appended :
      (peer client : IpAddr) (text : Str) (rest : List IpAddr) (proxies : List Str)
      → All IsEntry proxies
      → read (reverse (split b',' text)) ≡ client ∷ rest
      → resolve_client_ip parse_ip peer (some (appended text proxies)) (suc (length proxies))
        ≡ client
  unfolding resolve_client_ip client_ip_from_xff
  behind-appended peer client text rest proxies h e =
      let (ips, same, whole) = read-appended text proxies h in
      let some_hop : (suc (length proxies) == 0) ≡ false = ground arith in
      let index : suc (length proxies) - 1 ≡ length ips = omega (arith, same) in
      let found : get_elem? (read (reverse (split b',' (appended text proxies))))
            (suc (length proxies) - 1)
          ≡ some client =
        rw (whole, e, index) (get_elem?-append ips client rest) in
      rw some_hop (ap (or_peer parse_ip peer) found)

  -- Where each of the trusted proxies appends one entry that has no comma and is read as an address,
  -- the address is the one that the outermost of them wrote, whatever the client sent in the header
  -- before it; and with none trusted the header has no say.
  pub resolve_client_ip-appended :
      (peer client : IpAddr) (sent seen : Str) (proxies : List Str) (xff : Option Str)
      → All IsEntry proxies
      → contains_char b',' seen ≡ false
      → parse_ip (trim seen) ≡ some client
      → (resolve_client_ip parse_ip peer
            (some (appended (sent ++ (b',' ∷ seen)) proxies))
            (suc (length proxies))
          ≡ client)
        × (resolve_client_ip parse_ip peer (some (appended seen proxies)) (suc (length proxies))
            ≡ client)
        × (resolve_client_ip parse_ip peer xff 0 ≡ peer)
  unfolding resolve_client_ip
  resolve_client_ip-appended peer client sent seen proxies xff h no_comma parsed = (
    behind-appended peer client (sent ++ (b',' ∷ seen)) (read (reverse (split b',' sent))) proxies h
        (ap read (reverse-split-appended sent seen no_comma) ∙ rw parsed refl),
    behind-appended peer client seen [] proxies h
        (ap (λ l. read (reverse l)) (split-whole b',' seen no_comma) ∙ rw parsed refl),
    refl,
  )
