-- ===== src/Authz/WacAllow.antt =====
-- src/authz/wac_allow.rs: the `WAC-Allow` header.
pub mod Parsing
use solid_server_rs.Prelude.{Bool, true, false, List, [], ◌∷◌, ◌++◌, Str, codes, map, if◌then◌else◌}
use solid_server_rs.Authz.Mode.{AccessMode, read, write, append, control, token, ModeSet, contains}
use solid_server_rs.Authz.Wac.{EffectivePermissions}

abbrev pub canonical_order : List AccessMode
canonical_order = read ∷ write ∷ append ∷ control ∷ []

-- `iter().filter(…)`
unfoldable pub held : ModeSet → List AccessMode → List AccessMode
held modes [] = []
held modes (m ∷ ms) = let rest = held modes ms in if contains modes m then m ∷ rest else rest

-- `join(" ")`
unfoldable pub join : List Str → Str
join [] = []
join (t ∷ []) = t
join (t ∷ u ∷ ts) = t ++ b' ' ∷ join (u ∷ ts)

unfoldable pub serialise_modes : ModeSet → Str
unfolding held join token
serialise_modes modes = join (map token (held modes canonical_order))

unfoldable pub wac_allow_header : EffectivePermissions → Str
unfolding serialise_modes
wac_allow_header perms =
    codes "user=\""
    ++ (serialise_modes perms.user
        ++ (codes "\",public=\"" ++ (serialise_modes perms.public ++ codes "\"")))
