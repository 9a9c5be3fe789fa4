-- ===== src/Authz/WacAllow/Parsing.antt =====
-- src/authz/wac_allow.rs: a client reads back from the header what the server put into it.
use solid_server_rs.Prelude.{
  ◌≡◌, refl, ap, ◌≡⟨◌⟩◌, ◌∎, Bool, true, false, Option, none, some, [], ◌++◌, Str, codes, any,
  split, split_once, split_once-append, strip_prefix, strip_prefix-append, str_eq, contains_char,
}
use solid_server_rs.Authz.Mode.{AccessMode, read, write, append, control, token, ModeSet}
use solid_server_rs.Authz.Wac.{EffectivePermissions}
use solid_server_rs.Authz.WacAllow.{serialise_modes, wac_allow_header}

-- A reader of one group: the tokens between spaces, in any order.
pub parse_modes : Str → ModeSet
parse_modes s =
    let tokens = split b' ' s in
    let has : AccessMode → Bool = λ m. any (λ t. str_eq t (token m)) tokens in
    record {
      has_read = has read;
      has_write = has write;
      has_append = has append;
      has_control = has control;
    }

-- A reader of the header: the text between the first two quotes after each key.
abbrev public_group : Str → Option (Str × Str) → Option EffectivePermissions
public_group user none = none
public_group user (some (public, _)) =
    some (record { user = parse_modes user; public = parse_modes public })

abbrev public_key : Str → Option Str → Option EffectivePermissions
public_key user none = none
public_key user (some s) = public_group user (split_once b'"' s)

abbrev user_group : Option (Str × Str) → Option EffectivePermissions
user_group none = none
user_group (some (user, s)) = public_key user (strip_prefix s (codes ",public=\""))

abbrev user_key : Option Str → Option EffectivePermissions
user_key none = none
user_key (some s) = user_group (split_once b'"' s)

unfoldable pub parse_header : Str → Option EffectivePermissions
parse_header s = user_key (strip_prefix s (codes "user=\""))

parse_modes-serialise :
    (a b c d : Bool)
    → let m : ModeSet = record { has_read = a; has_write = b; has_append = c; has_control = d } in
      (parse_modes (serialise_modes m) ≡ m) × (contains_char b'"' (serialise_modes m) ≡ false)
unfolding parse_modes serialise_modes split str_eq contains_char
parse_modes-serialise true true true true = (refl, refl)
parse_modes-serialise true true true false = (refl, refl)
parse_modes-serialise true true false true = (refl, refl)
parse_modes-serialise true true false false = (refl, refl)
parse_modes-serialise true false true true = (refl, refl)
parse_modes-serialise true false true false = (refl, refl)
parse_modes-serialise true false false true = (refl, refl)
parse_modes-serialise true false false false = (refl, refl)
parse_modes-serialise false true true true = (refl, refl)
parse_modes-serialise false true true false = (refl, refl)
parse_modes-serialise false true false true = (refl, refl)
parse_modes-serialise false true false false = (refl, refl)
parse_modes-serialise false false true true = (refl, refl)
parse_modes-serialise false false true false = (refl, refl)
parse_modes-serialise false false false true = (refl, refl)
parse_modes-serialise false false false false = (refl, refl)

-- The header names, for the user and for the public, all modes that each holds and no other: reading
-- it gives the permissions back.
pub parse_header-wac_allow_header :
    (perms : EffectivePermissions) → parse_header (wac_allow_header perms) ≡ some perms
unfolding parse_header wac_allow_header
parse_header-wac_allow_header perms =
    let u = perms.user in
    let p = perms.public in
    let (user, user_plain) =
      parse_modes-serialise u.has_read u.has_write u.has_append u.has_control in
    let (public, public_plain) =
      parse_modes-serialise p.has_read p.has_write p.has_append p.has_control in
    let end = serialise_modes p ++ codes "\"" in
    let rest = serialise_modes u ++ (codes "\",public=\"" ++ end) in
    let read_back : public_group (serialise_modes u) (some (serialise_modes p, [])) ≡ some perms =
      rw (user, public) refl in
    parse_header (wac_allow_header perms)
    ≡⟨ ap user_key (strip_prefix-append (codes "user=\"") rest) ⟩ user_key (some rest)
    ≡⟨ ap user_group
        (split_once-append b'"' (serialise_modes u) (codes ",public=\"" ++ end) user_plain) ⟩
      user_group (some (serialise_modes u, codes ",public=\"" ++ end))
    ≡⟨ ap (public_key (serialise_modes u)) (strip_prefix-append (codes ",public=\"") end) ⟩
      public_key (serialise_modes u) (some end)
    ≡⟨ ap (public_group (serialise_modes u))
        (split_once-append b'"' (serialise_modes p) [] public_plain) ⟩
      public_group (serialise_modes u) (some (serialise_modes p, []))
    ≡⟨ read_back ⟩ some perms ∎
