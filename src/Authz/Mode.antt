-- ===== src/Authz/Mode.antt =====
-- src/authz/mode.rs: access modes, the `.acl` suffix and the mode that an HTTP operation needs.
-- `BTreeSet<AccessMode>` is a record of four flags, one for each mode that a set can hold.
pub mod Laws
use solid_server_rs.Prelude.{
  Bool, true, false, ◌||◌, Option, none, some, List, [], ◌∷◌, Str, codes, str_eq, strip_suffix,
  ends_with, split, to_ascii_lowercase, if◌then◌else◌,
}

pub data AccessMode : Type 0 where
  read write append control : AccessMode

unfoldable pub acl_iri : AccessMode → Str
acl_iri read = codes "http://www.w3.org/ns/auth/acl#Read"
acl_iri write = codes "http://www.w3.org/ns/auth/acl#Write"
acl_iri append = codes "http://www.w3.org/ns/auth/acl#Append"
acl_iri control = codes "http://www.w3.org/ns/auth/acl#Control"

unfoldable pub token : AccessMode → Str
token read = codes "read"
token write = codes "write"
token append = codes "append"
token control = codes "control"

unfoldable pub from_acl_iri : Str → Option AccessMode
from_acl_iri iri =
    if str_eq iri (codes "http://www.w3.org/ns/auth/acl#Read")
    then some read
    else if str_eq iri (codes "http://www.w3.org/ns/auth/acl#Write")
    then some write
    else if str_eq iri (codes "http://www.w3.org/ns/auth/acl#Append")
    then some append
    else if str_eq iri (codes "http://www.w3.org/ns/auth/acl#Control")
    then some control
    else none

abbrev pub acl_suffix : Str
acl_suffix = codes ".acl"

unfoldable pub is_acl_resource : Str → Bool
is_acl_resource iri = ends_with iri acl_suffix

-- `unwrap_or` of an option
abbrev unwrap_or : Option Str → Str → Str
unwrap_or none s = s
unwrap_or (some t) s = t

-- `s.rsplit('/').next()`: the last part of the split
last_part : Str → List Str → Str
last_part s [] = s
last_part s (p ∷ ps) = last_part p ps

unfoldable pub is_acl_auxiliary_suffix : Str → Bool
unfolding last_part
is_acl_auxiliary_suffix iri =
    let trimmed = unwrap_or (strip_suffix iri (codes "/")) iri in
    let segment = last_part trimmed (split b'/' trimmed) in
    ends_with (to_ascii_lowercase segment) acl_suffix

unfoldable pub mode_for_operation : Str → Str → Bool → AccessMode
mode_for_operation method target is_container =
    if is_acl_resource target
    then control
    else if str_eq method (codes "GET")
        || str_eq method (codes "HEAD")
        || str_eq method (codes "OPTIONS")
    then read
    else if str_eq method (codes "POST")
    then (if is_container then append else write)
    else write

pub record ModeSet : Type 0 where
  pub has_read : Bool
  pub has_write : Bool
  pub has_append : Bool
  pub has_control : Bool

-- `BTreeSet::new`, `contains` and `insert`
abbrev pub no_modes : ModeSet
no_modes = record { has_read = false; has_write = false; has_append = false; has_control = false }

abbrev pub contains : ModeSet → AccessMode → Bool
contains s read = s.has_read
contains s write = s.has_write
contains s append = s.has_append
contains s control = s.has_control

abbrev pub insert : ModeSet → AccessMode → ModeSet
insert s read = record s { has_read = true }
insert s write = record s { has_write = true }
insert s append = record s { has_append = true }
insert s control = record s { has_control = true }
