-- ===== src/Identity/Tests.antt =====
-- src/identity.rs: the theorems at inputs that meet their hypotheses.
use solid_server_rs.Prelude.{
  ◌≤◌, ◌<◌, ◌≡◌, refl, inr, true, false, ◌∷◌, ◌++◌, codes, all, length, byte_len, utf8_len, str_eq,
  eq_ignore_ascii_case, to_ascii_lowercase, lower,
}
use solid_server_rs.Identity.{is_reserved_identity_path, is_valid_handle, is_handle_char, hex}
use solid_server_rs.Identity.Reserved.{Spells, nothing, plain, escaped, is_reserved-Spells}
use solid_server_rs.Identity.Handles.{is_valid_handle-not_reserved}

letters : Spells (codes "IDENTITY") (codes "IDENTITY")
letters =
    plain b'I' refl (λ e. cc e)
      (plain b'D' refl (λ e. cc e)
        (plain b'E' refl (λ e. cc e)
          (plain b'N' refl (λ e. cc e)
            (plain b'T' refl (λ e. cc e)
              (plain b'I' refl (λ e. cc e)
                (plain b'T' refl (λ e. cc e) (plain b'Y' refl (λ e. cc e) nothing)))))))

dotted : Spells (codes "%2eIDENTITY") (codes ".IDENTITY")
unfolding hex
dotted = escaped b'2' b'e' 2 14 refl refl letters

is_reserved-Spells_example :
    is_reserved_identity_path (b'/' ∷ codes "%2eIDENTITY" ++ codes "/alice") ≡ true
unfolding eq_ignore_ascii_case to_ascii_lowercase lower str_eq
is_reserved-Spells_example =
    is_reserved-Spells (codes "%2eIDENTITY") (codes ".IDENTITY") (codes "/alice") dotted refl
      (inr (codes "alice", refl))

alice_is_valid : is_valid_handle (codes "alice-2") ≡ true
unfolding is_valid_handle byte_len utf8_len str_eq
alice_is_valid = refl

is_valid_handle-not_reserved_example :
    (all is_handle_char (codes "alice-2") ≡ true)
    × (0 < length (codes "alice-2"))
    × (byte_len (codes "alice-2") ≤ 64)
    × (is_reserved_identity_path (b'/' ∷ codes "alice-2") ≡ false)
is_valid_handle-not_reserved_example = is_valid_handle-not_reserved (codes "alice-2") alice_is_valid
