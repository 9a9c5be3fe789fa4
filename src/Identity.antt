-- ===== src/Identity.antt =====
-- src/identity.rs: the namespace of identity documents, which no request can address, and the
-- handles that name the documents.
pub mod Reserved
pub mod Handles
mod Tests
use solid_server_rs.Prelude.{
  ℕ, ◌+◌, ◌-◌, ◌*◌, ltb, leb, Bool, true, false, not, ◌&&◌, ◌||◌, Option, none, some, List, [], ◌∷◌,
  ◌++◌, Str, codes, any, all, length, str_eq, eq_ignore_ascii_case, is_ascii_digit, until,
  trim_start_matches, trim_end_matches, as_bytes, from_utf8_lossy, byte_len, if◌then◌else◌, ◌==◌,
}

abbrev pub reserved_segment : Str
reserved_segment = codes ".identity"

abbrev pub reserved_handles : List Str
reserved_handles = codes "identity" ∷ codes "livez" ∷ codes "readyz" ∷ []

unfoldable pub reserved_doc_iri : Str → Str → Str
reserved_doc_iri base_url handle =
    trim_end_matches b'/' base_url ++ (b'/' ∷ reserved_segment ++ (b'/' ∷ handle))

unfoldable pub first_segment_is_reserved : Str → Bool
first_segment_is_reserved path =
    let trimmed = trim_start_matches b'/' path in
    eq_ignore_ascii_case (until (λ c. c == b'/') trimmed) reserved_segment

-- the closure `hex`
unfoldable pub hex : ℕ → Option ℕ
hex b =
    if leb b'0' b && leb b b'9'
    then some (b - b'0')
    else if leb b'a' b && leb b b'f'
    then some (b - b'a' + 10)
    else if leb b'A' b && leb b b'F'
    then some (b - b'A' + 10)
    else none

-- one round of the loop at a `%` that two bytes follow: what it pushes instead of the three, if they
-- are an escape
unfoldable pub escape : Option ℕ → Option ℕ → Option ℕ
escape (some hi) (some lo) = some (hi * 16 + lo)
escape _ _ = none

abbrev pushed : Option ℕ → List ℕ → List ℕ → List ℕ
pushed none kept rest = kept
pushed (some byte) kept rest = byte ∷ rest

unfoldable pub percent_decode_bytes : List ℕ → List ℕ
unfolding hex escape
percent_decode_bytes [] = []
percent_decode_bytes (b ∷ []) = b ∷ []
percent_decode_bytes (b ∷ c ∷ []) = b ∷ c ∷ []
percent_decode_bytes (b ∷ c ∷ d ∷ bytes) =
    let rest = percent_decode_bytes bytes in
    let kept = percent_decode_bytes (c ∷ d ∷ bytes) in
    if b == b'%' then pushed (escape (hex c) (hex d)) (b ∷ kept) rest else b ∷ kept

unfoldable pub percent_decode_lossy : Str → Str
unfolding percent_decode_bytes
percent_decode_lossy path = from_utf8_lossy (percent_decode_bytes (as_bytes path))

unfoldable pub is_reserved_identity_path : Str → Bool
unfolding first_segment_is_reserved percent_decode_lossy
is_reserved_identity_path path =
    first_segment_is_reserved path || first_segment_is_reserved (percent_decode_lossy path)

abbrev pub is_ascii_lowercase : ℕ → Bool
is_ascii_lowercase c = leb b'a' c && leb c b'z'

abbrev pub is_handle_char : ℕ → Bool
is_handle_char c = is_ascii_lowercase c || is_ascii_digit c || c == b'-'

unfoldable pub is_valid_handle : Str → Bool
is_valid_handle [] = false
is_valid_handle (first ∷ chars) =
    if ltb 64 (byte_len (first ∷ chars))
    then false
    else if not (is_ascii_lowercase first) && not (is_ascii_digit first)
    then false
    else if not (all is_handle_char chars)
    then false
    else not (any (λ h. str_eq h (first ∷ chars)) reserved_handles)
