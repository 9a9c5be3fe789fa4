-- ===== src/Identity/Handles.antt =====
-- src/identity.rs: a handle that is valid can name a document, and nothing else.
use solid_server_rs.Prelude.{
  ◌+◌, ◌≤◌, ◌<◌, leb, ◌≡◌, refl, sym, ap, ◌∙◌, inl, true, false, ◌&&◌, [], ◌∷◌, Str, all, length,
  str_eq, lower, to_ascii_lowercase, eq_ignore_ascii_case, until, contains_char, drop_while,
  trim_start_matches, from_utf8_lossy, as_bytes, is_ascii, as_bytes-append, from_utf8_lossy-append,
  byte_len, arith, if◌then◌else◌, ◌==◌,
}
use mathlib.Core.List.{append-nil}
use solid_server_rs.Identity.{
  reserved_segment, first_segment_is_reserved, percent_decode_bytes, percent_decode_lossy,
  is_reserved_identity_path, is_valid_handle, is_handle_char,
}
use solid_server_rs.Identity.Reserved.{decode-plain, until-slash}

handle-ascii : (h : Str) → all is_handle_char h ≡ true → all is_ascii h ≡ true
handle-ascii [] a = refl
handle-ascii (c ∷ h) a = ground (arith, handle-ascii h)

handle-no_slash : (h : Str) → all is_handle_char h ≡ true → contains_char b'/' h ≡ false
unfolding contains_char
handle-no_slash [] a = refl
handle-no_slash (c ∷ h) a = ground (arith, handle-no_slash h)

handle-undecoded : (h : Str) → all is_handle_char h ≡ true → percent_decode_bytes h ≡ h
unfolding percent_decode_bytes
handle-undecoded [] a = refl
handle-undecoded (c ∷ h) a =
    decode-plain c h (λ e. ground arith) ∙ ap (λ t. c ∷ t) (handle-undecoded h (ground arith))

handle-other_name :
    (h : Str) → all is_handle_char h ≡ true → eq_ignore_ascii_case h reserved_segment ≡ false
unfolding eq_ignore_ascii_case to_ascii_lowercase lower str_eq
handle-other_name [] a = refl
handle-other_name (c ∷ h) a =
    let no_dot : ((if leb b'A' c && leb c b'Z' then c + 32 else c) == b'.') ≡ false =
      ground arith in
    rw no_dot refl

handle-trimmed : (h : Str) → all is_handle_char h ≡ true → trim_start_matches b'/' (b'/' ∷ h) ≡ h
unfolding trim_start_matches drop_while
handle-trimmed [] a = refl
handle-trimmed (c ∷ h) a = let no_slash : (c == b'/') ≡ false = ground arith in rw no_slash refl

handle-first_segment :
    (h : Str) → all is_handle_char h ≡ true → first_segment_is_reserved (b'/' ∷ h) ≡ false
unfolding first_segment_is_reserved
handle-first_segment h a =
    let whole : until (λ c. c == b'/') h ≡ h =
      ap (until (λ c. c == b'/')) (sym (append-nil h))
      ∙ until-slash h [] (handle-no_slash h a) (inl refl) in
    rw (handle-trimmed h a, whole) (handle-other_name h a)

handle-bytes : (h : Str) → all is_handle_char h ≡ true → as_bytes h ≡ h
unfolding as_bytes
handle-bytes h a =
    ap as_bytes (sym (append-nil h)) ∙ as_bytes-append h [] (handle-ascii h a) ∙ append-nil h

handle-text : (h : Str) → all is_handle_char h ≡ true → from_utf8_lossy h ≡ h
unfolding from_utf8_lossy
handle-text h a =
    ap from_utf8_lossy (sym (append-nil h))
    ∙ from_utf8_lossy-append h [] (handle-ascii h a)
    ∙ append-nil h

valid_parts :
    (h : Str)
    → is_valid_handle h ≡ true
    → (all is_handle_char h ≡ true) × (0 < length h) × (byte_len h ≤ 64)
unfolding is_valid_handle
valid_parts [] v = absurd (cc v)
valid_parts (c ∷ h) v = ground arith

-- A valid handle has between 1 and 64 bytes, each a lower-case letter, a digit or a dash; so its path
-- is never in the reserved namespace, however it is decoded.
pub is_valid_handle-not_reserved :
    (h : Str)
    → is_valid_handle h ≡ true
    → (all is_handle_char h ≡ true)
      × (0 < length h)
      × (byte_len h ≤ 64)
      × (is_reserved_identity_path (b'/' ∷ h) ≡ false)
unfolding is_reserved_identity_path percent_decode_lossy from_utf8_lossy as_bytes
is_valid_handle-not_reserved h v =
    let (chars, some_char, short) = valid_parts h v in
    let plain = handle-first_segment h chars in
    let decoded : percent_decode_lossy (b'/' ∷ h) ≡ b'/' ∷ h =
      ap (λ b. from_utf8_lossy (percent_decode_bytes (b'/' ∷ b))) (handle-bytes h chars)
      ∙ ap from_utf8_lossy (decode-plain b'/' h (λ e. cc e))
      ∙ ap (λ b. from_utf8_lossy (b'/' ∷ b)) (handle-undecoded h chars)
      ∙ from_utf8_lossy-append (b'/' ∷ []) h refl
      ∙ ap (λ t. b'/' ∷ t) (handle-text h chars) in
    let second : first_segment_is_reserved (percent_decode_lossy (b'/' ∷ h)) ≡ false =
      ap first_segment_is_reserved decoded ∙ plain in
    (chars, some_char, short, ground (arith, second))
