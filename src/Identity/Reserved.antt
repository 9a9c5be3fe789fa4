-- ===== src/Identity/Reserved.antt =====
-- src/identity.rs: no spelling of the reserved segment gets past the guard.
use solid_server_rs.Prelude.{
  ℕ, ◌+◌, ◌*◌, ◌≡◌, ◌≢◌, refl, sym, ap, ◌∙◌, ◌⊎◌, inl, inr, ◌≡⟨◌⟩◌, ◌∎, true, false, some, List, [],
  ◌∷◌, ◌++◌, Str, all, map, str_eq, str_eq_iff, lower, to_ascii_lowercase, eq_ignore_ascii_case,
  until, contains_char, drop_while, trim_start_matches, utf8_encode, as_bytes, from_utf8_lossy,
  is_ascii, as_bytes-append, from_utf8_lossy-append, arith, ◌==◌,
}
use solid_server_rs.Identity.{
  reserved_segment, first_segment_is_reserved, hex, escape, percent_decode_bytes,
  percent_decode_lossy, is_reserved_identity_path,
}

-- A text of a request spells some bytes: each stands for itself, or is written as an escape.
pub data Spells : Str → List ℕ → Type 0 where
  nothing : Spells [] []
  plain :
      (c : ℕ) {s : Str} {t : List ℕ}
      → is_ascii c ≡ true
      → c ≢ b'%'
      → Spells s t
      → Spells (c ∷ s) (c ∷ t)
  escaped :
      (h l hi lo : ℕ) {s : Str} {t : List ℕ}
      → hex h ≡ some hi
      → hex l ≡ some lo
      → Spells s t
      → Spells (b'%' ∷ h ∷ l ∷ s) ((hi * 16 + lo) ∷ t)

hex-ascii : (h hi : ℕ) → hex h ≡ some hi → is_ascii h ≡ true
unfolding hex
hex-ascii h hi e = ground arith

Spells-ascii : {s : Str} {t : List ℕ} → Spells s t → all is_ascii s ≡ true
Spells-ascii nothing = refl
Spells-ascii (plain c a ne sp) = ground (arith, Spells-ascii sp)
Spells-ascii (escaped h l hi lo p q sp) =
    ground (arith, hex-ascii h hi p, hex-ascii l lo q, Spells-ascii sp)

pub decode-plain :
    (c : ℕ) (bytes : List ℕ)
    → c ≢ b'%'
    → percent_decode_bytes (c ∷ bytes) ≡ c ∷ percent_decode_bytes bytes
unfolding percent_decode_bytes
decode-plain c [] ne = refl
decode-plain c (d ∷ []) ne = refl
decode-plain c (d ∷ e ∷ bytes) ne = let other : (c == b'%') ≡ false = ground arith in rw other refl

decode-Spells :
    {s : Str} {t : List ℕ} (rest : List ℕ)
    → Spells s t
    → percent_decode_bytes (s ++ rest) ≡ t ++ percent_decode_bytes rest
unfolding percent_decode_bytes escape
decode-Spells rest nothing = refl
decode-Spells rest (plain c {s} a ne sp) =
    decode-plain c (s ++ rest) ne ∙ ap (λ t. c ∷ t) (decode-Spells rest sp)
decode-Spells rest (escaped h l hi lo p q sp) =
    rw (p, q) (ap (λ t. (hi * 16 + lo) ∷ t) (decode-Spells rest sp))

lower-ascii : (t : Str) → all is_ascii (map lower t) ≡ true → all is_ascii t ≡ true
unfolding lower
lower-ascii [] h = refl
lower-ascii (c ∷ t) h = ground (arith, lower-ascii t)

lower-slash : (t : Str) → contains_char b'/' (map lower t) ≡ contains_char b'/' t
unfolding lower contains_char
lower-slash [] = refl
lower-slash (c ∷ t) = ground (arith, lower-slash t)

pub until-slash :
    (t rest : Str)
    → contains_char b'/' t ≡ false
    → (rest ≡ []) ⊎ ((r : Str) × (rest ≡ b'/' ∷ r))
    → until (λ c. c == b'/') (t ++ rest) ≡ t
unfolding until contains_char
until-slash [] rest h (inl e) = rw e refl
until-slash [] rest h (inr (r, e)) = rw e refl
until-slash (c ∷ t) rest h ends = ground (arith, until-slash t rest)

lowered :
    (t : Str) → eq_ignore_ascii_case t reserved_segment ≡ true → map lower t ≡ reserved_segment
unfolding eq_ignore_ascii_case to_ascii_lowercase lower
lowered t h = (str_eq_iff (map lower t) reserved_segment).0 h

reserved-no_slash :
    (t : Str) → eq_ignore_ascii_case t reserved_segment ≡ true → contains_char b'/' t ≡ false
unfolding contains_char
reserved-no_slash t h = sym (lower-slash t) ∙ ap (contains_char b'/') (lowered t h)

reserved-ascii : (t : Str) → eq_ignore_ascii_case t reserved_segment ≡ true → all is_ascii t ≡ true
reserved-ascii t h = lower-ascii t (ap (all is_ascii) (lowered t h))

first_segment :
    (t rest : Str)
    → eq_ignore_ascii_case t reserved_segment ≡ true
    → (rest ≡ []) ⊎ ((r : Str) × (rest ≡ b'/' ∷ r))
    → first_segment_is_reserved (b'/' ∷ t ++ rest) ≡ true
unfolding first_segment_is_reserved trim_start_matches drop_while eq_ignore_ascii_case
    to_ascii_lowercase str_eq contains_char
first_segment [] rest h ends = absurd (cc h)
first_segment (c ∷ t) rest h ends =
    let plain = reserved-no_slash (c ∷ t) h in
    let other : (c == b'/') ≡ false = ground arith in
    rw other (rw (until-slash (c ∷ t) rest plain ends) h)

-- what follows the segment, decoded
rest_decoded :
    (rest : Str)
    → (rest ≡ []) ⊎ ((r : Str) × (rest ≡ b'/' ∷ r))
    → (let after = from_utf8_lossy (percent_decode_bytes (as_bytes rest)) in
        (after ≡ []) ⊎ ((r : Str) × (after ≡ b'/' ∷ r)))
unfolding from_utf8_lossy percent_decode_bytes as_bytes utf8_encode
rest_decoded rest (inl e) = inl (rw e refl)
rest_decoded rest (inr (r, e)) =
    inr (from_utf8_lossy (percent_decode_bytes (as_bytes r)), rw e (slash_first (as_bytes r)))
  where
    slash_first :
        (bytes : List ℕ)
        → from_utf8_lossy (percent_decode_bytes (b'/' ∷ bytes))
          ≡ b'/' ∷ from_utf8_lossy (percent_decode_bytes bytes)
    slash_first [] = refl
    slash_first (c ∷ []) = refl
    slash_first (c ∷ d ∷ bytes) = refl

-- A path whose first segment is the reserved name, in any mixture of cases and with any of its
-- characters written as percent escapes, is recognised, whatever follows the segment.
pub is_reserved-Spells :
    (s : Str) (t : List ℕ) (rest : Str)
    → Spells s t
    → eq_ignore_ascii_case t reserved_segment ≡ true
    → (rest ≡ []) ⊎ ((r : Str) × (rest ≡ b'/' ∷ r))
    → is_reserved_identity_path (b'/' ∷ s ++ rest) ≡ true
unfolding is_reserved_identity_path percent_decode_lossy
is_reserved-Spells s t rest sp h ends =
    let after = from_utf8_lossy (percent_decode_bytes (as_bytes rest)) in
    let decoded : percent_decode_lossy (b'/' ∷ s ++ rest) ≡ b'/' ∷ t ++ after =
      percent_decode_lossy (b'/' ∷ s ++ rest)
      ≡⟨ ap (λ b. from_utf8_lossy (percent_decode_bytes b))
          (as_bytes-append (b'/' ∷ s) rest (Spells-ascii sp)) ⟩
        from_utf8_lossy (percent_decode_bytes (b'/' ∷ s ++ as_bytes rest))
      ≡⟨ ap from_utf8_lossy (decode-plain b'/' (s ++ as_bytes rest) (λ e. cc e)) ⟩
        from_utf8_lossy (b'/' ∷ percent_decode_bytes (s ++ as_bytes rest))
      ≡⟨ ap (λ b. from_utf8_lossy (b'/' ∷ b)) (decode-Spells (as_bytes rest) sp) ⟩
        from_utf8_lossy (b'/' ∷ t ++ percent_decode_bytes (as_bytes rest))
      ≡⟨ from_utf8_lossy-append (b'/' ∷ t) (percent_decode_bytes (as_bytes rest))
          (reserved-ascii t h) ⟩
        b'/' ∷ t ++ after ∎ in
    let found = first_segment t after h (rest_decoded rest ends) in
    let second : first_segment_is_reserved (percent_decode_lossy (b'/' ∷ s ++ rest)) ≡ true =
      ap first_segment_is_reserved decoded ∙ found in
    ground (arith, second)
