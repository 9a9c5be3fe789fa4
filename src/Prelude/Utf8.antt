-- ===== src/Prelude/Utf8.antt =====
-- The bytes of a text, and `String::from_utf8_lossy`.
use Prim.Native.Nat.{ℕ, ◌+◌, ◌-◌, ◌*◌, ◌/◌, ◌%◌}
use mathlib.Core.Path.{◌≡◌, refl, ap}
use mathlib.Core.Bool.{Bool, true, ◌&&◌}
use mathlib.Core.List.{List, [], ◌∷◌, ◌++◌}
use native.Mathlib.Omega.{arith}
use solid_server_rs.Prelude.Tests.{ltb, leb, ◌==◌, if◌then◌else◌}
use solid_server_rs.Prelude.Lists.{all}
use solid_server_rs.Prelude.Text.{Str}

unfoldable pub utf8_encode : ℕ → List ℕ
utf8_encode c =
    if ltb c 0x80
    then c ∷ []
    else if ltb c 0x800
    then (0xc0 + c / 64) ∷ (0x80 + c % 64) ∷ []
    else if ltb c 0x10000
    then (0xe0 + c / 4096) ∷ (0x80 + c / 64 % 64) ∷ (0x80 + c % 64) ∷ []
    else (0xf0 + c / 262144) ∷ (0x80 + c / 4096 % 64) ∷ (0x80 + c / 64 % 64) ∷ (0x80 + c % 64) ∷ []

-- `s.as_bytes()`
unfoldable pub as_bytes : Str → List ℕ
unfolding utf8_encode
as_bytes [] = []
as_bytes (c ∷ s) = utf8_encode c ++ as_bytes s

-- A decoder between two characters, or inside one: how many bytes are to come, what is read of it,
-- and between which bounds the next byte must lie.
pub data Decoder : Type 0 where
  idle : Decoder
  within : ℕ → ℕ → ℕ → ℕ → Decoder

abbrev replacement : ℕ
replacement = 0xfffd

-- the first byte of a character: what it yields at once, and the decoder after it
abbrev lead : ℕ → Str × Decoder
lead b =
    if ltb b 0x80
    then (b ∷ [], idle)
    else if ltb b 0xc2
    then (replacement ∷ [], idle)
    else if ltb b 0xe0
    then ([], within 1 (b - 0xc0) 0x80 0xbf)
    else if ltb b 0xf0
    then (
      [],
      within 2 (b - 0xe0) (if b == 0xe0 then 0xa0 else 0x80) (if b == 0xed then 0x9f else 0xbf),
    )
    else if ltb b 0xf5
    then (
      [],
      within 3 (b - 0xf0) (if b == 0xf0 then 0x90 else 0x80) (if b == 0xf4 then 0x8f else 0xbf),
    )
    else (replacement ∷ [], idle)

abbrev replaced : Str × Decoder → Str × Decoder
replaced (out, d) = (replacement ∷ out, d)

-- a byte inside a character; one that does not belong there ends it, and is read anew
abbrev continuation : ℕ → ℕ → ℕ → ℕ → ℕ → Str × Decoder
continuation left acc low high b =
    let whole = acc * 64 + (b - 0x80) in
    if leb low b && leb b high
    then (if left == 1 then (whole ∷ [], idle) else ([], within (left - 1) whole 0x80 0xbf))
    else replaced (lead b)

abbrev step : Decoder → ℕ → Str × Decoder
step idle b = lead b
step (within left acc low high) b = continuation left acc low high b

abbrev finish : Decoder → Str
finish idle = []
finish (within _ _ _ _) = replacement ∷ []

unfoldable pub decode : Decoder → List ℕ → Str
decode d [] = finish d
decode d (b ∷ bytes) = (step d b).0 ++ decode (step d b).1 bytes

unfoldable pub from_utf8_lossy : List ℕ → Str
unfolding decode
from_utf8_lossy bytes = decode idle bytes

abbrev pub is_ascii : ℕ → Bool
is_ascii c = ltb c 0x80

-- Bytes of ASCII are decoded on their own.
pub from_utf8_lossy-append :
    (s bytes : List ℕ)
    → all is_ascii s ≡ true
    → from_utf8_lossy (s ++ bytes) ≡ s ++ from_utf8_lossy bytes
unfolding from_utf8_lossy decode
from_utf8_lossy-append [] bytes h = refl
from_utf8_lossy-append (c ∷ s) bytes h =
    let first : is_ascii c ≡ true = ground arith in
    rw first (ap (λ t. c ∷ t) (from_utf8_lossy-append s bytes (ground arith)))

pub as_bytes-append : (s t : Str) → all is_ascii s ≡ true → as_bytes (s ++ t) ≡ s ++ as_bytes t
unfolding as_bytes
as_bytes-append [] t h = refl
as_bytes-append (c ∷ s) t h =
    let first : is_ascii c ≡ true = ground arith in
    rw first (ap (λ t. c ∷ t) (as_bytes-append s t (ground arith)))
