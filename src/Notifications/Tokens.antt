-- ===== src/Notifications/Tokens.antt =====
-- src/notifications/mod.rs and ws.rs: receive tokens. Instants are natural numbers (nanoseconds). The
-- random bytes of a token, the readings of the clock and the answer of the extractor of the upgrade
-- are arguments; a token that is handed out is its own key in the map.
pub mod Tracking
pub mod History
mod Tests
use solid_server_rs.Prelude.{
  ℕ, ◌+◌, ◌*◌, ◌/◌, ◌%◌, ◌^◌, ltb, leb, Bool, true, false, Option, none, some, List, [], ◌∷◌, ◌++◌,
  Str, codes, str_eq, get_elem?, if◌then◌else◌,
}
use solid_server_rs.Collections.{HashMap, get, remove, insert, retain, str_key}

pub record ReceiveTokenBinding : Type 0 where
  pub topic : Str
  pub web_id : Str
  pub expires_at : ℕ

abbrev pub receive_token_ttl : ℕ
receive_token_ttl = 300000000000

abbrev pub alphabet : Str
alphabet = codes "ABCDEFGHIJKLMNOPQRSTUVWXYZabcdefghijklmnopqrstuvwxyz0123456789-_"

-- The index is below the 64 characters of the alphabet.
abbrev pub symbol : ℕ → ℕ
symbol n = elim (get_elem? alphabet (n % 64)) [ none ↦ 0 | some c ↦ c ]

-- the symbols of a chunk of three bytes, or of one or two bytes at the end
abbrev pub symbols : ℕ → Str
symbols n = symbol (n / 2 ^ 18) ∷ symbol (n / 2 ^ 12) ∷ []

unfoldable pub base64url_nopad : List ℕ → Str
base64url_nopad [] = []
base64url_nopad (b0 ∷ []) = symbols (b0 * 2 ^ 16)
base64url_nopad (b0 ∷ b1 ∷ []) =
    let n = b0 * 2 ^ 16 + b1 * 2 ^ 8 in symbols n ++ symbol (n / 2 ^ 6) ∷ []
base64url_nopad (b0 ∷ b1 ∷ b2 ∷ bytes) =
    let n = b0 * 2 ^ 16 + b1 * 2 ^ 8 + b2 in
    let rest = base64url_nopad bytes in symbols n ++ (symbol (n / 2 ^ 6) ∷ symbol n ∷ rest)

abbrev pub ReceiveTokens : Type 0
ReceiveTokens = HashMap Str ReceiveTokenBinding

abbrev pub binding_of : Str → Str → ℕ → ReceiveTokenBinding
binding_of web_id topic created_at = record {
  topic = topic;
  web_id = web_id;
  expires_at = created_at + receive_token_ttl;
}

-- The clock is read for the expiry, and again under the lock.
unfoldable pub mint_receive_token : List ℕ → Str → Str → ℕ → ℕ → ReceiveTokens → ReceiveTokens × Str
mint_receive_token random web_id topic created_at now tokens =
    let token = base64url_nopad random in
    (
      insert token (binding_of web_id topic created_at) (retain (λ b. ltb now b.expires_at) tokens),
      token,
    )

abbrev pub validate_found :
    ReceiveTokens → Str → Str → ℕ → Option ReceiveTokenBinding → ReceiveTokens × Bool
validate_found tokens token topic now none = (tokens, false)
validate_found tokens token topic now (some b) =
    if leb b.expires_at now then (remove token tokens, false) else (tokens, str_eq b.topic topic)

unfoldable pub validate_receive_token : ReceiveTokens → Str → Str → ℕ → ReceiveTokens × Bool
validate_receive_token tokens token topic now =
    validate_found tokens token topic now (get token tokens)

pub data ReceiveResponse (Rejection : Type 0) : Type 0 where
  missing_topic : ReceiveResponse Rejection
  token_required : ReceiveResponse Rejection
  not_an_upgrade : Rejection → ReceiveResponse Rejection
  upgraded : Str → ReceiveResponse Rejection

-- a query parameter that is there and not empty
abbrev pub given : Option Str → Option Str
given none = none
given (some []) = none
given (some (c ∷ s)) = some (c ∷ s)

module _ {Rejection : Type 0} where
  abbrev pub answer : Str → Option Rejection → Bool → ReceiveResponse Rejection
  answer topic ws false = token_required
  answer topic none true = upgraded topic
  answer topic (some rejection) true = not_an_upgrade rejection

  abbrev pub receive_given :
      ReceiveTokens
      → Option Str
      → Option Str
      → Option Rejection
      → ℕ
      → ReceiveTokens × ReceiveResponse Rejection
  receive_given tokens none token ws now = (tokens, missing_topic)
  receive_given tokens (some topic) none ws now = (tokens, token_required)
  receive_given tokens (some topic) (some token) ws now =
      let (tokens', valid) = validate_receive_token tokens token topic now in
      (tokens', answer topic ws valid)

  -- up to the upgrade, where the connection subscribes to the topic; `ws` is the rejection of the
  -- extractor, if there is one
  unfoldable pub receive_handler :
      ReceiveTokens
      → Option Str
      → Option Str
      → Option Rejection
      → ℕ
      → ReceiveTokens × ReceiveResponse Rejection
  receive_handler tokens topic token ws now =
      receive_given tokens (given topic) (given token) ws now
