-- ===== src/Notifications/Tokens/Tests.antt =====
-- src/notifications: receive tokens at concrete calls, and the theorems there.
use solid_server_rs.Prelude.{
  ◌<◌, ◌≡◌, ◌≢◌, ◌↔◌, refl, Option, none, some, List, [], ◌∷◌, Str, codes, arith, str_eq,
}
use solid_server_rs.Collections.{get, remove, insert, retain}
use solid_server_rs.Notifications.Tokens.{
  ReceiveTokenBinding, token_required, upgraded, base64url_nopad, mint_receive_token,
  validate_receive_token, receive_handler,
}
use solid_server_rs.Notifications.Tokens.Tracking.{Call, mint_call, validate_call, run, last_minted}
use solid_server_rs.Notifications.Tokens.History.{receive-upgraded_iff}

encodes : base64url_nopad (102 ∷ 111 ∷ 111 ∷ 98 ∷ []) ≡ codes "Zm9vYg"
unfolding base64url_nopad
encodes = refl

encodes_two : base64url_nopad (250 ∷ 255 ∷ []) ≡ codes "-v8"
unfolding base64url_nopad
encodes_two = refl

abbrev note : Str
note = codes "https://pod.example/a"

abbrev other : Str
other = codes "https://pod.example/b"

-- The minted token is `Zm9v`.
abbrev calls : List Call
calls =
    mint_call (102 ∷ 111 ∷ 111 ∷ []) (codes "https://pod.example/me") note 10 11
    ∷ validate_call (codes "Zm9v") other 20
    ∷ []

abbrev upgrade : Option Str
upgrade = none

opens :
    (receive_handler (run [] calls) (some note) (some (codes "Zm9v")) upgrade 30).1 ≡ upgraded note
unfolding receive_handler run mint_receive_token validate_receive_token base64url_nopad get remove
    insert retain str_eq
opens = refl

of_another_topic :
    (receive_handler (run [] calls) (some other) (some (codes "Zm9v")) upgrade 30).1
    ≡ token_required
unfolding receive_handler run mint_receive_token validate_receive_token base64url_nopad get remove
    insert retain str_eq
of_another_topic = refl

at_the_expiry :
    (receive_handler (run [] calls) (some note) (some (codes "Zm9v")) upgrade 300000000010).1
    ≡ token_required
unfolding receive_handler run mint_receive_token validate_receive_token base64url_nopad get remove
    insert retain str_eq
at_the_expiry = refl

receive-upgraded_iff_example :
    ((receive_handler (run [] calls) (some note) (some (codes "Zm9v")) upgrade 30).1
      ≡ upgraded note)
    ↔ ((some note ≡ some note)
        × (note ≢ [])
        × (upgrade ≡ none)
        × (k : Str) × (some (codes "Zm9v") ≡ some k)
        × (k ≢ [])
        × (b : ReceiveTokenBinding) × (last_minted (λ s. none) calls k ≡ some b)
        × (b.topic ≡ note)
        × (30 < b.expires_at))
receive-upgraded_iff_example =
    receive-upgraded_iff calls (some note) (some (codes "Zm9v")) upgrade 30 note
      (omega arith, (omega arith, tt))
