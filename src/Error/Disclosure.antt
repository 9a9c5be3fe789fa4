-- ===== src/Error/Disclosure.antt =====
-- src/error.rs: the internal text of an error never reaches a client.
use solid_server_rs.Prelude.{◌≡◌, refl, Bool, Str}
use solid_server_rs.Error.{
  ServerError, bad_request, unauthorized, conflict, unprocessable_patch, unsupported_media_type,
  storage, into_response,
}

-- An error with its message replaced; the challenge is for the client and stays.
abbrev pub with_message : Str → ServerError → ServerError
with_message m (bad_request _) = bad_request m
with_message m (unauthorized code _ challenge) = unauthorized code m challenge
with_message m (conflict _) = conflict m
with_message m (unprocessable_patch _) = unprocessable_patch m
with_message m (unsupported_media_type _) = unsupported_media_type m
with_message m (storage _) = storage m
with_message m e = e

-- The response to an error does not depend on the message that it carries.
pub into_response-with_message :
    (is_header_value : Str → Bool) (e : ServerError) (m : Str)
    → into_response is_header_value (with_message m e) ≡ into_response is_header_value e
unfolding into_response
into_response-with_message p (bad_request _) m = refl
into_response-with_message p _ m = refl
