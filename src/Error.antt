-- ===== src/Error.antt =====
-- src/error.rs: the error of every layer, its HTTP status and what a client is shown of it.
pub mod Disclosure
pub mod Results
use solid_server_rs.Prelude.{
  ℕ, ltb, leb, Bool, ◌&&◌, Option, none, some, Str, codes, if◌then◌else◌, ◌==◌,
}

pub data ServerError : Type 0 where
  bad_request : Str → ServerError
  unauthorized : ℕ → Str → Str → ServerError
  forbidden : ServerError
  not_found : ServerError
  conflict : Str → ServerError
  method_not_allowed : ServerError
  precondition_failed : ServerError
  range_not_satisfiable : ServerError
  not_acceptable : ServerError
  unprocessable_patch : Str → ServerError
  unsupported_media_type : Str → ServerError
  storage : Str → ServerError

pub data Result {ℓ} (A : Type ℓ) : Type ℓ where
  ok : A → Result A
  err : ServerError → Result A

-- `StatusCode::from_u16` accepts the numbers from 100 to 999.
unfoldable pub status : ServerError → ℕ
status (bad_request _) = 400
status (unauthorized code _ _) = if leb 100 code && ltb code 1000 then code else 401
status forbidden = 403
status not_found = 404
status (conflict _) = 409
status method_not_allowed = 405
status precondition_failed = 412
status range_not_satisfiable = 416
status not_acceptable = 406
status (unprocessable_patch _) = 422
status (unsupported_media_type _) = 415
status (storage _) = 500

pub record Response : Type 0 where
  pub code : ℕ
  pub body : Str
  pub www_authenticate : Option Str

abbrev public_body : ℕ → Str
public_body code =
    if code == 500
    then codes "internal server error"
    else if code == 404
    then codes "not found"
    else if code == 403
    then codes "forbidden"
    else if code == 405
    then codes "method not allowed"
    else if code == 409
    then codes "conflict"
    else if code == 412
    then codes "precondition failed"
    else if code == 416
    then codes "range not satisfiable"
    else if code == 406
    then codes "not acceptable"
    else if code == 422
    then codes "unprocessable entity"
    else if code == 415
    then codes "unsupported media type"
    else codes "bad request"

-- `into_response`; whether a text is a header value is decided by the http crate.
unfoldable pub into_response : (Str → Bool) → ServerError → Response
unfolding status
into_response is_header_value (unauthorized code message challenge) = record {
  code = status (unauthorized code message challenge);
  body = codes "unauthorized";
  www_authenticate = if is_header_value challenge then some challenge else none;
}
into_response is_header_value e = record {
  code = status e;
  body = public_body (status e);
  www_authenticate = none;
}
