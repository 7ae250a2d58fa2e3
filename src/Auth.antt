-- ===== src/Auth.antt =====
-- auth.py and services/tool_caller.py: who a request comes from, and for whom a run's tools act.
pub mod ToolCaller
pub mod Privilege
mod Tests
use powabase_ai.Prelude.{
  ℕ, ◌≡◌, Bool, true, false, not, ◌&&◌, ◌||◌, Option, none, some, List, [], ◌∷◌, String, ◌=s◌,
  if◌then◌else◌, any, ◌++◌, ltb,
}

-- The value of the claim `is_service_role`: not there, `true`, or anything else.
pub data Flag : Type 0 where
  missing is_true other_value : Flag

-- The claims of a decoded token that the service reads. `sub` is none unless it is a text.
pub record Claims : Type 0 where
  pub sub : Option String
  pub service_flag : Flag
  pub role : Option String
  -- `exp`, if it is a number, in seconds
  pub exp : Option ℕ

pub data JwtError : Type 0 where
  expired invalid_audience invalid : JwtError

-- What `jwt.decode` does: decodes, or raises one of the three errors the code tells apart.
pub data Decoded : Type 0 where
  claims : Claims → Decoded
  refused : JwtError → Decoded

-- The library and the standard library: `decode audience_and_required token secret`, uuids, lower.
pub record Library : Type 0 where
  pub decode : Bool → String → String → Decoded
  -- uuid.UUID(text), none for ValueError; and str of it
  pub parse_uuid : String → Option ℕ
  pub uuid_text : ℕ → String
  pub lower : String → String
  -- the text of a uuid is read as this uuid
  pub parse-uuid_text : (n : ℕ) → parse_uuid (uuid_text n) ≡ some n
  pub parse_empty : parse_uuid "" ≡ none

-- The status codes of the errors that the code answers with.
pub data Answer (A : Type 0) : Type 0 where
  pass : A → Answer A
  status : ℕ → Answer A

-- `g` of the request.
pub record Caller : Type 0 where
  pub is_service_role : Bool
  pub user_id : Option String
  pub user_role : String
  pub payload : Claims

-- `auth_header.split()` is given; a missing header is the empty list.
unfoldable pub get_token_from_header : (String → String) → List String → Option String
get_token_from_header lower (scheme ∷ token ∷ []) =
    if lower scheme =s "bearer" then some token else none
get_token_from_header lower _ = none

module _ (lib : Library) where
  open lib use {decode, parse_uuid, uuid_text, lower}

  -- `service_role_key and hmac.compare_digest(token, service_role_key)`
  abbrev pub is_service_key : Option String → String → Bool
  is_service_key none token = false
  is_service_key (some key) token = if key =s "" then false else token =s key

  -- the two calls of `jwt.decode` with their except clauses; 401 is AuthError's default
  abbrev pub service_payload : Decoded → Answer Claims
  service_payload (claims c) = pass (record c { service_flag = is_true })
  service_payload (refused e) = status 401

  abbrev pub user_payload : Decoded → Answer Claims
  user_payload (claims c) = pass (record c { service_flag = missing })
  user_payload (refused e) = status 401

  unfoldable pub decode_jwt : Option String → Option String → String → Answer Claims
  decode_jwt jwt_secret service_role_key token = elim jwt_secret [
    | none ↦ status 500
    | some secret ↦
        if secret =s ""
        then status 500
        else if is_service_key service_role_key token
        then service_payload (decode false token secret)
        else user_payload (decode true token secret)
  ]

  -- _is_uuid
  unfoldable pub is_uuid : Option String → Bool
  is_uuid none = false
  is_uuid (some value) = elim (parse_uuid value) [
    | none ↦ false
    | some n ↦ uuid_text n =s lower value
  ]

  abbrev pub flag_is_true : Flag → Bool
  flag_is_true is_true = true
  flag_is_true _ = false

  -- `str(uuid.UUID(payload["sub"]))`
  abbrev pub canonical : Option String → Option String
  canonical none = none
  canonical (some value) = elim (parse_uuid value) [ none ↦ none | some n ↦ some (uuid_text n) ]

  abbrev pub or_role : Option String → String
  or_role none = "authenticated"
  or_role (some role) = role

  -- _authenticate after decode_jwt
  unfoldable pub caller_of : Claims → Answer Caller
  unfolding is_uuid
  caller_of payload =
      if flag_is_true payload.service_flag
      then pass (record {
        is_service_role = true;
        user_id = payload.sub;
        user_role = or_role payload.role;
        payload = payload;
      })
      else if is_uuid payload.sub
      then pass (record {
        is_service_role = false;
        user_id = canonical payload.sub;
        user_role = or_role payload.role;
        payload = record payload { sub = canonical payload.sub };
      })
      else status 401

  abbrev pub then_caller : Answer Claims → Answer Caller
  then_caller (status n) = status n
  then_caller (pass c) = caller_of c

  -- _authenticate
  unfoldable pub authenticate : Option String → Option String → List String → Answer Caller
  unfolding get_token_from_header decode_jwt caller_of
  authenticate jwt_secret service_role_key header = elim (get_token_from_header lower header) [
    | none ↦ status 401
    | some token ↦
        if token =s ""
        then status 401
        else then_caller (decode_jwt jwt_secret service_role_key token)
  ]

  abbrev pub only_service : Answer Caller → Answer Caller
  only_service (status n) = status n
  only_service (pass c) = if c.is_service_role then pass c else status 403

  -- the decorators; `pass` runs the route
  unfoldable pub require_service_role : Option String → Option String → List String → Answer Caller
  unfolding authenticate
  require_service_role jwt_secret service_role_key header =
      only_service (authenticate jwt_secret service_role_key header)

  unfoldable pub require_user_auth : Option String → Option String → List String → Answer Caller
  unfolding authenticate
  require_user_auth jwt_secret service_role_key header =
      authenticate jwt_secret service_role_key header
