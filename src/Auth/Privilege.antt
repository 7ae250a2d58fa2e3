-- ===== src/Auth/Privilege.antt =====
-- Only the service role key passes for the service role, and an end user is always a user id.
use powabase_ai.Prelude.{
  ℕ, ◌≡◌, refl, ◌∙◌, sym, true, false, Option, none, some, List, String, arith, ◌=s◌, =s_iff,
  Bool-cases, Option-cases, inl, inr, ◌≢◌,
}
use powabase_ai.Auth.{
  Claims, Library, Answer, pass, status, Caller, get_token_from_header, decode_jwt, caller_of,
  authenticate, require_service_role, require_user_auth, flag_is_true,
}

module _ (lib : Library) where
  open lib use {decode, parse_uuid, uuid_text, lower}

  decode_jwt-service_flag :
      (jwt_secret service_role_key : Option String) (token : String) (p : Claims)
      → decode_jwt lib jwt_secret service_role_key token ≡ pass p
      → flag_is_true lib p.service_flag ≡ true
      → service_role_key ≡ some token
  unfolding decode_jwt
  decode_jwt-service_flag none key token p h f = cc
  decode_jwt-service_flag (some secret) none token p h f = ground arith
  decode_jwt-service_flag (some secret) (some key) token p h f = ground (arith, =s_iff token key)

  caller_of-is_service_role :
      (p : Claims) (c : Caller)
      → caller_of lib p ≡ pass c
      → c.is_service_role ≡ flag_is_true lib p.service_flag
  unfolding caller_of
  caller_of-is_service_role p c h = ground arith

  -- The claims of a passing token, with what was presented.
  record Presented (jwt_secret service_role_key : Option String) (header : List String) (c : Caller)
      : Type 0 where
    token : String
    presented : get_token_from_header lower header ≡ some token
    filled : (token =s "") ≡ false
    payload : Claims
    decoded : decode_jwt lib jwt_secret service_role_key token ≡ pass payload
    is_caller : caller_of lib payload ≡ pass c

  authenticate-Presented :
      (jwt_secret service_role_key : Option String) (header : List String) (c : Caller)
      → authenticate lib jwt_secret service_role_key header ≡ pass c
      → Presented jwt_secret service_role_key header c
  unfolding authenticate
  authenticate-Presented js key header c h = go (get_token_from_header lower header) refl
    where
      decoded :
          (token : String) (a : Answer Claims)
          → get_token_from_header lower header ≡ some token
          → (token =s "") ≡ false
          → decode_jwt lib js key token ≡ a
          → Presented js key header c
      decoded token (status n) e f d = absurd (ground arith)
      decoded token (pass p) e f d = record {
        token = token;
        presented = e;
        filled = f;
        payload = p;
        decoded = d;
        is_caller = ground arith;
      }

      go : (o : Option String) → get_token_from_header lower header ≡ o → Presented js key header c
      go none e = absurd (ground arith)
      go (some token) e = elim (Bool-cases (token =s "")) [
        | inl empty ↦ absurd (ground arith)
        | inr f ↦ decoded token _ e f refl
      ]

  -- A request that authenticates presented a bearer that is not empty.
  pub authenticate-token :
      (jwt_secret service_role_key : Option String) (header : List String) (c : Caller)
      → authenticate lib jwt_secret service_role_key header ≡ pass c
      → (token : String) × (get_token_from_header lower header ≡ some token)
        × ((token =s "") ≡ false)
  authenticate-token js key header c h =
      let v = authenticate-Presented js key header c h in (v.token, v.presented, v.filled)

  module _ (jwt_secret service_role_key : Option String) (header : List String) (c : Caller) where
    -- A caller that passes as the service role presented exactly the service role key; no claim of
    -- a user's token, whatever it is, has this effect.
    pub authenticate-is_service_role :
        authenticate lib jwt_secret service_role_key header ≡ pass c
        → c.is_service_role ≡ true
        → get_token_from_header lower header ≡ service_role_key
    authenticate-is_service_role h s =
        let v = authenticate-Presented jwt_secret service_role_key header c h in
        v.presented
        ∙ sym (
            decode_jwt-service_flag jwt_secret service_role_key v.token v.payload v.decoded
              (sym (caller_of-is_service_role v.payload c v.is_caller) ∙ s))

    caller_of-user :
        (p : Claims) (o : Option ℕ) (sub : String)
        → p.sub ≡ some sub
        → parse_uuid sub ≡ o
        → caller_of lib p ≡ pass c
        → c.is_service_role ≡ false
        → (n : ℕ) × (c.user_id ≡ some (uuid_text n)) × (c.payload.sub ≡ some (uuid_text n))
    unfolding caller_of
    caller_of-user p none sub e q h s = absurd (ground arith)
    caller_of-user p (some n) sub e q h s = (n, ground arith, ground arith)

    caller_of-no_sub :
        (p : Claims) → p.sub ≡ none → caller_of lib p ≡ pass c → c.is_service_role ≡ false → ⊥
    unfolding caller_of
    caller_of-no_sub p e h s = ground arith

    -- An end user who passes is named by the canonical text of a uuid, in `g.user_id` and in the
    -- claims that the tools act with.
    pub authenticate-user_id :
        authenticate lib jwt_secret service_role_key header ≡ pass c
        → c.is_service_role ≡ false
        → (n : ℕ) × (c.user_id ≡ some (uuid_text n)) × (c.payload.sub ≡ some (uuid_text n))
    authenticate-user_id h s =
        let v = authenticate-Presented jwt_secret service_role_key header c h in
        elim (Option-cases v.payload.sub) [
          | inl e ↦ absurd (caller_of-no_sub v.payload e v.is_caller s)
          | inr (sub, e) ↦ caller_of-user v.payload (parse_uuid sub) sub e refl v.is_caller s
        ]

  service_only :
      (jwt_secret service_role_key : Option String) (header : List String) (c : Caller)
      → require_service_role lib jwt_secret service_role_key header ≡ pass c
      → (authenticate lib jwt_secret service_role_key header ≡ pass c) × (c.is_service_role ≡ true)
  unfolding require_service_role
  service_only js key header c h = go (authenticate lib js key header) refl
    where
      go :
          (a : Answer Caller)
          → authenticate lib js key header ≡ a
          → (authenticate lib js key header ≡ pass c) × (c.is_service_role ≡ true)
      go (status n) e = absurd (ground arith)
      go (pass d) e = (ground arith, ground arith)

  -- A route for the service role runs only on a request whose bearer is the configured service
  -- role key, and then for the caller that `require_user_auth` would run it for.
  pub require_service_role-key :
      (jwt_secret service_role_key : Option String) (header : List String) (c : Caller)
      → require_service_role lib jwt_secret service_role_key header ≡ pass c
      → (get_token_from_header lower header ≡ service_role_key)
        × (require_user_auth lib jwt_secret service_role_key header ≡ pass c)
  require_service_role-key js key header c h =
      let (caller, service) = service_only js key header c h in
      (
        authenticate-is_service_role js key header c caller service,
        unfold require_user_auth in caller,
      )

  -- An end user's request that authenticates is answered with 403 by every service-role route.
  require_service_role-end_user :
      (jwt_secret service_role_key : Option String) (header : List String) (c : Caller)
      → require_user_auth lib jwt_secret service_role_key header ≡ pass c
      → get_token_from_header lower header ≢ service_role_key
      → require_service_role lib jwt_secret service_role_key header ≡ status 403
  unfolding require_user_auth require_service_role
  require_service_role-end_user js key header c h other = elim (Bool-cases c.is_service_role) [
    | inl s ↦ absurd (other (authenticate-is_service_role js key header c h s))
    | inr s ↦ ground arith
  ]
