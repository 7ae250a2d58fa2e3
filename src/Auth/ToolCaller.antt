-- ===== src/Auth/ToolCaller.antt =====
-- services/tool_caller.py and `end_user_run_body_error` of auth.py: for whom the tools of a run act,
-- and what an end user may put into a run.
use powabase_ai.Prelude.{
  ℕ, ◌≡◌, refl, ap, Bool, true, false, not, ◌&&◌, Option, none, some, List, [], ◌∷◌, ◌++◌, String,
  arith, ◌=s◌, =s_iff, if◌then◌else◌, any, inl, inr, ◌↔◌, ltb, Bool-cases,
}
use powabase_ai.Auth.{Claims, Library, pass, Caller, get_token_from_header, authenticate}
use powabase_ai.Auth.Privilege.{authenticate-user_id, authenticate-token}

pub record ToolCaller : Type 0 where
  pub claims : Option Claims
  pub token : Option String

abbrev is_some : {A : Type 0} → Option A → Bool
is_some none = false
is_some (some _) = true

abbrev non_empty : Option String → Bool
non_empty none = false
non_empty (some s) = not (s =s "")

-- The constructor with __post_init__; none where it raises ValueError.
unfoldable pub tool_caller : Option Claims → Option String → Option ToolCaller
tool_caller none none = some (record { claims = none; token = none })
tool_caller none (some token) = none
tool_caller (some claims) token =
    if non_empty token && non_empty claims.sub
    then some (record { claims = some claims; token = token })
    else none

unfoldable pub is_end_user : ToolCaller → Bool
is_end_user caller = is_some caller.claims

-- `expires < time.time()`, or no numeric `exp`; times in seconds
abbrev expired_at : ℕ → Option ℕ → Bool
expired_at now none = true
expired_at now (some expires) = ltb expires now

unfoldable pub session_expired : ℕ → ToolCaller → Bool
session_expired now caller = elim caller.claims [
  | none ↦ false
  | some claims ↦ expired_at now claims.exp
]

-- ToolCaller.from_request, of `g` and the header; none where it raises
unfoldable pub from_request : (String → String) → Caller → List String → Option ToolCaller
unfolding tool_caller
from_request lower g header =
    let token = get_token_from_header lower header in
    if g.is_service_role
    then tool_caller none none
    else if non_empty token
    then tool_caller (some g.payload) token
    else none

module _ (lib : Library) (jwt_secret service_role_key : Option String) (header : List String)
    (c : Caller) where
  open lib use {lower, uuid_text, parse_uuid, parse-uuid_text, parse_empty}

  uuid_text-ne-empty : (n : ℕ) → (uuid_text n =s "") ≡ false
  uuid_text-ne-empty n =
      ground (arith, =s_iff (uuid_text n) "", parse-uuid_text n, parse_empty, ap parse_uuid)

  -- After a request has authenticated, its tools act for exactly its caller: for the service role
  -- with neither claims nor token, and for an end user with their verified claims, whose `sub` is
  -- `g.user_id`, and the bearer that the request presented. It never raises.
  from_request-authenticate :
      authenticate lib jwt_secret service_role_key header ≡ pass c
      → from_request lower c header
        ≡ some (
            if c.is_service_role
            then record { claims = none; token = none }
            else record { claims = some c.payload; token = get_token_from_header lower header })
  unfolding from_request
  from_request-authenticate h =
      let (token, presented, filled) =
        authenticate-token lib jwt_secret service_role_key header c h in
      elim (Bool-cases c.is_service_role) [
        | inl s ↦ ground arith
        | inr s ↦
            let (n, _, sub) = authenticate-user_id lib jwt_secret service_role_key header c h s in
            ground (arith, uuid_text-ne-empty n)
      ]

-- A run body, by what the check reads: whether each forbidden field is given and truthy, and for
-- each context item whether it is a dictionary with a truthy `item_id`.
pub record RunBody : Type 0 where
  pub knowledge_bases : Bool
  pub runtime_knowledge_bases : Bool
  pub context_handler_id : Bool
  pub context_items : List Bool

abbrev when : Bool → String → List String
when true name = name ∷ []
when false name = []

-- the names that the error message lists
unfoldable pub forbidden_fields : RunBody → List String
forbidden_fields body =
    (when body.knowledge_bases "knowledge_bases"
      ++ when body.runtime_knowledge_bases "runtime_knowledge_bases"
      ++ when body.context_handler_id "context_handler_id")
    ++ when (any (λ has_id. has_id) body.context_items) "context_items[].item_id"

-- end_user_run_body_error: the names, or None
unfoldable pub end_user_run_body_error : RunBody → Option (List String)
unfolding forbidden_fields
end_user_run_body_error body = elim (forbidden_fields body) [
  | [] ↦ none
  | name ∷ rest ↦ some (name ∷ rest)
]

abbrev pub NoneHasId : List Bool → Type 0
NoneHasId [] = Unit
NoneHasId (has_id ∷ rest) = (has_id ≡ false) × NoneHasId rest

any-NoneHasId : (items : List Bool) → (any (λ has_id. has_id) items ≡ false) ↔ NoneHasId items
any-NoneHasId [] = (λ h. tt, λ h. refl)
any-NoneHasId (true ∷ rest) = (λ h. absurd (cc h), λ h. cc)
any-NoneHasId (false ∷ rest) =
    (λ h. (refl, (any-NoneHasId rest).0 h), λ h. (any-NoneHasId rest).1 h.1)

-- An end user's run body is accepted exactly when it names no stored data: no knowledge bases of
-- either kind, no context handler, and no context item by its id.
end_user_run_body_error-none :
    (body : RunBody)
    → (end_user_run_body_error body ≡ none) ↔ (
        (body.knowledge_bases ≡ false)
        × (body.runtime_knowledge_bases ≡ false)
        × (body.context_handler_id ≡ false)
        × NoneHasId body.context_items)
unfolding end_user_run_body_error
end_user_run_body_error-none body = (
  λ h. (
    ground arith,
    ground arith,
    ground arith,
    (any-NoneHasId body.context_items).0 (ground arith),
  ),
  λ h. ground (arith, (any-NoneHasId body.context_items).1 h.3),
)
