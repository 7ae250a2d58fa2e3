-- ===== src/Sql/Query/Safety.antt =====
-- What an agent's query that runs may read, and as whom it runs.
use powabase_ai.Prelude.{
  ℕ, ◌≡◌, true, false, Option, none, some, List, [], ◌∷◌, ◌++◌, String, All, Has,
}
use powabase_ai.Auth.ToolCaller.{ToolCaller, session_expired}
use powabase_ai.Sql.{Node, ParsedSelect}
use powabase_ai.Sql.Gate.{harmless, content, one_select}
use powabase_ai.Sql.Query.{
  Catalog, Tables, Statement, set_transaction_read_only, set_statement_timeout, set_lock_timeout,
  set_claims, set_role_authenticated, set_search_path, query, Login, user_login, agent_login,
  schemas_of,
}

-- The statements before the query: read only, as the login or as the end user with their claims.
abbrev pub opening : ToolCaller → List String → List Statement
opening caller schemas = elim caller.claims [
  | none ↦
      set_transaction_read_only
      ∷ set_statement_timeout
      ∷ set_lock_timeout
      ∷ set_search_path schemas
      ∷ []
  | some claims ↦
      set_transaction_read_only
      ∷ set_statement_timeout
      ∷ set_lock_timeout
      ∷ set_claims claims
      ∷ set_role_authenticated
      ∷ set_search_path schemas
      ∷ []
]

-- A name stands, on the query's own search path, for a table that is configured for the agent, by its
-- schema and its name, and that is readable as its caller.
abbrev pub IsConfigured : Catalog → Tables → Option String × String → Type 0
IsConfigured cat allowed (schema, name) =
    (found : String × String) × (names : List String) × ((cat.to_regclass (schemas_of allowed)
          schema name
        ≡ some found)
      × (Has (found.0, names) allowed
          × (Has found.1 names × (cat.readable_relation found.0 found.1 ≡ true))))

-- What a function, an operator and a type of the query stand for is of pg_catalog.
abbrev pub IsBuiltin : Catalog → List String → String → Type 0
IsBuiltin cat path f = (cat.is_builtin f ≡ true) × (cat.is_shadowed path f ≡ false)

pub record Safe (cat : Catalog) (now : ℕ) (caller : ToolCaller) (agent_id : String)
    (statements : Option (List Node)) (sql : String) (allowed : Tables)
    (run : Login × List Statement) : Type 0 where
  pub select : Node
  pub one : one_select statements ≡ some select
  pub harmless_only : harmless select ≡ true
  pub permitted : All (IsConfigured cat allowed) (content (λ x. false) select).relations
  pub functions_builtin :
      All (IsBuiltin cat (schemas_of allowed)) (content (λ x. false) select).functions
  pub operators_safe :
      All
        (λ o. cat.operator_is_unsafe (schemas_of allowed) o ≡ false)
        (content (λ x. false) select).operators
  pub types_builtin :
      All
        (λ t. cat.type_is_builtin (schemas_of allowed) t ≡ some true)
        (content (λ x. false) select).types
  pub login : run.0 ≡ (elim caller.claims [ none ↦ agent_login agent_id | some _ ↦ user_login ])
  pub sent : run.1 ≡ opening caller (schemas_of allowed) ++ query sql ∷ []
  pub in_session : session_expired now caller ≡ false

-- what the query refers to is what it may refer to
record MayRefer (cat : Catalog) (allowed : Tables) (parsed : ParsedSelect) : Type 0 where
  permitted : All (IsConfigured cat allowed) parsed.relations
  functions_builtin : All (IsBuiltin cat (schemas_of allowed)) parsed.functions
  operators_safe : All (λ o. cat.operator_is_unsafe (schemas_of allowed) o ≡ false) parsed.operators
  types_builtin : All (λ t. cat.type_is_builtin (schemas_of allowed) t ≡ some true) parsed.types
