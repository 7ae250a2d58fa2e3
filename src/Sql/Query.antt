-- ===== src/Sql/Query.antt =====
-- The transaction of an agent's query: `_check_caller`, `agent_transaction`, `_check_references` and
-- `run_query` of services/agent_sql.py. What the database answers to the gate is a parameter.
pub mod Safety
use powabase_ai.Prelude.{
  ℕ, Bool, true, false, not, ◌&&◌, Option, none, some, ◌>>=◌, List, [], ◌∷◌, ◌++◌, map, String,
  ◌=s◌, elem, any, all, if◌then◌else◌,
}
use powabase_ai.Auth.{Claims}
use powabase_ai.Auth.ToolCaller.{ToolCaller, is_end_user, session_expired}
use powabase_ai.Sql.{Node, ParsedSelect, parse_select}

-- The catalogs, as the gate's own queries read them; the lists are the search path.
pub record Catalog : Type 0 where
  pub to_regclass : List String → Option String → String → Option (String × String)
  -- a table, or a view that runs as its caller
  pub readable_relation : String → String → Bool
  pub is_builtin : String → Bool
  pub is_shadowed : List String → String → Bool
  pub operator_is_unsafe : List String → String → Bool
  -- whether the type is of pg_catalog and no domain, if there is one
  pub type_is_builtin : List String → String → Option Bool

-- The agent's tables, by schema.
abbrev pub Tables : Type 0
Tables = List (String × List String)

abbrev pub schemas_of : Tables → List String
schemas_of tables = map (λ e. e.0) tables

abbrev pub is_permitted : Tables → String → String → Bool
is_permitted allowed schema name = any (λ e. (e.0 =s schema) && elem name e.1) allowed

abbrev pub is_true : Option Bool → Bool
is_true none = false
is_true (some b) = b

module _ (cat : Catalog) (allowed : Tables) where
  abbrev pub resolved_is_permitted : Option (String × String) → Bool
  resolved_is_permitted none = false
  resolved_is_permitted (some (schema, name)) =
      is_permitted allowed schema name && cat.readable_relation schema name

  unfoldable pub relation_is_permitted : Option String × String → Bool
  relation_is_permitted (schema, name) =
      resolved_is_permitted (cat.to_regclass (schemas_of allowed) schema name)

  -- _check_references: whether it raises nothing
  unfoldable pub check_references : ParsedSelect → Bool
  unfolding relation_is_permitted
  check_references parsed =
      all relation_is_permitted parsed.relations
      && (all (λ f. cat.is_builtin f && not (cat.is_shadowed (schemas_of allowed) f))
            parsed.functions
          && (all (λ o. not (cat.operator_is_unsafe (schemas_of allowed) o)) parsed.operators
              && all (λ t. is_true (cat.type_is_builtin (schemas_of allowed) t)) parsed.types))

-- What a transaction sends to the server, in order.
pub data Statement : Type 0 where
  set_transaction_read_only set_statement_timeout set_lock_timeout : Statement
  set_claims : Claims → Statement
  set_role_authenticated : Statement
  set_search_path : List String → Statement
  query : String → Statement

-- The login that the connection is made with.
pub data Login : Type 0 where
  user_login : Login
  agent_login : String → Login

-- _check_caller: whether it raises nothing. `ready` is `_user_login_ready` after the attempt to set
-- the login up, and `now` is in seconds.
unfoldable pub check_caller : Bool → ℕ → ToolCaller → Bool
check_caller ready now caller =
    if not (is_end_user caller) then true else ready && not (session_expired now caller)

abbrev pub identity : ToolCaller → List Statement
identity caller = elim caller.claims [
  | none ↦ []
  | some claims ↦ set_claims claims ∷ set_role_authenticated ∷ []
]

-- agent_transaction up to its `yield`
unfoldable pub agent_transaction : Bool → ToolCaller → String → List String → Login × List Statement
agent_transaction read_only caller agent_id schemas = (
  if is_end_user caller then user_login else agent_login agent_id,
  (if read_only then set_transaction_read_only ∷ [] else [])
      ++ set_statement_timeout
        ∷ set_lock_timeout
        ∷ (identity caller ++ set_search_path schemas ∷ []),
)

-- run_query, where `statements` are what `parse_sql` finds in `sql`: the login and the statements
-- of the transaction, without the gate's own reading of the catalogs; none for AgentSqlRejected
unfoldable pub run_query :
    Catalog
    → Bool
    → ℕ
    → ToolCaller
    → String
    → Option (List Node)
    → String
    → Tables
    → Option (Login × List Statement)
unfolding check_references check_caller agent_transaction
run_query cat ready now caller agent_id statements sql allowed =
    parse_select statements >>= λ parsed.
    let (login, opening) = agent_transaction true caller agent_id (schemas_of allowed) in
    if not (check_caller ready now caller)
    then none
    else if check_references cat allowed parsed
    then some (login, opening ++ query sql ∷ [])
    else none
