-- ===== src/Sql/Tests.antt =====
-- A query with a CTE, of an agent that may read two tables.
use powabase_ai.Prelude.{
  ℕ, ◌≡◌, refl, true, false, ◌&&◌, none, some, List, [], ◌∷◌, if◌then◌else◌, ◌==◌,
}
use powabase_ai.Auth.{Claims, missing}
use powabase_ai.Auth.ToolCaller.{ToolCaller, is_end_user, session_expired}
use powabase_ai.Sql.{
  Node, nil, cons, no_ctes, cte, range_var, func_call, forbidden, select_with, select_stmt, other,
  ParsedSelect, parse_select, walk, may_call,
}
use powabase_ai.Sql.Query.{
  Catalog, Tables, Statement, Login, user_login, set_transaction_read_only, set_statement_timeout,
  set_lock_timeout, set_claims, set_role_authenticated, set_search_path, query, run_query,
}
use powabase_ai.Sql.Grants.{
  select, on_table, Relations, Attempt, completes, fails_second, done, held, sync_configured,
  sync_agent_role, sync_once, target_grants, desired_grants, is_protected_schema, Role,
}
use powabase_ai.Sql.Grants.Sync.{
  configured_privilege, sync_configured-privileges, Within, sync_configured-Within,
}

-- WITH t AS (SELECT count(id) FROM orders) SELECT id FROM t, public.users
abbrev statement : Node
statement =
    select_with false
      (cte "t"
        (select_stmt (cons (func_call ("count" ∷ []) nil) (cons (range_var none "orders") nil))) nil
        no_ctes)
      (cons (range_var none "t") (cons (range_var (some "public") "users") nil))

abbrev parsed : ParsedSelect
parsed = record {
  relations = (none, "orders") ∷ (some "public", "users") ∷ [];
  functions = "count" ∷ [];
  operators = [];
  types = [];
}

reported : parse_select (some (statement ∷ [])) ≡ some parsed
unfolding parse_select walk may_call
reported = refl

no_delete :
    parse_select (some (select_stmt (cons (other (cons (forbidden nil) nil)) nil) ∷ [])) ≡ none
unfolding parse_select walk
no_delete = refl

abbrev catalog : Catalog
catalog = record {
  to_regclass = λ path schema name. some ("public", name);
  readable_relation = λ schema name. true;
  is_builtin = λ name. true;
  is_shadowed = λ path name. false;
  operator_is_unsafe = λ path name. false;
  type_is_builtin = λ path name. some true;
}

abbrev tables : Tables
tables = ("public", "users" ∷ "orders" ∷ []) ∷ []

abbrev ann_claims : Claims
ann_claims = record { sub = some "ann"; service_flag = missing; role = none; exp = some 100 }

abbrev ann : ToolCaller
ann = record { claims = some ann_claims; token = some "token" }

abbrev sent : Login × List Statement
sent = (
  user_login,
  set_transaction_read_only
      ∷ set_statement_timeout
      ∷ set_lock_timeout
      ∷ set_claims ann_claims
      ∷ set_role_authenticated
      ∷ set_search_path ("public" ∷ [])
      ∷ query "WITH ..."
      ∷ [],
)

runs : run_query catalog true 50 ann "agent" (some (statement ∷ [])) "WITH ..." tables ≡ some sent
unfolding run_query parse_select walk may_call is_end_user session_expired
runs = refl

abbrev relations : Relations
relations = record { readable_relation = λ schema name. true; sequences_of = λ schema name. [] }

-- the first attempt fails after its revocations
abbrev second_succeeds : ℕ → Attempt
second_succeeds left = if left == 2 then fails_second true else completes

abbrev read_tables : Tables
read_tables = ("public", "users" ∷ []) ∷ ("auth", "users" ∷ []) ∷ []

abbrev before : Role
before = some (λ g. true)

synced : (sync_configured relations (true, true) read_tables [] second_succeeds before).0 ≡ done
unfolding sync_configured sync_agent_role sync_once
synced = refl

sync_configured-privileges_example :
    held
      (sync_configured relations (true, true) read_tables [] second_succeeds before).1
      (on_table "auth" "users" select)
    ≡ (true && configured_privilege "auth" "users" select read_tables [])
sync_configured-privileges_example =
    sync_configured-privileges relations read_tables [] second_succeeds before refl synced "auth"
      "users" select

protected : configured_privilege "auth" "users" select read_tables [] ≡ false
unfolding is_protected_schema
protected = refl

sync_configured-Within_example :
    Within
      (target_grants relations (desired_grants read_tables []))
      before
      (sync_configured relations (true, true) read_tables [] second_succeeds before).1
sync_configured-Within_example =
    sync_configured-Within relations read_tables [] second_succeeds before (true, true)
