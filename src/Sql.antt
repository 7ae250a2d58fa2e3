-- ===== src/Sql.antt =====
-- services/agent_sql.py: what an agent's query tool may run. `parse_sql` of pglast is a parameter;
-- its syntax trees are given by what the gate reads of them.
mod Lists
pub mod Gate
pub mod Query
pub mod Grants
mod Tests
use powabase_ai.Prelude.{
  Bool, true, false, not, ◌&&◌, ◌||◌, Option, none, some, ◌>>=◌, List, [], ◌∷◌, ◌++◌, String, ◌=s◌,
  elem, any, if◌then◌else◌,
}
use powabase_ai.Sql.Lists.{allowed_functions, allowed_operators, lookup_types, protected_schemas}

mutual
  -- A node, with the nodes of its other attributes.
  pub data Node : Type 0 where
    -- InsertStmt, UpdateStmt, DeleteStmt, MergeStmt, IntoClause, LockingClause
    forbidden : Nodes → Node
    range_var : Option String → String → Node
    func_call : List String → Nodes → Node
    -- the Boolean says that it is one of the four kinds of BETWEEN
    a_expr : Bool → List String → Nodes → Node
    -- SubLink and SortBy with their operName and useOp, which may be empty
    sub_link sort_by : List String → Nodes → Node
    -- the names, and the text that RawStream prints
    type_name : List String → String → Node
    select_with : Bool → Ctes → Nodes → Node
    select_stmt other : Nodes → Node

  pub data Nodes : Type 0 where
    nil : Nodes
    cons : Node → Nodes → Nodes

  -- A name, the query, and the nodes of the SEARCH and CYCLE clauses.
  pub data Ctes : Type 0 where
    no_ctes : Ctes
    cte : String → Node → Nodes → Ctes → Ctes

pub record ParsedSelect : Type 0 where
  pub relations : List (Option String × String)
  pub functions : List String
  pub operators : List String
  pub types : List String

abbrev pub last_of : List String → String
last_of [] = ""
last_of (x ∷ []) = x
last_of (x ∷ y ∷ rest) = last_of (y ∷ rest)

-- `len(parts) > 1 and parts[0] != "pg_catalog"`
abbrev pub elsewhere : List String → Bool
elsewhere [] = false
elsewhere (x ∷ []) = false
elsewhere (x ∷ y ∷ rest) = not (x =s "pg_catalog")

unfoldable pub may_call : List String → Bool
may_call parts = not (elsewhere parts) && elem (last_of parts) allowed_functions

unfoldable pub may_operate : List String → Bool
may_operate parts = not (elsewhere parts) && elem (last_of parts) allowed_operators

unfoldable pub may_cast : List String → Bool
may_cast parts = not (elsewhere parts) && not (elem (last_of parts) lookup_types)

-- _add_operator
unfoldable pub add_operator : List String → ParsedSelect → Option ParsedSelect
add_operator parts p =
    if may_operate parts
    then some (record p { operators = p.operators ++ last_of parts ∷ [] })
    else none

-- `if node.operName:`
unfoldable pub add_given_operator : List String → ParsedSelect → Option ParsedSelect
unfolding add_operator
add_given_operator [] p = some p
add_given_operator (x ∷ parts) p = add_operator (x ∷ parts) p

abbrev pub cte_names : Ctes → List String
cte_names no_ctes = []
cte_names (cte name query clauses rest) = name ∷ cte_names rest

-- `any(name in scope for scope in visible_ctes)`
abbrev pub hides : List (List String) → String → Bool
hides scopes name = any (λ scope. elem name scope) scopes

abbrev pub add_relation : List (List String) → Option String → String → ParsedSelect → ParsedSelect
add_relation scopes (some schema) name p = record p {
  relations = p.relations ++ (some schema, name) ∷ [];
}
add_relation scopes none name p =
    if hides scopes name then p else record p { relations = p.relations ++ (none, name) ∷ [] }

-- _walk; none is AgentSqlRejected
unfoldable mutual
  pub walk : Node → List (List String) → ParsedSelect → Option ParsedSelect
  walk (forbidden rest) scopes p = none
  walk (range_var schema name) scopes p = some (add_relation scopes schema name p)
  walk (func_call parts rest) scopes p =
      let walked =
        walk_nodes rest scopes (record p { functions = p.functions ++ last_of parts ∷ [] }) in
      if may_call parts then walked else none
  walk (a_expr true parts rest) scopes p =
      walk_nodes rest scopes (record p { operators = p.operators ++ ">=" ∷ "<=" ∷ [] })
  walk (a_expr false parts rest) scopes p = add_operator parts p >>= λ q. walk_nodes rest scopes q
  walk (sub_link parts rest) scopes p = add_given_operator parts p >>= λ q. walk_nodes rest scopes q
  walk (sort_by parts rest) scopes p = add_given_operator parts p >>= λ q. walk_nodes rest scopes q
  walk (type_name parts printed) scopes p =
      if may_cast parts then some (record p { types = p.types ++ printed ∷ [] }) else none
  walk (select_with recursive ctes rest) scopes p =
      walk_ctes recursive (cte_names ctes) [] ctes scopes p >>= λ q.
      walk_nodes rest (scopes ++ cte_names ctes ∷ []) q
  walk (select_stmt rest) scopes p = walk_nodes rest scopes p
  walk (other rest) scopes p = walk_nodes rest scopes p

  pub walk_nodes : Nodes → List (List String) → ParsedSelect → Option ParsedSelect
  walk_nodes nil scopes p = some p
  walk_nodes (cons n rest) scopes p = walk n scopes p >>= λ q. walk_nodes rest scopes q

  -- `names` are those of the whole WITH, and `before` those of the CTEs before this one
  pub walk_ctes :
      Bool
      → List String
      → List String
      → Ctes
      → List (List String)
      → ParsedSelect
      → Option ParsedSelect
  walk_ctes recursive names before no_ctes scopes p = some p
  walk_ctes recursive names before (cte name query clauses rest) scopes p =
      walk query (scopes ++ (if recursive then names else before) ∷ []) p >>= λ q.
      walk_ctes recursive names (before ++ name ∷ []) rest scopes q

abbrev pub nothing_parsed : ParsedSelect
nothing_parsed = record { relations = []; functions = []; operators = []; types = [] }

abbrev pub is_select : Node → Bool
is_select (select_stmt _) = true
is_select (select_with _ _ _) = true
is_select _ = false

-- parse_select of the statements that `parse_sql` finds, none for a ParseError
unfoldable pub parse_select : Option (List Node) → Option ParsedSelect
unfolding walk
parse_select (some (statement ∷ [])) =
    if is_select statement then walk statement [] nothing_parsed else none
parse_select _ = none
