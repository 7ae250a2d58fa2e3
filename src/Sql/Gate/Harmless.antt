-- ===== src/Sql/Gate/Harmless.antt =====
-- Which trees the gate of services/agent_sql.py is meant to accept: a definition that visits every
-- node, also those of the SEARCH and CYCLE clauses of a CTE, and reads names on its own.
use powabase_ai.Prelude.{
  ◌≡◌, refl, Bool, true, false, not, ◌&&◌, Option, none, some, List, [], ◌∷◌, String, ◌=s◌, elem,
  if◌then◌else◌, arith,
}
use powabase_ai.Sql.Lists.{allowed_functions, allowed_operators, lookup_types}
use powabase_ai.Sql.{
  Node, Nodes, Ctes, forbidden, range_var, func_call, a_expr, sub_link, sort_by, type_name,
  select_with, select_stmt, other, nil, cons, no_ctes, cte, last_of, elsewhere, may_call,
  may_operate, may_cast,
}
use powabase_ai.Sql.Gate.Content.{passes, all_pass, ctes_pass, given_may_operate}

abbrev final_part : String → List String → String
final_part x [] = x
final_part x (y ∷ rest) = final_part y rest

-- the name that can stand for an object of pg_catalog: without a schema, or with that one
abbrev builtin_name : List String → Option String
builtin_name [] = some ""
builtin_name (x ∷ []) = some x
builtin_name (schema ∷ x ∷ rest) = if schema =s "pg_catalog" then some (final_part x rest) else none

abbrev names_one_of : List String → List String → Bool
names_one_of names parts = elim (builtin_name parts) [ none ↦ false | some x ↦ elem x names ]

abbrev names_none_of : List String → List String → Bool
names_none_of names parts = elim (builtin_name parts) [ none ↦ false | some x ↦ not (elem x names) ]

-- an operator, where one is given
abbrev gives_operator : List String → Bool
gives_operator [] = true
gives_operator (x ∷ parts) = names_one_of allowed_operators (x ∷ parts)

-- No write and no lock, only allowed functions and operators, and no cast to a type that looks names
-- up, anywhere in a tree.
unfoldable mutual
  pub harmless : Node → Bool
  harmless (forbidden rest) = false
  harmless (range_var schema name) = true
  harmless (func_call parts rest) = names_one_of allowed_functions parts && all_harmless rest
  harmless (a_expr true parts rest) = all_harmless rest
  harmless (a_expr false parts rest) = names_one_of allowed_operators parts && all_harmless rest
  harmless (sub_link parts rest) = gives_operator parts && all_harmless rest
  harmless (sort_by parts rest) = gives_operator parts && all_harmless rest
  harmless (type_name parts printed) = names_none_of lookup_types parts
  harmless (select_with recursive ctes rest) = ctes_harmless ctes && all_harmless rest
  harmless (select_stmt rest) = all_harmless rest
  harmless (other rest) = all_harmless rest

  pub all_harmless : Nodes → Bool
  all_harmless nil = true
  all_harmless (cons n rest) = harmless n && all_harmless rest

  pub ctes_harmless : Ctes → Bool
  ctes_harmless no_ctes = true
  ctes_harmless (cte name query clauses rest) =
      (harmless query && all_harmless clauses) && ctes_harmless rest

abbrev is_nil : Nodes → Bool
is_nil nil = true
is_nil (cons n rest) = false

-- No CTE of a tree has a SEARCH or a CYCLE clause.
unfoldable mutual
  pub has_no_clauses : Node → Bool
  has_no_clauses (forbidden rest) = all_without_clauses rest
  has_no_clauses (range_var schema name) = true
  has_no_clauses (func_call parts rest) = all_without_clauses rest
  has_no_clauses (a_expr between parts rest) = all_without_clauses rest
  has_no_clauses (sub_link parts rest) = all_without_clauses rest
  has_no_clauses (sort_by parts rest) = all_without_clauses rest
  has_no_clauses (type_name parts printed) = true
  has_no_clauses (select_with recursive ctes rest) =
      ctes_without_clauses ctes && all_without_clauses rest
  has_no_clauses (select_stmt rest) = all_without_clauses rest
  has_no_clauses (other rest) = all_without_clauses rest

  pub all_without_clauses : Nodes → Bool
  all_without_clauses nil = true
  all_without_clauses (cons n rest) = has_no_clauses n && all_without_clauses rest

  pub ctes_without_clauses : Ctes → Bool
  ctes_without_clauses no_ctes = true
  ctes_without_clauses (cte name query clauses rest) =
      (is_nil clauses && has_no_clauses query) && ctes_without_clauses rest

last_of-final_part : (x : String) (rest : List String) → last_of (x ∷ rest) ≡ final_part x rest
last_of-final_part x [] = refl
last_of-final_part x (y ∷ rest) = last_of-final_part y rest

names_one_of_lem :
    (names parts : List String)
    → (not (elsewhere parts) && elem (last_of parts) names) ≡ names_one_of names parts
names_one_of_lem names [] = refl
names_one_of_lem names (x ∷ []) = refl
names_one_of_lem names (schema ∷ x ∷ rest) = ground (arith, last_of-final_part x rest)

names_none_of_lem :
    (names parts : List String)
    → (not (elsewhere parts) && not (elem (last_of parts) names)) ≡ names_none_of names parts
names_none_of_lem names [] = refl
names_none_of_lem names (x ∷ []) = refl
names_none_of_lem names (schema ∷ x ∷ rest) = ground (arith, last_of-final_part x rest)

may_call_lem : (parts : List String) → may_call parts ≡ names_one_of allowed_functions parts
unfolding may_call
may_call_lem parts = names_one_of_lem allowed_functions parts

may_operate_lem : (parts : List String) → may_operate parts ≡ names_one_of allowed_operators parts
unfolding may_operate
may_operate_lem parts = names_one_of_lem allowed_operators parts

may_cast_lem : (parts : List String) → may_cast parts ≡ names_none_of lookup_types parts
unfolding may_cast
may_cast_lem parts = names_none_of_lem lookup_types parts

given_may_operate_lem : (parts : List String) → given_may_operate parts ≡ gives_operator parts
given_may_operate_lem [] = refl
given_may_operate_lem (x ∷ parts) = may_operate_lem (x ∷ parts)

both : (a b a' b' : Bool) → a ≡ a' → b ≡ b' → (a && b) ≡ (a' && b')
both a b a' b' h k = rw (h, k) refl

both_inversion : (a b : Bool) → (a && b) ≡ true → (a ≡ true) × (b ≡ true)
both_inversion a b h = (ground (arith, h), ground (arith, h))

and_true : (a b : Bool) → a ≡ b → a ≡ (b && true)
and_true a b h = ground (arith, h)

-- where no CTE has a SEARCH or a CYCLE clause, the walk visits every node
mutual
  unfolding passes harmless has_no_clauses

  pub passes-harmless : (n : Node) → has_no_clauses n ≡ true → passes n ≡ harmless n
  passes-harmless (forbidden rest) h = refl
  passes-harmless (range_var schema name) h = refl
  passes-harmless (func_call parts rest) h =
      both _ _ _ _ (may_call_lem parts) (all_pass-all_harmless rest h)
  passes-harmless (a_expr true parts rest) h = all_pass-all_harmless rest h
  passes-harmless (a_expr false parts rest) h =
      both _ _ _ _ (may_operate_lem parts) (all_pass-all_harmless rest h)
  passes-harmless (sub_link parts rest) h =
      both _ _ _ _ (given_may_operate_lem parts) (all_pass-all_harmless rest h)
  passes-harmless (sort_by parts rest) h =
      both _ _ _ _ (given_may_operate_lem parts) (all_pass-all_harmless rest h)
  passes-harmless (type_name parts printed) h = may_cast_lem parts
  passes-harmless (select_with recursive ctes rest) h =
      let (one, two) = both_inversion _ _ h in
      both _ _ _ _ (ctes_pass-ctes_harmless ctes one) (all_pass-all_harmless rest two)
  passes-harmless (select_stmt rest) h = all_pass-all_harmless rest h
  passes-harmless (other rest) h = all_pass-all_harmless rest h

  all_pass-all_harmless :
      (ns : Nodes) → all_without_clauses ns ≡ true → all_pass ns ≡ all_harmless ns
  all_pass-all_harmless nil h = refl
  all_pass-all_harmless (cons n rest) h =
      let (one, two) = both_inversion _ _ h in
      both _ _ _ _ (passes-harmless n one) (all_pass-all_harmless rest two)

  ctes_pass-ctes_harmless :
      (c : Ctes) → ctes_without_clauses c ≡ true → ctes_pass c ≡ ctes_harmless c
  ctes_pass-ctes_harmless no_ctes h = refl
  ctes_pass-ctes_harmless (cte name query nil rest) h =
      let (one, two) = both_inversion _ _ h in
      both _ _ _ _ (and_true _ _ (passes-harmless query one)) (ctes_pass-ctes_harmless rest two)
  ctes_pass-ctes_harmless (cte name query (cons n clauses) rest) h = absurd (ground (arith, h))
