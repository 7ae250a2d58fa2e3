-- ===== src/Sql/Gate/Content.antt =====
-- What the gate of services/agent_sql.py accepts and reports: a reference definition without the
-- state of the walk, with name resolution as Postgres does it.
use powabase_ai.Prelude.{
  ◌≡◌, refl, sym, ap, ◌∙◌, fun_ext, Bool, true, false, ◌&&◌, ◌||◌, Option, none, some, ◌>>=◌, List,
  [], ◌∷◌, ◌++◌, String, elem, if◌then◌else◌, arith, Bool-cases, inl, inr,
}
use mathlib.Core.List.{append_assoc, append-nil}
use powabase_ai.Sql.{
  Node, Nodes, Ctes, forbidden, range_var, func_call, a_expr, sub_link, sort_by, type_name,
  select_with, select_stmt, other, nil, cons, no_ctes, cte, ParsedSelect, last_of, may_call,
  may_operate, may_cast, add_operator, add_given_operator, cte_names, hides, add_relation,
  nothing_parsed,
}

infixl 65 ◌⊕◌
abbrev pub ◌⊕◌ : ParsedSelect → ParsedSelect → ParsedSelect
p ⊕ q = record {
  relations = p.relations ++ q.relations;
  functions = p.functions ++ q.functions;
  operators = p.operators ++ q.operators;
  types = p.types ++ q.types;
}

pub ⊕_assoc : (p q r : ParsedSelect) → (p ⊕ q) ⊕ r ≡ p ⊕ (q ⊕ r)
⊕_assoc p q r = simp append_assoc

pub ⊕-nothing_parsed : (p : ParsedSelect) → p ⊕ nothing_parsed ≡ p
⊕-nothing_parsed p = simp append-nil

abbrev pub given_may_operate : List String → Bool
given_may_operate [] = true
given_may_operate (x ∷ parts) = may_operate (x ∷ parts)

abbrev pub given_operator : List String → List String
given_operator [] = []
given_operator (x ∷ parts) = last_of (x ∷ parts) ∷ []

-- The walk lets every node that it visits pass.
unfoldable mutual
  pub passes : Node → Bool
  passes (forbidden rest) = false
  passes (range_var schema name) = true
  passes (func_call parts rest) = may_call parts && all_pass rest
  passes (a_expr true parts rest) = all_pass rest
  passes (a_expr false parts rest) = may_operate parts && all_pass rest
  passes (sub_link parts rest) = given_may_operate parts && all_pass rest
  passes (sort_by parts rest) = given_may_operate parts && all_pass rest
  passes (type_name parts printed) = may_cast parts
  passes (select_with recursive ctes rest) = ctes_pass ctes && all_pass rest
  passes (select_stmt rest) = all_pass rest
  passes (other rest) = all_pass rest

  pub all_pass : Nodes → Bool
  all_pass nil = true
  all_pass (cons n rest) = passes n && all_pass rest

  pub ctes_pass : Ctes → Bool
  ctes_pass no_ctes = true
  ctes_pass (cte name query clauses rest) = passes query && ctes_pass rest

-- `bound` says which names stand for a CTE.
abbrev pub also : (String → Bool) → List String → String → Bool
also bound names x = bound x || elem x names

abbrev pub table : (String → Bool) → Option String → String → List (Option String × String)
table bound (some schema) name = (some schema, name) ∷ []
table bound none name = if bound name then [] else (none, name) ∷ []

-- What a node names: a table where Postgres would not take the name for that of a CTE.
unfoldable mutual
  pub content : (String → Bool) → Node → ParsedSelect
  content bound (forbidden rest) = nothing_parsed
  content bound (range_var schema name) = record nothing_parsed {
    relations = table bound schema name;
  }
  content bound (func_call parts rest) =
      record nothing_parsed { functions = last_of parts ∷ [] } ⊕ contents bound rest
  content bound (a_expr true parts rest) =
      record nothing_parsed { operators = ">=" ∷ "<=" ∷ [] } ⊕ contents bound rest
  content bound (a_expr false parts rest) =
      record nothing_parsed { operators = last_of parts ∷ [] } ⊕ contents bound rest
  content bound (sub_link parts rest) =
      record nothing_parsed { operators = given_operator parts } ⊕ contents bound rest
  content bound (sort_by parts rest) =
      record nothing_parsed { operators = given_operator parts } ⊕ contents bound rest
  content bound (type_name parts printed) = record nothing_parsed { types = printed ∷ [] }
  content bound (select_with true ctes rest) =
      cte_contents true (also bound (cte_names ctes)) ctes
      ⊕ contents (also bound (cte_names ctes)) rest
  content bound (select_with false ctes rest) =
      cte_contents false bound ctes ⊕ contents (also bound (cte_names ctes)) rest
  content bound (select_stmt rest) = contents bound rest
  content bound (other rest) = contents bound rest

  pub contents : (String → Bool) → Nodes → ParsedSelect
  contents bound nil = nothing_parsed
  contents bound (cons n rest) = content bound n ⊕ contents bound rest

  -- a CTE of a WITH that is not RECURSIVE is bound in those after it
  pub cte_contents : Bool → (String → Bool) → Ctes → ParsedSelect
  cte_contents recursive bound no_ctes = nothing_parsed
  cte_contents true bound (cte name query clauses rest) =
      content bound query ⊕ cte_contents true bound rest
  cte_contents false bound (cte name query clauses rest) =
      content bound query ⊕ cte_contents false (also bound (name ∷ [])) rest

abbrev pub accepted : Bool → ParsedSelect → ParsedSelect → Option ParsedSelect
accepted ok p q = if ok then some (p ⊕ q) else none

pub any-snoc :
    (scopes : List (List String)) (names : List String) (x : String)
    → hides (scopes ++ names ∷ []) x ≡ also (hides scopes) names x
any-snoc [] names x = ground arith
any-snoc (scope ∷ scopes) names x = ground (arith, any-snoc scopes names x)

pub hides-snoc :
    (scopes : List (List String)) (names : List String)
    → hides (scopes ++ names ∷ []) ≡ also (hides scopes) names
hides-snoc scopes names = fun_ext (any-snoc scopes names)

pub elem-snoc :
    (before : List String) (name x : String)
    → elem x (before ++ name ∷ []) ≡ (elem x before || elem x (name ∷ []))
elem-snoc [] name x = refl
elem-snoc (b ∷ before) name x = ground (arith, elem-snoc before name x)

pub also-snoc :
    (bound : String → Bool) (before : List String) (name : String)
    → also bound (before ++ name ∷ []) ≡ also (also bound before) (name ∷ [])
also-snoc bound before name = fun_ext (λ x. ground (arith, elem-snoc before name x))

pub also-nil : (bound : String → Bool) → also bound [] ≡ bound
also-nil bound = fun_ext (λ x. ground arith)

pub accepted_assoc :
    (ok : Bool) (p q r : ParsedSelect) → accepted ok (p ⊕ q) r ≡ accepted ok p (q ⊕ r)
accepted_assoc ok p q r = ap (λ (x : ParsedSelect). if ok then some x else none) (⊕_assoc p q r)

pub accepted_then :
    (ok ok' : Bool) (p q r : ParsedSelect) (f : ParsedSelect → Option ParsedSelect)
    → ((s : ParsedSelect) → f s ≡ accepted ok' s r)
    → (accepted ok p q >>= f) ≡ accepted (ok && ok') p (q ⊕ r)
accepted_then true ok' p q r f h = h (p ⊕ q) ∙ accepted_assoc ok' p q r
accepted_then false ok' p q r f h = refl

pub then_accepted :
    (ok ok' : Bool) (p q r : ParsedSelect) (m : Option ParsedSelect)
    (f : ParsedSelect → Option ParsedSelect)
    → m ≡ accepted ok p q
    → ((s : ParsedSelect) → f s ≡ accepted ok' s r)
    → (m >>= f) ≡ accepted (ok && ok') p (q ⊕ r)
then_accepted ok ok' p q r m f e h =
    ap (λ (x : Option ParsedSelect). x >>= f) e ∙ accepted_then ok ok' p q r f h

pub guarded_then :
    (ok ok' : Bool) (p q r : ParsedSelect) (m : Option ParsedSelect)
    → m ≡ accepted ok' (p ⊕ q) r
    → (if ok then m else none) ≡ accepted (ok && ok') p (q ⊕ r)
guarded_then true ok' p q r m h = h ∙ accepted_assoc ok' p q r
guarded_then false ok' p q r m h = refl

pub add_relation-table :
    (scopes : List (List String)) (schema : Option String) (name : String) (p : ParsedSelect)
    → add_relation scopes schema name p
      ≡ p ⊕ record nothing_parsed { relations = table (hides scopes) schema name }
add_relation-table scopes (some schema) name p = simp append-nil
add_relation-table scopes none name p = elim (Bool-cases (hides scopes name)) [
  | inl bound ↦ rw (bound) (simp append-nil)
  | inr free ↦ rw (free) (simp append-nil)
]

pub function_added :
    (p : ParsedSelect) (l : List String)
    → record p { functions = p.functions ++ l } ≡ p ⊕ record nothing_parsed { functions = l }
function_added p l = simp append-nil

pub operators_added :
    (p : ParsedSelect) (l : List String)
    → record p { operators = p.operators ++ l } ≡ p ⊕ record nothing_parsed { operators = l }
operators_added p l = simp append-nil

pub type_added :
    (p : ParsedSelect) (l : List String)
    → record p { types = p.types ++ l } ≡ p ⊕ record nothing_parsed { types = l }
type_added p l = simp append-nil

pub add_operator_lem :
    (parts : List String) (p : ParsedSelect)
    → add_operator parts p
      ≡ accepted (may_operate parts) p (record nothing_parsed { operators = last_of parts ∷ [] })
unfolding add_operator
add_operator_lem parts p =
    ap (λ (x : ParsedSelect). if may_operate parts then some x else none)
      (operators_added p (last_of parts ∷ []))

pub add_given_operator_lem :
    (parts : List String) (p : ParsedSelect)
    → add_given_operator parts p
      ≡ accepted
          (given_may_operate parts)
          p
          (record nothing_parsed { operators = given_operator parts })
unfolding add_given_operator
add_given_operator_lem [] p = ap some (sym (⊕-nothing_parsed p))
add_given_operator_lem (x ∷ parts) p = add_operator_lem (x ∷ parts) p
