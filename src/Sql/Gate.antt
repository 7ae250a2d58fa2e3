-- ===== src/Sql/Gate.antt =====
-- The gate of services/agent_sql.py against its reference definition.
mod Content
mod Harmless
unfoldable pub use Content.*
unfoldable pub use Harmless.{harmless, has_no_clauses}
pub use Harmless.{passes-harmless}
use powabase_ai.Prelude.{
  ◌≡◌, refl, sym, ap, ◌∙◌, fun_ext, Bool, true, false, ◌&&◌, ◌||◌, Option, none, some, List, [],
  ◌∷◌, ◌++◌, String, elem, if◌then◌else◌, arith, Bool-cases, inl, inr,
}
use mathlib.Core.List.{append_assoc, append-nil}
use powabase_ai.Sql.{
  Node, Nodes, Ctes, forbidden, range_var, func_call, a_expr, sub_link, sort_by, type_name,
  select_with, select_stmt, other, nil, cons, no_ctes, cte, ParsedSelect, last_of, may_call,
  may_operate, may_cast, add_operator, add_given_operator, cte_names, hides, add_relation, walk,
  walk_nodes, walk_ctes, nothing_parsed, is_select,
}

contents_rebound :
    (ok : Bool) (scopes : List (List String)) (names : List String) (ns : Nodes) (p : ParsedSelect)
    (m : Option ParsedSelect)
    → m ≡ accepted ok p (contents (hides (scopes ++ names ∷ [])) ns)
    → m ≡ accepted ok p (contents (also (hides scopes) names) ns)
contents_rebound ok scopes names ns p m e =
    e ∙ ap (λ (b : String → Bool). accepted ok p (contents b ns)) (hides-snoc scopes names)

-- `walk`, in any scopes and after any nodes, lets exactly the nodes pass that it is to, and adds
-- to what it has their content, names resolved as the scopes bind them.
mutual
  unfolding walk passes content

  walk-content :
      (n : Node) (scopes : List (List String)) (p : ParsedSelect)
      → walk n scopes p ≡ accepted (passes n) p (content (hides scopes) n)
  walk-content (forbidden rest) scopes p = refl
  walk-content (range_var schema name) scopes p = ap some (add_relation-table scopes schema name p)
  walk-content (func_call parts rest) scopes p =
      guarded_then (may_call parts) (all_pass rest) p
        (record nothing_parsed { functions = last_of parts ∷ [] }) (contents (hides scopes) rest)
        (walk_nodes rest scopes (record p { functions = p.functions ++ last_of parts ∷ [] }))
        (ap (λ (q : ParsedSelect). walk_nodes rest scopes q) (function_added p (last_of parts ∷ []))
          ∙ walk_nodes-contents rest scopes _)
  walk-content (a_expr true parts rest) scopes p =
      ap (λ (q : ParsedSelect). walk_nodes rest scopes q) (operators_added p (">=" ∷ "<=" ∷ []))
      ∙ walk_nodes-contents rest scopes _
      ∙ accepted_assoc (all_pass rest) p _ _
  walk-content (a_expr false parts rest) scopes p =
      then_accepted (may_operate parts) (all_pass rest) p
        (record nothing_parsed { operators = last_of parts ∷ [] }) (contents (hides scopes) rest)
        (add_operator parts p) (λ q. walk_nodes rest scopes q) (add_operator_lem parts p)
        (λ q. walk_nodes-contents rest scopes q)
  walk-content (sub_link parts rest) scopes p =
      then_accepted (given_may_operate parts) (all_pass rest) p
        (record nothing_parsed { operators = given_operator parts }) (contents (hides scopes) rest)
        (add_given_operator parts p) (λ q. walk_nodes rest scopes q)
        (add_given_operator_lem parts p) (λ q. walk_nodes-contents rest scopes q)
  walk-content (sort_by parts rest) scopes p =
      then_accepted (given_may_operate parts) (all_pass rest) p
        (record nothing_parsed { operators = given_operator parts }) (contents (hides scopes) rest)
        (add_given_operator parts p) (λ q. walk_nodes rest scopes q)
        (add_given_operator_lem parts p) (λ q. walk_nodes-contents rest scopes q)
  walk-content (type_name parts printed) scopes p =
      ap (λ (q : ParsedSelect). if may_cast parts then some q else none)
        (type_added p (printed ∷ []))
  walk-content (select_with true ctes rest) scopes p =
      then_accepted (ctes_pass ctes) (all_pass rest) p
        (cte_contents true (also (hides scopes) (cte_names ctes)) ctes)
        (contents (also (hides scopes) (cte_names ctes)) rest)
        (walk_ctes true (cte_names ctes) [] ctes scopes p)
        (λ q. walk_nodes rest (scopes ++ cte_names ctes ∷ []) q)
        (walk_ctes-contents_recursive (cte_names ctes) [] ctes scopes p)
        (λ q.
          contents_rebound (all_pass rest) scopes (cte_names ctes) rest q _
            (walk_nodes-contents rest (scopes ++ cte_names ctes ∷ []) q))
  walk-content (select_with false ctes rest) scopes p =
      then_accepted (ctes_pass ctes) (all_pass rest) p (cte_contents false (hides scopes) ctes)
        (contents (also (hides scopes) (cte_names ctes)) rest)
        (walk_ctes false (cte_names ctes) [] ctes scopes p)
        (λ q. walk_nodes rest (scopes ++ cte_names ctes ∷ []) q)
        (walk_ctes-contents (cte_names ctes) [] ctes scopes p
          ∙ ap (λ (b : String → Bool). accepted (ctes_pass ctes) p (cte_contents false b ctes))
              (also-nil (hides scopes)))
        (λ q.
          contents_rebound (all_pass rest) scopes (cte_names ctes) rest q _
            (walk_nodes-contents rest (scopes ++ cte_names ctes ∷ []) q))
  walk-content (select_stmt rest) scopes p = walk_nodes-contents rest scopes p
  walk-content (other rest) scopes p = walk_nodes-contents rest scopes p

  walk_nodes-contents :
      (ns : Nodes) (scopes : List (List String)) (p : ParsedSelect)
      → walk_nodes ns scopes p ≡ accepted (all_pass ns) p (contents (hides scopes) ns)
  walk_nodes-contents nil scopes p = ap some (sym (⊕-nothing_parsed p))
  walk_nodes-contents (cons n rest) scopes p =
      then_accepted (passes n) (all_pass rest) p (content (hides scopes) n)
        (contents (hides scopes) rest) (walk n scopes p) (λ q. walk_nodes rest scopes q)
        (walk-content n scopes p) (λ q. walk_nodes-contents rest scopes q)

  walk_ctes-contents_recursive :
      (names before : List String) (c : Ctes) (scopes : List (List String)) (p : ParsedSelect)
      → walk_ctes true names before c scopes p
        ≡ accepted (ctes_pass c) p (cte_contents true (also (hides scopes) names) c)
  walk_ctes-contents_recursive names before no_ctes scopes p = ap some (sym (⊕-nothing_parsed p))
  walk_ctes-contents_recursive names before (cte name query clauses rest) scopes p =
      then_accepted (passes query) (ctes_pass rest) p (content (also (hides scopes) names) query)
        (cte_contents true (also (hides scopes) names) rest) (walk query (scopes ++ names ∷ []) p)
        (λ q. walk_ctes true names (before ++ name ∷ []) rest scopes q)
        (walk-content query (scopes ++ names ∷ []) p
          ∙ ap (λ (b : String → Bool). accepted (passes query) p (content b query))
              (hides-snoc scopes names))
        (λ q. walk_ctes-contents_recursive names (before ++ name ∷ []) rest scopes q)

  walk_ctes-contents :
      (names before : List String) (c : Ctes) (scopes : List (List String)) (p : ParsedSelect)
      → walk_ctes false names before c scopes p
        ≡ accepted (ctes_pass c) p (cte_contents false (also (hides scopes) before) c)
  walk_ctes-contents names before no_ctes scopes p = ap some (sym (⊕-nothing_parsed p))
  walk_ctes-contents names before (cte name query clauses rest) scopes p =
      then_accepted (passes query) (ctes_pass rest) p (content (also (hides scopes) before) query)
        (cte_contents false (also (also (hides scopes) before) (name ∷ [])) rest)
        (walk query (scopes ++ before ∷ []) p)
        (λ q. walk_ctes false names (before ++ name ∷ []) rest scopes q)
        (walk-content query (scopes ++ before ∷ []) p
          ∙ ap (λ (b : String → Bool). accepted (passes query) p (content b query))
              (hides-snoc scopes before))
        (λ q.
          walk_ctes-contents names (before ++ name ∷ []) rest scopes q
          ∙ ap (λ (b : String → Bool). accepted (ctes_pass rest) q (cte_contents false b rest))
              (also-snoc (hides scopes) before name))

abbrev pub one_select : Option (List Node) → Option Node
one_select (some (statement ∷ [])) = if is_select statement then some statement else none
one_select _ = none
