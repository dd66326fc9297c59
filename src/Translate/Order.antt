-- ===== src/Translate/Order.antt =====
-- The order in which arango_sparql/translate/visitor.py emits the triples of a basic graph pattern.
-- `walks` answers from the triples emitted so far.
pub mod Places
pub mod Greedy
mod Tests
use arango_sparql_py.Base.{
  ℕ, zero, suc, ◌+◌, Bool, true, false, not, ◌||◌, ◌&&◌, Option, none, some, List, [], ◌∷◌, ◌++◌,
  map,
}
use arango_sparql_py.Base.Tests.{if◌then◌else◌, ltb}
use arango_sparql_py.Base.Eq.{◌==◌, nat_eq, list_eq}
use arango_sparql_py.Base.Lists.{contains, length}
use arango_sparql_py.Base.Str.{Str}
use arango_sparql_py.Translate.{Term, Triple, term_text, rdf_type}
use Term.{iri, blank, variable, literal, path}

-- `_term_known`
abbrev pub term_known : Term → List Str → Bool
term_known (variable v) bound = contains v bound
term_known (iri s) bound = true
term_known (literal s datatype lang) bound = true
term_known (blank s) bound = false
term_known (path s) bound = false

abbrev pub is_iri : Term → Bool
is_iri (iri s) = true
is_iri _ = false

abbrev pub is_rdf_type : Term → Bool
is_rdf_type (iri s) = s == rdf_type
is_rdf_type _ = false

abbrev pub is_type_pattern : Triple → Bool
is_type_pattern t = is_rdf_type t.predicate && is_iri t.object

abbrev pub is_variable_of : Term → List Str → Bool
is_variable_of (variable v) names = contains v names
is_variable_of _ names = false

abbrev pub Item : Type 0
Item = ℕ × Triple

-- `remaining.remove`, of the first item with the place
unfoldable pub removed : ℕ → List Item → List Item
removed i [] = []
removed i (e ∷ es) = let rest = removed i es in if e.0 == i then es else e ∷ rest

abbrev pub bind_term : Term → List Str → List Str
bind_term (variable v) bound = v ∷ bound
bind_term _ bound = bound

abbrev pub bind_variables : Triple → List Str → List Str
bind_variables t bound = bind_term t.object (bind_term t.predicate (bind_term t.subject bound))

abbrev pub enumerate_from : ℕ → List Triple → List Item
enumerate_from i [] = []
enumerate_from i (t ∷ ts) = (i, t) ∷ enumerate_from (i + 1) ts

module _ (relationship_nodes exits : List Str) where
  -- `_join_rank`
  unfoldable pub join_rank : Triple → List Str → Bool → ℕ
  join_rank t bound walks =
      let known = term_known t.subject bound in
      if not known && is_variable_of t.subject relationship_nodes
      then if contains (term_text t.predicate) exits && term_known t.object bound then 4 else 6
      else if is_type_pattern t
      then if known then 0 else 3
      else if known
      then 1
      else if walks
      then 2
      else if term_known t.object bound
      then 4
      else 5

  module _ (walks : List Triple → Triple → Bool) where
    abbrev pub rank : List Str → List Triple → Item → ℕ
    rank bound emitted e = join_rank e.1 bound (walks emitted e.1)

    -- the order of the keys: the rank, then the place in the pattern
    unfoldable pub before : List Str → List Triple → Item → Item → Bool
    before bound emitted a b =
        ltb (rank bound emitted a) (rank bound emitted b)
        || (rank bound emitted a == rank bound emitted b && ltb a.0 b.0)

    -- `min` returns the first of the smallest.
    unfoldable pub best_of : List Str → List Triple → Item → List Item → Item
    best_of bound emitted x [] = x
    best_of bound emitted x (y ∷ ys) =
        best_of bound emitted (if before bound emitted y x then y else x) ys

    -- the loop, on fuel: one round for each triple
    unfoldable pub order_items : ℕ → List Str → List Triple → List Item → List Item
    order_items zero bound emitted remaining = []
    order_items (suc n) bound emitted [] = []
    order_items (suc n) bound emitted (e ∷ es) =
        let best = best_of bound emitted e es in
        best
        ∷ order_items n (bind_variables best.1 bound) (emitted ++ best.1 ∷ [])
            (removed best.0 (e ∷ es))

    -- `_iter_bgp_order`, as the list it yields
    unfoldable pub iter_bgp_order : List Triple → List Str → List Triple
    iter_bgp_order triples bound =
        map (λ (e : Item). e.1) (order_items (length triples) bound [] (enumerate_from 0 triples))

  -- `_order_bgp`
  unfoldable pub order_bgp : List Triple → List Str → List Triple
  order_bgp triples bound = iter_bgp_order (λ emitted t. false) triples bound
