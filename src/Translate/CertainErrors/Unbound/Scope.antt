-- ===== src/Translate/CertainErrors/Unbound/Scope.antt =====
-- What `unbound_variables` of arango_sparql/translate/expression_errors.py names is out of scope.
use arango_sparql_py.Base.{
  ◌≡◌, Bool, true, not, Option, List, [], ◌∷◌, ◌++◌, refl, ◌∙◌, inl, inr, arith,
}
use arango_sparql_py.Base.Tests.{Bool-cases, and-eq-true}
use arango_sparql_py.Base.Eq.{nat_eq, list_eq}
use arango_sparql_py.Base.Lists.{all, contains, all-append}
use arango_sparql_py.Base.Dict.{Dict}
use arango_sparql_py.Base.Str.{Str}
use arango_sparql_py.Translate.{Term}
use arango_sparql_py.Translate.CertainErrors.{
  Expression, Arguments, Expressions, Part, metadata_keys, given, items_of, operands,
}
use Term.{iri, blank, variable, literal, path}
use Expression.{term, word, node}
use Arguments.{end, argument, arguments}
use Expressions.{nil, cons}
use Part.{single, several}
use arango_sparql_py.Translate.CertainErrors.Unbound.{
  extended, all_extended, term_variables, unbound_variables, argument_variables, item_variables,
  item_lists,
}

module _ (in_scope : Str → Bool) where
  abbrev pub out_of_scope : List Str → Bool
  out_of_scope vs = all (λ v. not (in_scope v)) vs

  extended-scope :
      (out vs : List Str)
      → out_of_scope out ≡ true
      → out_of_scope vs ≡ true
      → out_of_scope (extended out vs) ≡ true
  unfolding extended
  extended-scope out [] h k = h
  extended-scope out (v ∷ vs) h k = elim (Bool-cases (contains v out)) [
    | inl old ↦ rw old (extended-scope out vs h (ground arith))
    | inr new ↦ rw new (
        extended-scope (out ++ v ∷ []) vs
          (all-append (λ v. not (in_scope v)) out (v ∷ []) ∙ ground arith) (ground arith))
  ]

  all_extended-scope :
      (out : List Str) (vss : List (List Str))
      → out_of_scope out ≡ true
      → all out_of_scope vss ≡ true
      → out_of_scope (all_extended out vss) ≡ true
  unfolding all_extended
  all_extended-scope out [] h k = h
  all_extended-scope out (vs ∷ vss) h k =
      let (here, later) = and-eq-true (out_of_scope vs) (all out_of_scope vss) k in
      all_extended-scope (extended out vs) vss (extended-scope out vs h here) later

  term_variables-scope : (t : Term) → out_of_scope (term_variables in_scope t) ≡ true
  term_variables-scope (variable v) = ground arith
  term_variables-scope (iri s) = refl
  term_variables-scope (blank s) = refl
  term_variables-scope (literal s d l) = refl
  term_variables-scope (path s) = refl

  operands-scope :
      (k : Str) (q : Part (List Str)) (d : Dict Str (Part (List Str)))
      → all out_of_scope (items_of q) ≡ true
      → all out_of_scope (operands d) ≡ true
      → all out_of_scope (operands ((k, q) ∷ d)) ≡ true
  unfolding operands
  operands-scope k q d h rest = elim (Bool-cases (contains k metadata_keys)) [
    | inl skip ↦ rw skip rest
    | inr stays ↦ rw stays (all-append out_of_scope (items_of q) (operands d) ∙ rw h rest)
  ]

  mutual
    unfolding item_variables item_lists argument_variables operands

    item-scope :
        (e : Expression) (rest : List (Option (List Str)))
        → all out_of_scope (given rest) ≡ true
        → all out_of_scope (given (item_variables in_scope e ∷ rest)) ≡ true
    item-scope (term t) rest h = rw (term_variables-scope t) h
    item-scope (word s) rest h = h
    item-scope (node name args) rest h =
        rw
          (all_extended-scope [] (operands (argument_variables in_scope args)) refl
            (arguments-scope args))
          h

    items-scope : (es : Expressions) → all out_of_scope (given (item_lists in_scope es)) ≡ true
    items-scope nil = refl
    items-scope (cons e es) = item-scope e (item_lists in_scope es) (items-scope es)

    arguments-scope :
        (args : Arguments) → all out_of_scope (operands (argument_variables in_scope args)) ≡ true
    arguments-scope end = refl
    arguments-scope (argument k e args) =
        operands-scope k (single (item_variables in_scope e)) (argument_variables in_scope args)
          (item-scope e [] refl) (arguments-scope args)
    arguments-scope (arguments k es args) =
        operands-scope k (several (item_lists in_scope es)) (argument_variables in_scope args)
          (items-scope es) (arguments-scope args)

  pub unbound_variables-scope :
      (e : Expression) → out_of_scope (unbound_variables in_scope e) ≡ true
  unfolding unbound_variables
  unbound_variables-scope (term t) = term_variables-scope t
  unbound_variables-scope (word s) = refl
  unbound_variables-scope (node name args) =
      all_extended-scope [] (operands (argument_variables in_scope args)) refl
        (arguments-scope args)
