-- ===== src/Translate/CertainErrors/Sound.antt =====
-- What arango_sparql/translate/expression_errors.py takes for an error is one in SPARQL.
use arango_sparql_py.Base.{
  ◌≡◌, Bool, true, false, Option, none, some, List, [], ◌∷◌, map, refl, arith, ap, sym,
}
use arango_sparql_py.Base.Eq.{nat_eq, list_eq}
use arango_sparql_py.Base.Dict.{Dict}
use arango_sparql_py.Base.Str.{Str}
use arango_sparql_py.Translate.{Term}
use arango_sparql_py.Translate.CertainErrors.{
  Expression, Arguments, Expressions, Part, operator, node_error, term_error, certainly_error,
  argument_errors, item_error, item_errors,
}
use arango_sparql_py.Translate.CertainErrors.Semantics.{
  Algebra, apply, term_value, evaluate, argument_values, item_value, item_values,
}
use Term.{iri, blank, variable, literal, path}
use Expression.{term, word, node}
use Arguments.{end, argument, arguments}
use Expressions.{nil, cons}
use Part.{single, several}
use arango_sparql_py.Translate.CertainErrors.Parts.{map_option, map_parts}
use arango_sparql_py.Translate.CertainErrors.Nodes.{J, verdict_of, outcome_of, node-Claim}

module _ (a : Algebra) where
  open a use {Value}

  module _ (in_scope : Str → Bool) (solution : Str → Option Value)
      (unbound : (v : Str) → in_scope v ≡ false → solution v ≡ none) where
    term-agrees : (t : Term) → term_error in_scope t ≡ true → term_value a solution t ≡ none
    term-agrees (variable v) h = unbound v (ground arith)
    term-agrees (iri s) h = absurd (cc h)
    term-agrees (blank s) h = absurd (cc h)
    term-agrees (literal s x y) h = absurd (cc h)
    term-agrees (path s) h = absurd (cc h)

    abbrev judge_node : Str → Arguments → Dict Str (Part (J a)) → (J a)
    judge_node name args d = record {
      verdict = node_error name (operator args) (map_parts (verdict_of a) d);
      outcome = apply a name (operator args) (map_parts (outcome_of a) d);
      agrees = node-Claim a (operator args) d name;
    }

    mutual
      judge_item : Expression → Option (J a)
      judge_item (term t) = some (record {
        verdict = term_error in_scope t;
        outcome = term_value a solution t;
        agrees = term-agrees t;
      })
      judge_item (word s) = none
      judge_item (node name args) = some (judge_node name args (judge_arguments args))

      judge_items : Expressions → List (Option (J a))
      judge_items nil = []
      judge_items (cons e es) = judge_item e ∷ judge_items es

      judge_arguments : Arguments → Dict Str (Part (J a))
      judge_arguments end = []
      judge_arguments (argument k e args) = (k, single (judge_item e)) ∷ judge_arguments args
      judge_arguments (arguments k es args) = (k, several (judge_items es)) ∷ judge_arguments args

    mutual
      unfolding item_error item_errors argument_errors judge_item judge_items judge_arguments

      verdict-item :
          (e : Expression) → map_option (verdict_of a) (judge_item e) ≡ item_error in_scope e
      verdict-item (term t) = refl
      verdict-item (word s) = refl
      verdict-item (node name args) =
          ap (λ d. some (node_error name (operator args) d)) (verdict-arguments args)

      verdict-items :
          (es : Expressions)
          → map (map_option (verdict_of a)) (judge_items es) ≡ item_errors in_scope es
      verdict-items nil = refl
      verdict-items (cons e es) = rw (verdict-item e) (rw (verdict-items es) refl)

      verdict-arguments :
          (args : Arguments)
          → map_parts (verdict_of a) (judge_arguments args) ≡ argument_errors in_scope args
      verdict-arguments end = refl
      verdict-arguments (argument k e args) = rw (verdict-item e) (rw (verdict-arguments args) refl)
      verdict-arguments (arguments k es args) =
          rw (verdict-items es) (rw (verdict-arguments args) refl)

    mutual
      unfolding item_value item_values argument_values judge_item judge_items judge_arguments

      outcome-item :
          (e : Expression) → map_option (outcome_of a) (judge_item e) ≡ item_value a solution e
      outcome-item (term t) = refl
      outcome-item (word s) = refl
      outcome-item (node name args) =
          ap (λ d. some (apply a name (operator args) d)) (outcome-arguments args)

      outcome-items :
          (es : Expressions)
          → map (map_option (outcome_of a)) (judge_items es) ≡ item_values a solution es
      outcome-items nil = refl
      outcome-items (cons e es) = rw (outcome-item e) (rw (outcome-items es) refl)

      outcome-arguments :
          (args : Arguments)
          → map_parts (outcome_of a) (judge_arguments args) ≡ argument_values a solution args
      outcome-arguments end = refl
      outcome-arguments (argument k e args) = rw (outcome-item e) (rw (outcome-arguments args) refl)
      outcome-arguments (arguments k es args) =
          rw (outcome-items es) (rw (outcome-arguments args) refl)

    -- In a solution that leaves the variables that are not in scope unbound, an expression that is taken
    -- for certainly an error evaluates to an error, whatever the values, the functions and the bound
    -- variables are.
    pub certainly_error-Sound :
        (e : Expression) → certainly_error in_scope e ≡ true → evaluate a solution e ≡ none
    unfolding certainly_error evaluate
    certainly_error-Sound (term t) h = term-agrees t h
    certainly_error-Sound (word s) h = refl
    certainly_error-Sound (node name args) h =
        rw (sym (outcome-arguments args))
          (node-Claim a (operator args) (judge_arguments args) name (rw (verdict-arguments args) h))
