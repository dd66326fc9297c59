-- ===== src/Translate/CertainErrors/Unbound.antt =====
-- `unbound_variables` of arango_sparql/translate/expression_errors.py: what a warning of a certain error
-- names.
pub mod Scope
pub mod Names
use arango_sparql_py.Base.{
  String, ◌≡◌, Bool, true, false, not, ◌&&◌, Option, none, some, List, [], ◌∷◌, ◌++◌, refl, sym,
  subst, ◌∙◌, inl, inr, arith,
}
use arango_sparql_py.Base.Tests.{if◌then◌else◌, Bool-cases, and-eq-true}
use arango_sparql_py.Base.Eq.{◌==◌, nat_eq, list_eq, eq_iff}
use arango_sparql_py.Base.Lists.{any, all, contains, is_nil, any-append, all-append}
use arango_sparql_py.Base.Dict.{Dict, get}
use arango_sparql_py.Base.Str.{Str, codes}
use arango_sparql_py.Translate.{Term}
use arango_sparql_py.Translate.CertainErrors.{
  Expression, Arguments, Expressions, Part, metadata_keys, error_tolerant, all_operands, given,
  items_of, operands, one_of, under, operator, is_membership, certain, node_error, term_error,
  certainly_error, argument_errors, item_error, item_errors,
}
use Term.{iri, blank, variable, literal, path}
use Expression.{term, word, node}
use Arguments.{end, argument, arguments}
use Expressions.{nil, cons}
use Part.{single, several}

-- `out.extend(v for v in vs if v not in out)`
unfoldable pub extended : List Str → List Str → List Str
extended out [] = out
extended out (v ∷ vs) = extended (if contains v out then out else out ++ v ∷ []) vs

unfoldable pub all_extended : List Str → List (List Str) → List Str
all_extended out [] = out
all_extended out (vs ∷ vss) = all_extended (extended out vs) vss

module _ (in_scope : Str → Bool) where
  abbrev pub term_variables : Term → List Str
  term_variables (variable v) = if in_scope v then [] else v ∷ []
  term_variables _ = []

  unfoldable mutual
    -- `unbound_variables`
    pub unbound_variables : Expression → List Str
    unbound_variables (term t) = term_variables t
    unbound_variables (word s) = []
    unbound_variables (node name args) = all_extended [] (operands (argument_variables args))

    pub argument_variables : Arguments → Dict Str (Part (List Str))
    argument_variables end = []
    argument_variables (argument k e args) =
        (k, single (item_variables e)) ∷ argument_variables args
    argument_variables (arguments k es args) =
        (k, several (item_lists es)) ∷ argument_variables args

    -- a word is no sub-expression
    pub item_variables : Expression → Option (List Str)
    item_variables (term t) = some (term_variables t)
    item_variables (word s) = none
    item_variables (node name args) = some (all_extended [] (operands (argument_variables args)))

    pub item_lists : Expressions → List (Option (List Str))
    item_lists nil = []
    item_lists (cons e es) = item_variables e ∷ item_lists es
