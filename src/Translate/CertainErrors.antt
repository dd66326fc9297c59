-- ===== src/Translate/CertainErrors.antt =====
-- arango_sparql/translate/expression_errors.py: which expressions are an error in every solution. An
-- expression is a term, a node of rdflib with its keys and values, or a word such as an operator.
pub mod Semantics
pub mod Parts
pub mod Nodes
pub mod Sound
pub mod Unbound
mod Tests
use arango_sparql_py.Base.{
  String, Bool, true, false, not, ◌||◌, ◌&&◌, Option, none, some, List, [], ◌∷◌, ◌++◌, map,
}
use arango_sparql_py.Base.Tests.{if◌then◌else◌}
use arango_sparql_py.Base.Eq.{◌==◌, nat_eq, list_eq}
use arango_sparql_py.Base.Lists.{any, all, contains, is_nil}
use arango_sparql_py.Base.Dict.{Dict, get}
use arango_sparql_py.Base.Str.{Str, codes}
use arango_sparql_py.Translate.{Term}
use Term.{iri, blank, variable, literal, path}

mutual
  pub data Expression : Type 0 where
    term : Term → Expression
    word : Str → Expression
    node : Str → Arguments → Expression

  pub data Arguments : Type 0 where
    end : Arguments
    argument : Str → Expression → Arguments → Arguments
    arguments : Str → Expressions → Arguments → Arguments

  pub data Expressions : Type 0 where
    nil : Expressions
    cons : Expression → Expressions → Expressions

-- What stands under a key: one item or a list; none where an item is no sub-expression.
pub data Part {ℓ} (A : Type ℓ) : Type ℓ where
  single : Option A → Part A
  several : List (Option A) → Part A

abbrev pub error_tolerant : List Str
error_tolerant = map codes ("Builtin_BOUND" ∷ "Builtin_EXISTS" ∷ "Builtin_NOTEXISTS" ∷ [])

abbrev pub all_operands : List Str
all_operands =
    map codes ("ConditionalAndExpression" ∷ "ConditionalOrExpression" ∷ "Builtin_COALESCE" ∷ [])

abbrev pub metadata_keys : List Str
metadata_keys = map codes ("_vars" ∷ "datatype" ∷ "lang" ∷ [])

abbrev pub given {ℓ} : {A : Type ℓ} → List (Option A) → List A
given [] = []
given (none ∷ os) = given os
given (some a ∷ os) = a ∷ given os

abbrev pub items_of {ℓ} : {A : Type ℓ} → Part A → List A
items_of (single o) = given (o ∷ [])
items_of (several os) = given os

-- `_operands`: the sub-expressions under all keys but the metadata
unfoldable pub operands {ℓ} : {A : Type ℓ} → Dict Str (Part A) → List A
operands [] = []
operands ((k, p) ∷ d) =
    let rest = operands d in if contains k metadata_keys then rest else items_of p ++ rest

-- `node.get(key)`, where it is one sub-expression
abbrev pub one_of {ℓ} : {A : Type ℓ} → Option (Part A) → Option A
one_of (some (single o)) = o
one_of _ = none

abbrev pub under {ℓ} : {A : Type ℓ} → String → Dict Str (Part A) → Option A
under k d = one_of (get (codes k) d)

-- `node.get("op")` where it is a text
unfoldable pub operator : Arguments → Option Str
operator end = none
operator (argument k (word s) args) = if k == codes "op" then some s else operator args
operator (argument k e args) = if k == codes "op" then none else operator args
operator (arguments k es args) = if k == codes "op" then none else operator args

abbrev pub is_membership : Option Str → Bool
is_membership none = false
is_membership (some op) = op == codes "IN" || op == codes "NOT IN"

abbrev pub certain : Option Bool → Bool
certain none = false
certain (some b) = b

-- The verdict on a node, from those on its parts.
unfoldable pub node_error : Str → Option Str → Dict Str (Part Bool) → Bool
node_error name op parts =
    if contains name error_tolerant
    then false
    else if name == codes "Builtin_IF"
    then certain (under "arg1" parts)
      || (certain (under "arg2" parts) && certain (under "arg3" parts))
    else if contains name all_operands
    then not (is_nil (operands parts)) && all (λ b. b) (operands parts)
    else if name == codes "RelationalExpression" && is_membership op
    then certain (under "expr" parts)
    else any (λ b. b) (operands parts)

module _ (in_scope : Str → Bool) where
  abbrev pub term_error : Term → Bool
  term_error (variable v) = not (in_scope v)
  term_error _ = false

  unfoldable mutual
    -- `certainly_error`
    pub certainly_error : Expression → Bool
    certainly_error (term t) = term_error t
    certainly_error (word s) = false
    certainly_error (node name args) = node_error name (operator args) (argument_errors args)

    pub argument_errors : Arguments → Dict Str (Part Bool)
    argument_errors end = []
    argument_errors (argument k e args) = (k, single (item_error e)) ∷ argument_errors args
    argument_errors (arguments k es args) = (k, several (item_errors es)) ∷ argument_errors args

    -- a word is no sub-expression
    pub item_error : Expression → Option Bool
    item_error (term t) = some (term_error t)
    item_error (word s) = none
    item_error (node name args) = some (node_error name (operator args) (argument_errors args))

    pub item_errors : Expressions → List (Option Bool)
    item_errors nil = []
    item_errors (cons e es) = item_error e ∷ item_errors es
