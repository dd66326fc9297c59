-- ===== src/Translate/CertainErrors/Semantics.antt =====
-- SPARQL's evaluation of expressions, as far as errors go: the reference for
-- arango_sparql/translate/expression_errors.py. A value is what a solution gives; none is an error.
use arango_sparql_py.Base.{Bool, true, false, not, ◌&&◌, Option, none, some, List, [], ◌∷◌}
use arango_sparql_py.Base.Tests.{if◌then◌else◌}
use arango_sparql_py.Base.Eq.{◌==◌, nat_eq, list_eq}
use arango_sparql_py.Base.Lists.{contains}
use arango_sparql_py.Base.Dict.{Dict, get}
use arango_sparql_py.Base.Str.{Str, codes}
use arango_sparql_py.Translate.{Term}
use arango_sparql_py.Translate.CertainErrors.{
  Expression, Arguments, Expressions, Part, error_tolerant, operands, under, operator,
  is_membership,
}
use Term.{variable}
use Expression.{term, word, node}
use Arguments.{end, argument, arguments}
use Expressions.{nil, cons}
use Part.{single, several}

-- The values, what a constant is, the effective boolean value, equality, and the functions: those that
-- read an unbound argument get its outcome, the others get values.
pub record Algebra : Type 1 where
  pub Value : Type 0
  pub constant : Term → Value
  pub truth : Bool → Value
  pub boolean : Value → Option Bool
  pub same : Value → Value → Option Bool
  pub tolerant : Str → List (Option Value) → Option Value
  pub strict : Str → List Value → Option Value

abbrev pub then_try {ℓ κ} : {A : Type ℓ} {B : Type κ} → Option A → (A → Option B) → Option B
then_try none f = none
then_try (some a) f = f a

-- all of them, if none is an error
abbrev pub values {ℓ} : {A : Type ℓ} → List (Option A) → Option (List A)
values [] = some []
values (none ∷ os) = none
values (some a ∷ os) = then_try (values os) (λ vs. some (a ∷ vs))

-- the conjunction of outcomes: false if any is false, else an error if any is
abbrev pub both : Option Bool → Option Bool → Option Bool
both (some false) b = some false
both (some true) b = b
both none (some false) = some false
both none _ = none

abbrev pub either : Option Bool → Option Bool → Option Bool
either (some true) b = some true
either (some false) b = b
either none (some true) = some true
either none _ = none

abbrev pub flat {ℓ} : {A : Type ℓ} → Option (Option A) → Option A
flat none = none
flat (some o) = o

module _ (a : Algebra) where
  open a use {Value, constant, truth, boolean, same, tolerant, strict}

  abbrev pub ebv : Option Value → Option Bool
  ebv o = then_try o boolean

  unfoldable pub conjunction : List (Option Value) → Option Bool
  conjunction [] = some true
  conjunction (o ∷ os) = both (ebv o) (conjunction os)

  unfoldable pub disjunction : List (Option Value) → Option Bool
  disjunction [] = some false
  disjunction (o ∷ os) = either (ebv o) (disjunction os)

  unfoldable pub coalesce : List (Option Value) → Option Value
  coalesce [] = none
  coalesce (none ∷ os) = coalesce os
  coalesce (some v ∷ os) = some v

  -- whether a value is among the members, which may be errors
  unfoldable pub member : Value → List (Option Value) → Option Bool
  member v [] = some false
  member v (o ∷ os) = either (then_try o (same v)) (member v os)

  abbrev pub negated : Option Str → Bool → Bool
  negated none b = b
  negated (some op) b = if op == codes "NOT IN" then not b else b

  abbrev pub as_value : Option Bool → Option Value
  as_value o = then_try o (λ b. some (truth b))

  abbrev pub members : Option (Part (Option Value)) → List (Option Value)
  members (some (several (some o ∷ os))) = o ∷ members (some (several os))
  members (some (several (none ∷ os))) = members (some (several os))
  members _ = []

  abbrev pub branch : Option Value → Option Value → Option Bool → Option Value
  branch yes_value no_value none = none
  branch yes_value no_value (some true) = yes_value
  branch yes_value no_value (some false) = no_value

  -- `outcomes` are those of the parts
  unfoldable pub apply : Str → Option Str → Dict Str (Part (Option Value)) → Option Value
  apply name op outcomes =
      if contains name error_tolerant
      then tolerant name (operands outcomes)
      else if name == codes "Builtin_IF"
      then branch (flat (under "arg2" outcomes)) (flat (under "arg3" outcomes))
          (ebv (flat (under "arg1" outcomes)))
      else if name == codes "ConditionalAndExpression"
      then as_value (conjunction (operands outcomes))
      else if name == codes "ConditionalOrExpression"
      then as_value (disjunction (operands outcomes))
      else if name == codes "Builtin_COALESCE"
      then coalesce (operands outcomes)
      else if name == codes "RelationalExpression" && is_membership op
      then then_try (flat (under "expr" outcomes)) (λ v.
        then_try (member v (members (get (codes "other") outcomes)))
          (λ b. some (truth (negated op b))))
      else then_try (values (operands outcomes)) (strict name)

  module _ (solution : Str → Option Value) where
    abbrev pub term_value : Term → Option Value
    term_value (variable v) = solution v
    term_value t = some (constant t)

    unfoldable mutual
      pub evaluate : Expression → Option Value
      evaluate (term t) = term_value t
      evaluate (word s) = none
      evaluate (node name args) = apply name (operator args) (argument_values args)

      pub argument_values : Arguments → Dict Str (Part (Option Value))
      argument_values end = []
      argument_values (argument k e args) = (k, single (item_value e)) ∷ argument_values args
      argument_values (arguments k es args) = (k, several (item_values es)) ∷ argument_values args

      pub item_value : Expression → Option (Option Value)
      item_value (term t) = some (term_value t)
      item_value (word s) = none
      item_value (node name args) = some (apply name (operator args) (argument_values args))

      pub item_values : Expressions → List (Option (Option Value))
      item_values nil = []
      item_values (cons e es) = item_value e ∷ item_values es
