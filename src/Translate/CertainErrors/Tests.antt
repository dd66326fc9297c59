-- ===== src/Translate/CertainErrors/Tests.antt =====
-- Expressions that arango_sparql/translate/expression_errors.py decides.
use arango_sparql_py.Base.{◌≡◌, Bool, true, false, not, Option, none, some, [], ◌∷◌, refl}
use arango_sparql_py.Base.Lists.{all, is_nil}
use arango_sparql_py.Translate.CertainErrors.Unbound.Names.{unbound_variables-explain}
use arango_sparql_py.Translate.CertainErrors.Unbound.{
  extended, all_extended, unbound_variables, argument_variables, item_variables, item_lists,
}
use arango_sparql_py.Base.Tests.{if◌then◌else◌}
use arango_sparql_py.Base.Eq.{◌==◌, nat_eq, list_eq}
use arango_sparql_py.Base.Dict.{get}
use arango_sparql_py.Base.Str.{Str, codes}
use arango_sparql_py.Translate.{Term}
use arango_sparql_py.Translate.CertainErrors.{
  Expression, Arguments, Expressions, operands, operator, node_error, certainly_error,
  argument_errors, item_error, item_errors,
}
use arango_sparql_py.Translate.CertainErrors.Semantics.{Algebra, evaluate}
use arango_sparql_py.Translate.CertainErrors.Sound.{certainly_error-Sound}
use Term.{variable, literal}
use Expression.{term, node}
use Arguments.{end, argument, arguments}
use Expressions.{nil, cons}

-- `CONCAT(?n, "!")`, and `?m || CONCAT(?n, "!")`
abbrev shout : Expression
shout = node (codes "Builtin_CONCAT") (
    arguments (codes "arg")
      (cons (term (variable (codes "n"))) (cons (term (literal (codes "!") none none)) nil)) end)

abbrev either_one : Expression
either_one = node (codes "ConditionalOrExpression") (
    argument (codes "expr") (term (variable (codes "m")))
      (arguments (codes "other") (cons shout nil) end))

-- texts as values, of which the empty one is false
abbrev plain_texts : Algebra
plain_texts = record {
  Value = Str;
  constant = λ t. [];
  truth = λ b. [];
  boolean = λ v. some false;
  same = λ v w. some (v == w);
  tolerant = λ f os. some [];
  strict = λ f vs. some f;
}

abbrev only_m : Str → Bool
only_m v = v == codes "m"

abbrev solution : Str → Option Str
solution v = if v == codes "m" then some v else none

unbound : (v : Str) → only_m v ≡ false → solution v ≡ none
unbound v h = rw h refl

either_test : certainly_error only_m either_one ≡ false
unfolding certainly_error argument_errors item_error item_errors node_error operands operator get
either_test = refl

certainly_error-Sound_example : evaluate plain_texts solution shout ≡ none
unfolding certainly_error argument_errors item_error item_errors node_error operands operator get
certainly_error-Sound_example = certainly_error-Sound plain_texts only_m solution unbound shout refl

shout_test : unbound_variables only_m either_one ≡ codes "n" ∷ []
unfolding unbound_variables argument_variables item_variables item_lists all_extended extended
    operands
shout_test = refl

unbound_variables-explain_example :
    (is_nil (unbound_variables only_m shout) ≡ false)
    × (all (λ v. not (only_m v)) (unbound_variables only_m shout) ≡ true)
unfolding certainly_error argument_errors item_error item_errors node_error operands operator get
unbound_variables-explain_example = unbound_variables-explain only_m shout refl
