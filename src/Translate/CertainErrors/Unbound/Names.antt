-- ===== src/Translate/CertainErrors/Unbound/Names.antt =====
-- `unbound_variables` of arango_sparql/translate/expression_errors.py explains a certain error.
use arango_sparql_py.Base.{
  String, ◌≡◌, Bool, true, false, not, ◌&&◌, Option, none, some, List, [], ◌∷◌, ◌++◌, refl, sym,
  subst, ◌∙◌, inl, inr, arith,
}
use arango_sparql_py.Base.Tests.{Bool-cases}
use arango_sparql_py.Base.Eq.{◌==◌, nat_eq, list_eq, eq_iff}
use arango_sparql_py.Base.Lists.{any, all, contains, is_nil, any-append}
use arango_sparql_py.Base.Dict.{Dict, get}
use arango_sparql_py.Base.Str.{Str, codes}
use arango_sparql_py.Translate.{Term}
use arango_sparql_py.Translate.CertainErrors.{
  Expression, Arguments, Expressions, Part, metadata_keys, error_tolerant, all_operands, given,
  items_of, operands, one_of, under, operator, is_membership, certain, node_error, term_error,
  certainly_error, argument_errors, item_error, item_errors,
}
use Term.{iri, blank, variable, literal, path}
use Expression.{term, word, node}
use Arguments.{end, argument, arguments}
use Expressions.{nil, cons}
use Part.{single, several}
use arango_sparql_py.Translate.CertainErrors.Unbound.{
  extended, all_extended, term_variables, unbound_variables, argument_variables, item_variables,
  item_lists,
}
use arango_sparql_py.Translate.CertainErrors.Unbound.Scope.{unbound_variables-scope}

abbrev names_one : List Str → Bool
names_one vs = not (is_nil vs)

extended-keeps : (out vs : List Str) → names_one out ≡ true → names_one (extended out vs) ≡ true
unfolding extended
extended-keeps out [] h = h
extended-keeps [] (v ∷ vs) h = absurd (cc h)
extended-keeps (o ∷ out) (v ∷ vs) h = elim (Bool-cases (contains v (o ∷ out))) [
  | inl old ↦ rw old (extended-keeps (o ∷ out) vs refl)
  | inr new ↦ rw new (extended-keeps (o ∷ out ++ v ∷ []) vs refl)
]

extended-names : (out vs : List Str) → names_one vs ≡ true → names_one (extended out vs) ≡ true
unfolding extended
extended-names out [] h = absurd (cc h)
extended-names [] (v ∷ vs) h = extended-keeps (v ∷ []) vs refl
extended-names (o ∷ out) (v ∷ vs) h = extended-keeps (o ∷ out) (v ∷ vs) refl

all_extended-keeps :
    (out : List Str) (vss : List (List Str))
    → names_one out ≡ true
    → names_one (all_extended out vss) ≡ true
unfolding all_extended
all_extended-keeps out [] h = h
all_extended-keeps out (vs ∷ vss) h =
    all_extended-keeps (extended out vs) vss (extended-keeps out vs h)

all_extended-names :
    (out : List Str) (vss : List (List Str))
    → any names_one vss ≡ true
    → names_one (all_extended out vss) ≡ true
unfolding all_extended
all_extended-names out [] h = absurd (cc h)
all_extended-names out (vs ∷ vss) h = elim (Bool-cases (names_one vs)) [
  | inl here ↦ all_extended-keeps (extended out vs) vss (extended-names out vs here)
  | inr later ↦ all_extended-names (extended out vs) vss (ground (arith, later))
]

one_of-any : (p : Part Bool) → certain (one_of (some p)) ≡ true → any (λ b. b) (items_of p) ≡ true
one_of-any (single (some b)) h = ground arith
one_of-any (single none) h = absurd (cc h)
one_of-any (several os) h = absurd (cc h)

-- A verdict of error on a part that the operands have is one of theirs.
under-any :
    (k : String) (d : Dict Str (Part Bool))
    → contains (codes k) metadata_keys ≡ false
    → certain (under k d) ≡ true
    → any (λ b. b) (operands d) ≡ true
unfolding get operands
under-any k [] n h = absurd (cc h)
under-any k ((j, p) ∷ d) n h = elim (Bool-cases (j == codes k)) [
  | inl same ↦
      rw (subst (λ x. contains x metadata_keys ≡ false) (sym ((eq_iff j (codes k)).0 same)) n)
        (any-append (λ b. b) (items_of p) (operands d) ∙ rw (one_of-any p (rw same at h)) refl)
  | inr other ↦
      let later = under-any k d n (rw other at h) in
      elim (Bool-cases (contains j metadata_keys)) [
        | inl skip ↦ rw skip later
        | inr stays ↦
            rw stays (any-append (λ b. b) (items_of p) (operands d) ∙ ground (arith, later))
      ]
]

some_of_all :
    (bs : List Bool) → (not (is_nil bs) && all (λ b. b) bs) ≡ true → any (λ b. b) bs ≡ true
some_of_all [] h = absurd (cc h)
some_of_all (b ∷ bs) h = ground arith

node_error-any :
    (name : Str) (op : Option Str) (d : Dict Str (Part Bool))
    → node_error name op d ≡ true
    → any (λ b. b) (operands d) ≡ true
unfolding node_error
node_error-any name op d h = elim (Bool-cases (contains name error_tolerant)) [
  | inl tolerant ↦ absurd (cc (rw tolerant at h))
  | inr n0 ↦ elim (Bool-cases (name == codes "Builtin_IF")) [
    | inl choice ↦ elim (Bool-cases (certain (under "arg1" d))) [
      | inl test ↦ under-any "arg1" d refl test
      | inr fine ↦ under-any "arg2" d refl (ground (arith, rw (n0, choice, fine) at h))
    ]
    | inr n1 ↦ elim (Bool-cases (contains name all_operands)) [
      | inl every ↦ some_of_all (operands d) (rw (n0, n1, every) at h)
      | inr n2 ↦ elim (Bool-cases (name == codes "RelationalExpression" && is_membership op)) [
        | inl membership ↦ under-any "expr" d refl (rw (n0, n1, n2, membership) at h)
        | inr other ↦ rw (n0, n1, n2, other) at h
      ]
    ]
  ]
]

abbrev named : Option (List Str) → Bool
named none = false
named (some vs) = names_one vs

-- Where an error among some parts means a variable among theirs.
given-names :
    (o : Option Bool) (os : List (Option Bool)) (v : Option (List Str))
    (vs : List (Option (List Str)))
    → (certain o ≡ true → named v ≡ true)
    → (any (λ b. b) (given os) ≡ true → any names_one (given vs) ≡ true)
    → any (λ b. b) (given (o ∷ os)) ≡ true
    → any names_one (given (v ∷ vs)) ≡ true
given-names (some true) os none vs one rest h = absurd (cc (one refl))
given-names (some true) os (some v) vs one rest h = ground (arith, one refl)
given-names (some false) os none vs one rest h = rest h
given-names (some false) os (some v) vs one rest h = ground (arith, rest h)
given-names none os none vs one rest h = rest h
given-names none os (some v) vs one rest h = ground (arith, rest h)

operands-names :
    (k : Str) (p : Part Bool) (d : Dict Str (Part Bool)) (q : Part (List Str))
    (e : Dict Str (Part (List Str)))
    → (any (λ b. b) (items_of p) ≡ true → any names_one (items_of q) ≡ true)
    → (any (λ b. b) (operands d) ≡ true → any names_one (operands e) ≡ true)
    → any (λ b. b) (operands ((k, p) ∷ d)) ≡ true
    → any names_one (operands ((k, q) ∷ e)) ≡ true
unfolding operands
operands-names k p d q e one rest h = elim (Bool-cases (contains k metadata_keys)) [
  | inl skip ↦ rw skip (rest (rw skip at h))
  | inr stays ↦
      let either = sym (any-append (λ b. b) (items_of p) (operands d)) ∙ (rw stays at h) in
      rw stays (
        any-append names_one (items_of q) (operands e)
        ∙ elim (Bool-cases (any (λ b. b) (items_of p))) [
          | inl here ↦ rw (one here) refl
          | inr none_here ↦ ground (arith, rest (ground (arith, either, none_here)))
        ])
]

module _ (in_scope : Str → Bool) where
  term_error-names :
      (t : Term) → term_error in_scope t ≡ true → names_one (term_variables in_scope t) ≡ true
  term_error-names (variable v) h = ground arith
  term_error-names (iri s) h = absurd (cc h)
  term_error-names (blank s) h = absurd (cc h)
  term_error-names (literal s d l) h = absurd (cc h)
  term_error-names (path s) h = absurd (cc h)

  mutual
    unfolding item_error item_errors argument_errors item_variables item_lists argument_variables
        operands

    item-names :
        (e : Expression)
        → certain (item_error in_scope e) ≡ true
        → named (item_variables in_scope e) ≡ true
    item-names (term t) h = term_error-names t h
    item-names (word s) h = absurd (cc h)
    item-names (node name args) h =
        all_extended-names [] (operands (argument_variables in_scope args)) (
          arguments-names args
            (node_error-any name (operator args) (argument_errors in_scope args) h))

    items-names :
        (es : Expressions)
        → any (λ b. b) (given (item_errors in_scope es)) ≡ true
        → any names_one (given (item_lists in_scope es)) ≡ true
    items-names nil h = absurd (cc h)
    items-names (cons e es) h =
        given-names (item_error in_scope e) (item_errors in_scope es) (item_variables in_scope e)
          (item_lists in_scope es) (item-names e) (items-names es) h

    arguments-names :
        (args : Arguments)
        → any (λ b. b) (operands (argument_errors in_scope args)) ≡ true
        → any names_one (operands (argument_variables in_scope args)) ≡ true
    arguments-names end h = absurd (cc h)
    arguments-names (argument k e args) h =
        operands-names k (single (item_error in_scope e)) (argument_errors in_scope args)
          (single (item_variables in_scope e)) (argument_variables in_scope args)
          (given-names (item_error in_scope e) [] (item_variables in_scope e) [] (item-names e)
            (λ x. absurd (cc x)))
          (arguments-names args) h
    arguments-names (arguments k es args) h =
        operands-names k (several (item_errors in_scope es)) (argument_errors in_scope args)
          (several (item_lists in_scope es)) (argument_variables in_scope args) (items-names es)
          (arguments-names args) h

  certainly_error-names :
      (e : Expression)
      → certainly_error in_scope e ≡ true
      → is_nil (unbound_variables in_scope e) ≡ false
  unfolding certainly_error unbound_variables
  certainly_error-names (term t) h = ground (arith, term_error-names t h)
  certainly_error-names (word s) h = absurd (cc h)
  certainly_error-names (node name args) h = ground (arith, item-names (node name args) h)

  -- Of an expression that is taken for certainly an error, `unbound_variables` names at least one
  -- variable, and only variables that are not in scope.
  pub unbound_variables-explain :
      (e : Expression)
      → certainly_error in_scope e ≡ true
      → (is_nil (unbound_variables in_scope e) ≡ false)
        × (all (λ v. not (in_scope v)) (unbound_variables in_scope e) ≡ true)
  unbound_variables-explain e h = (certainly_error-names e h, unbound_variables-scope in_scope e)
