-- ===== src/Translate/CertainErrors/Nodes.antt =====
-- A node that arango_sparql/translate/expression_errors.py takes for an error is one, if its parts are
-- judged rightly.
use arango_sparql_py.Base.{
  ◌≡◌, Bool, true, false, not, ◌||◌, ◌&&◌, Option, none, some, List, [], ◌∷◌, map, refl, arith, inl,
  inr, sym, subst,
}
use arango_sparql_py.Base.Tests.{Bool-cases, Option-cases, and-eq-true}
use arango_sparql_py.Base.Eq.{◌==◌, nat_eq, list_eq, eq_iff}
use arango_sparql_py.Base.Lists.{any, all, contains, is_nil}
use arango_sparql_py.Base.Dict.{Dict}
use arango_sparql_py.Base.Str.{Str, codes}
use arango_sparql_py.Translate.CertainErrors.{
  Part, error_tolerant, operands, under, is_membership, certain, node_error,
}
use arango_sparql_py.Translate.CertainErrors.Semantics.{
  Algebra, values, flat, ebv, conjunction, disjunction, coalesce, as_value, branch, apply,
}
use arango_sparql_py.Translate.CertainErrors.Parts.{
  Judged, map_option, map_parts, operands-map, under-map,
}

module _ (a : Algebra) where
  open a use {Value, constant, truth, boolean, same, tolerant, strict}

  abbrev pub J : Type 0
  J = Judged Value

  abbrev pub verdict_of : J → Bool
  verdict_of j = j.verdict

  abbrev pub outcome_of : J → Option Value
  outcome_of j = j.outcome

  abbrev verdicts : List J → List Bool
  verdicts js = map verdict_of js

  abbrev outcomes : List J → List (Option Value)
  outcomes js = map outcome_of js

  conjunction-all :
      (j : J) (js : List J)
      → all (λ b. b) (verdicts (j ∷ js)) ≡ true
      → conjunction a (outcomes (j ∷ js)) ≡ none
  unfolding conjunction
  conjunction-all j [] h = rw (j.agrees (ground arith)) refl
  conjunction-all j (k ∷ js) h =
      let rest = conjunction-all k js (ground arith) in rw (j.agrees (ground arith)) (rw rest refl)

  disjunction-all :
      (j : J) (js : List J)
      → all (λ b. b) (verdicts (j ∷ js)) ≡ true
      → disjunction a (outcomes (j ∷ js)) ≡ none
  unfolding disjunction
  disjunction-all j [] h = rw (j.agrees (ground arith)) refl
  disjunction-all j (k ∷ js) h =
      let rest = disjunction-all k js (ground arith) in rw (j.agrees (ground arith)) (rw rest refl)

  coalesce-all : (js : List J) → all (λ b. b) (verdicts js) ≡ true → coalesce a (outcomes js) ≡ none
  unfolding coalesce
  coalesce-all [] h = refl
  coalesce-all (j ∷ js) h = rw (j.agrees (ground arith)) (coalesce-all js (ground arith))

  values-any : (js : List J) → any (λ b. b) (verdicts js) ≡ true → values (outcomes js) ≡ none
  values-any [] h = absurd (cc h)
  values-any (j ∷ js) h = elim (Bool-cases j.verdict) [
    | inl error ↦ rw (j.agrees error) refl
    | inr fine ↦ elim (Option-cases j.outcome) [
      | inl error ↦ rw error refl
      | inr (v, value) ↦ rw value (rw (values-any js (ground arith)) refl)
    ]
  ]

  certain-under :
      (o : Option J)
      → certain (map_option verdict_of o) ≡ true
      → flat (map_option outcome_of o) ≡ none
  certain-under none h = refl
  certain-under (some j) h = j.agrees h

  abbrev IsAll : List Bool → Type 0
  IsAll bs = (not (is_nil bs) && all (λ b. b) bs) ≡ true

  conjunction-IsAll :
      (js : List J) → IsAll (verdicts js) → as_value a (conjunction a (outcomes js)) ≡ none
  conjunction-IsAll [] h = absurd (cc h)
  conjunction-IsAll (j ∷ js) h = rw (conjunction-all j js h) refl

  disjunction-IsAll :
      (js : List J) → IsAll (verdicts js) → as_value a (disjunction a (outcomes js)) ≡ none
  disjunction-IsAll [] h = absurd (cc h)
  disjunction-IsAll (j ∷ js) h = rw (disjunction-all j js h) refl

  coalesce-IsAll : (js : List J) → IsAll (verdicts js) → coalesce a (outcomes js) ≡ none
  coalesce-IsAll [] h = absurd (cc h)
  coalesce-IsAll (j ∷ js) h = coalesce-all (j ∷ js) h

  branch-none : (c : Option Bool) → branch a none none c ≡ none
  branch-none none = refl
  branch-none (some true) = refl
  branch-none (some false) = refl

  branch-certain :
      (x y z : Option J)
      → (certain (map_option verdict_of x)
          || (certain (map_option verdict_of y) && certain (map_option verdict_of z)))
        ≡ true
      → branch a
          (flat (map_option outcome_of y))
          (flat (map_option outcome_of z))
          (ebv a (flat (map_option outcome_of x)))
        ≡ none
  branch-certain x y z h = elim (Bool-cases (certain (map_option verdict_of x))) [
    | inl error ↦ rw (certain-under x error) refl
    | inr fine ↦
        let both_errors =
          and-eq-true (certain (map_option verdict_of y)) (certain (map_option verdict_of z))
            (rw fine at h) in
        rw (certain-under y both_errors.0) (
          rw (certain-under z both_errors.1) (branch-none (ebv a (flat (map_option outcome_of x)))))
  ]

  flip : (s t : Str) → (s == t) ≡ false → (t == s) ≡ false
  flip s t h = ground (arith, eq_iff s t, eq_iff t s)

  module _ (op : Option Str) (d : Dict Str (Part J)) where
    abbrev pub vs : Dict Str (Part Bool)
    vs = map_parts verdict_of d

    abbrev pub os : Dict Str (Part (Option Value))
    os = map_parts outcome_of d

    abbrev pub Claim : Str → Type 0
    Claim name = node_error name op vs ≡ true → apply a name op os ≡ none

    and_node : Claim (codes "ConditionalAndExpression")
    unfolding node_error apply
    and_node h =
        rw (operands-map outcome_of d)
          (conjunction-IsAll (operands d) (rw (operands-map verdict_of d) at h))

    or_node : Claim (codes "ConditionalOrExpression")
    unfolding node_error apply
    or_node h =
        rw (operands-map outcome_of d)
          (disjunction-IsAll (operands d) (rw (operands-map verdict_of d) at h))

    coalesce_node : Claim (codes "Builtin_COALESCE")
    unfolding node_error apply
    coalesce_node h =
        rw (operands-map outcome_of d)
          (coalesce-IsAll (operands d) (rw (operands-map verdict_of d) at h))

    if_node : Claim (codes "Builtin_IF")
    unfolding node_error apply
    if_node h =
        rw
          (
            under-map outcome_of "arg1" d,
            under-map outcome_of "arg2" d,
            under-map outcome_of "arg3" d,
          )
          (branch-certain (under "arg1" d) (under "arg2" d) (under "arg3" d) (
            rw
              (
                under-map verdict_of "arg1" d,
                under-map verdict_of "arg2" d,
                under-map verdict_of "arg3" d,
              )
              at h))

    in_node :
        (name : Str)
        → contains name error_tolerant ≡ false
        → (name == codes "Builtin_IF") ≡ false
        → (name == codes "ConditionalAndExpression") ≡ false
        → (name == codes "ConditionalOrExpression") ≡ false
        → (name == codes "Builtin_COALESCE") ≡ false
        → Claim name
    unfolding node_error apply
    in_node name n0 n1 n2 n3 n4 h =
        let plain =
          rw
            (
              n0,
              n1,
              flip name (codes "ConditionalAndExpression") n2,
              flip name (codes "ConditionalOrExpression") n3,
              flip name (codes "Builtin_COALESCE") n4,
            )
            at h in
        elim (Bool-cases (name == codes "RelationalExpression" && is_membership op)) [
          | inl membership ↦
              let tested = rw membership at plain in
              rw (n0, n1, n2, n3, n4, membership)
                (rw (under-map outcome_of "expr" d) (
                  rw (certain-under (under "expr" d) (rw (under-map verdict_of "expr" d) at tested))
                    refl))
          | inr other ↦
              let some_operand = rw other at plain in
              rw (n0, n1, n2, n3, n4, other)
                (rw (operands-map outcome_of d) (
                  rw (values-any (operands d) (rw (operands-map verdict_of d) at some_operand))
                    refl))
        ]

    tolerant_node : (name : Str) → contains name error_tolerant ≡ true → Claim name
    unfolding node_error
    tolerant_node name tolerated h = absurd (cc (rw tolerated at h))

    pub node-Claim : (name : Str) → Claim name
    node-Claim name = elim (Bool-cases (contains name error_tolerant)) [
      | inl tolerated ↦ tolerant_node name tolerated
      | inr n0 ↦ elim (Bool-cases (name == codes "Builtin_IF")) [
        | inl e ↦ subst (λ n. Claim n) (sym ((eq_iff name (codes "Builtin_IF")).0 e)) if_node
        | inr n1 ↦ elim (Bool-cases (name == codes "ConditionalAndExpression")) [
          | inl e ↦
              subst (λ n. Claim n) (sym ((eq_iff name (codes "ConditionalAndExpression")).0 e))
                and_node
          | inr n2 ↦ elim (Bool-cases (name == codes "ConditionalOrExpression")) [
            | inl e ↦
                subst (λ n. Claim n) (sym ((eq_iff name (codes "ConditionalOrExpression")).0 e))
                  or_node
            | inr n3 ↦ elim (Bool-cases (name == codes "Builtin_COALESCE")) [
              | inl e ↦
                  subst (λ n. Claim n) (sym ((eq_iff name (codes "Builtin_COALESCE")).0 e))
                    coalesce_node
              | inr n4 ↦ in_node name n0 n1 n2 n3 n4
            ]
          ]
        ]
      ]
    ]
