-- ===== src/Translate/Order/Greedy.antt =====
-- The order of arango_sparql/translate/visitor.py is the greedy one, and loses no triple.
use arango_sparql_py.Base.{
  ℕ, zero, suc, ◌≤◌, ◌≡◌, Bool, true, false, List, [], ◌∷◌, ◌++◌, map, refl, arith, inl, inr, sym,
  subst,
}
use arango_sparql_py.Base.Tests.{Bool-cases}
use arango_sparql_py.Base.Eq.{nat_eq}
use arango_sparql_py.Base.Dict.{Dict}
use arango_sparql_py.Base.Dict.Distinct.{Distinct}
use arango_sparql_py.Base.Lists.{All, length}
use arango_sparql_py.Base.Str.{Str}
use arango_sparql_py.Translate.{Triple}
use arango_sparql_py.Translate.Order.{
  before, best_of, removed, bind_variables, order_items, enumerate_from, iter_bgp_order,
}
use arango_sparql_py.Translate.Order.Places.{
  Found, All-Found, removed-All, removed-Distinct, length-removed, removed-perm,
  length-enumerate_from, enumerate_from-Distinct,
}
use mathlib.Core.List.{Perm}
use mathlib.Core.List.Perm

module _ (nodes exits : List Str) (walks : List Triple → Triple → Bool) where
  -- each item comes no later than any that follows it, given what was emitted before it
  abbrev pub IsGreedy : List Str → List Triple → List (ℕ × Triple) → Type 0
  IsGreedy bound emitted [] = Unit
  IsGreedy bound emitted (e ∷ es) =
      All (λ u. before nodes exits walks bound emitted u e ≡ false) es
      × IsGreedy (bind_variables e.1 bound) (emitted ++ e.1 ∷ []) es

  module _ (bound : List Str) (emitted : List Triple) where
    abbrev lt : ℕ × Triple → ℕ × Triple → Bool
    lt = before nodes exits walks bound emitted

    lt_trans : (a b c : ℕ × Triple) → lt a b ≡ false → lt b c ≡ false → lt a c ≡ false
    unfolding before
    lt_trans a b c h k = ground arith

    lt_asym : (a b : ℕ × Triple) → lt a b ≡ true → lt b a ≡ false
    unfolding before
    lt_asym a b h = ground arith

    lt_irrefl : (a : ℕ × Triple) → lt a a ≡ false
    unfolding before
    lt_irrefl a = ground arith

    best_of-first :
        (x : ℕ × Triple) (es : List (ℕ × Triple))
        → lt x (best_of nodes exits walks bound emitted x es) ≡ false
    unfolding best_of
    best_of-first x [] = lt_irrefl x
    best_of-first x (y ∷ es) = elim (Bool-cases (lt y x)) [
      | inl smaller ↦ rw smaller (
          lt_trans x y (best_of nodes exits walks bound emitted y es) (lt_asym y x smaller)
            (best_of-first y es))
      | inr larger ↦ rw larger (best_of-first x es)
    ]

    best_of-smaller :
        (x y : ℕ × Triple) (es : List (ℕ × Triple))
        → lt y x ≡ true
        → best_of nodes exits walks bound emitted x (y ∷ es)
          ≡ best_of nodes exits walks bound emitted y es
    unfolding best_of
    best_of-smaller x y es h = rw h refl

    best_of-larger :
        (x y : ℕ × Triple) (es : List (ℕ × Triple))
        → lt y x ≡ false
        → best_of nodes exits walks bound emitted x (y ∷ es)
          ≡ best_of nodes exits walks bound emitted x es
    unfolding best_of
    best_of-larger x y es h = rw h refl

    abbrev IsLeast : List (ℕ × Triple) → ℕ × Triple → Type 0
    IsLeast es b = All (λ u. lt u b ≡ false) es

    best_of-IsLeast :
        (x : ℕ × Triple) (es : List (ℕ × Triple))
        → IsLeast (x ∷ es) (best_of nodes exits walks bound emitted x es)
    best_of-IsLeast x [] = (best_of-first x [], tt)
    best_of-IsLeast x (y ∷ es) = elim (Bool-cases (lt y x)) [
      | inl smaller ↦
          let least = best_of-IsLeast y es in
          subst (λ b. IsLeast (x ∷ y ∷ es) b) (sym (best_of-smaller x y es smaller))
            (
              lt_trans x y (best_of nodes exits walks bound emitted y es) (lt_asym y x smaller)
                  least.0,
              least,
            )
      | inr larger ↦
          let least = best_of-IsLeast x es in
          subst (λ b. IsLeast (x ∷ y ∷ es) b) (sym (best_of-larger x y es larger))
            (
              least.0,
              (lt_trans y x (best_of nodes exits walks bound emitted x es) larger least.0, least.1),
            )
    ]

    -- The best item is one of the list.
    best_of-All :
        (P : ℕ × Triple → Type 0) (x : ℕ × Triple) (es : List (ℕ × Triple))
        → All P (x ∷ es)
        → P (best_of nodes exits walks bound emitted x es)
    unfolding best_of
    best_of-All P x [] h = h.0
    best_of-All P x (y ∷ es) (px, (py, h)) = elim (Bool-cases (lt y x)) [
      | inl smaller ↦ rw smaller (best_of-All P y es (py, h))
      | inr larger ↦ rw larger (best_of-All P x es (px, h))
    ]

  order_items-All :
      (P : ℕ × Triple → Type 0) (n : ℕ) (bound : List Str) (emitted : List Triple)
      (d : Dict ℕ Triple)
      → All P d
      → All P (order_items nodes exits walks n bound emitted d)
  unfolding order_items
  order_items-All P zero bound emitted d h = tt
  order_items-All P (suc n) bound emitted [] h = tt
  order_items-All P (suc n) bound emitted (e ∷ es) h =
      let best = best_of nodes exits walks bound emitted e es in
      (
        best_of-All bound emitted P e es h,
        order_items-All P n (bind_variables best.1 bound) (emitted ++ best.1 ∷ [])
            (removed best.0 (e ∷ es)) (removed-All P best.0 (e ∷ es) h),
      )

  -- what is emitted is what remained, in the greedy order
  order_items-IsGreedy :
      (n : ℕ) (bound : List Str) (emitted : List Triple) (d : Dict ℕ Triple)
      → length d ≤ n
      → Distinct d
      → Perm (order_items nodes exits walks n bound emitted d) d
        × IsGreedy bound emitted (order_items nodes exits walks n bound emitted d)
  unfolding order_items
  order_items-IsGreedy zero bound emitted [] h u = (Perm.refl [], tt)
  order_items-IsGreedy zero bound emitted (e ∷ es) h u = absurd (omega arith)
  order_items-IsGreedy (suc n) bound emitted [] h u = (Perm.refl [], tt)
  order_items-IsGreedy (suc n) bound emitted (e ∷ es) h u =
      let best = best_of nodes exits walks bound emitted e es in
      let found = best_of-All bound emitted (Found (e ∷ es)) e es (All-Found (e ∷ es) u) in
      let bound' = bind_variables best.1 bound in
      let (perm, greedy) =
        order_items-IsGreedy n bound' (emitted ++ best.1 ∷ []) (removed best.0 (e ∷ es))
          (omega (arith, length-removed best.0 best.1 (e ∷ es) found))
          (removed-Distinct best.0 (e ∷ es) u) in
      (
        Perm.trans (Perm.cons best perm) (removed-perm best.0 best.1 (e ∷ es) found),
        (
          order_items-All (λ x. before nodes exits walks bound emitted x best ≡ false) n bound'
              (emitted ++ best.1 ∷ []) (removed best.0 (e ∷ es))
              (removed-All (λ x. before nodes exits walks bound emitted x best ≡ false) best.0
                (e ∷ es) (best_of-IsLeast bound emitted e es)),
          greedy,
        ),
      )

  -- The triples of a pattern come out each exactly once, and in the greedy order: none is emitted while
  -- one of lower rank, or of the same rank and an earlier place in the pattern, is left, where the ranks
  -- are those that the variables bound so far give.
  pub iter_bgp_order-IsGreedy :
      (triples : List Triple) (bound : List Str)
      → (items : List (ℕ × Triple)) × (iter_bgp_order nodes exits walks triples bound
          ≡ map (λ (e : ℕ × Triple). e.1) items)
        × Perm items (enumerate_from 0 triples)
        × IsGreedy bound [] items
  unfolding iter_bgp_order
  iter_bgp_order-IsGreedy triples bound =
      let ordered =
        order_items-IsGreedy (length triples) bound [] (enumerate_from 0 triples)
          (omega (arith, length-enumerate_from 0 triples)) (enumerate_from-Distinct 0 triples) in
      (
        order_items nodes exits walks (length triples) bound [] (enumerate_from 0 triples),
        refl,
        ordered.0,
        ordered.1,
      )
