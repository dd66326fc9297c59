-- ===== src/Translate/CertainErrors/Parts.antt =====
-- The verdict of arango_sparql/translate/expression_errors.py on a part, and the part's outcome, side by
-- side.
use arango_sparql_py.Base.{
  String, ◌≡◌, Bool, true, Option, none, some, List, [], ◌∷◌, ◌++◌, map, refl, inl, inr, ap,
}
use arango_sparql_py.Base.Tests.{Bool-cases}
use arango_sparql_py.Base.Eq.{◌==◌, nat_eq, list_eq}
use arango_sparql_py.Base.Lists.{contains}
use arango_sparql_py.Base.Dict.{Dict, get}
use arango_sparql_py.Base.Str.{Str, codes}
use arango_sparql_py.Translate.CertainErrors.{
  Part, metadata_keys, given, items_of, operands, one_of, under,
}
use Part.{single, several}

-- a verdict and an outcome: where the verdict is an error, so is the outcome
pub record Judged (V : Type 0) : Type 0 where
  pub verdict : Bool
  pub outcome : Option V
  pub agrees : verdict ≡ true → outcome ≡ none

module _ {A : Type 0} {B : Type 0} (f : A → B) where
  abbrev pub map_option : Option A → Option B
  map_option none = none
  map_option (some a) = some (f a)

  abbrev pub map_part : Part A → Part B
  map_part (single o) = single (map_option o)
  map_part (several os) = several (map map_option os)

  abbrev pub map_parts : Dict Str (Part A) → Dict Str (Part B)
  map_parts [] = []
  map_parts ((k, p) ∷ d) = (k, map_part p) ∷ map_parts d

  given-map : (os : List (Option A)) → given (map map_option os) ≡ map f (given os)
  given-map [] = refl
  given-map (none ∷ os) = given-map os
  given-map (some a ∷ os) = ap (λ x. f a ∷ x) (given-map os)

  items_of-map :
      (p : Part A) (r : List A) (s : List B)
      → s ≡ map f r
      → items_of (map_part p) ++ s ≡ map f (items_of p ++ r)
  items_of-map (single none) r s e = e
  items_of-map (single (some a)) r s e = ap (λ x. f a ∷ x) e
  items_of-map (several []) r s e = e
  items_of-map (several (none ∷ os)) r s e = items_of-map (several os) r s e
  items_of-map (several (some a ∷ os)) r s e = ap (λ x. f a ∷ x) (items_of-map (several os) r s e)

  pub operands-map : (d : Dict Str (Part A)) → operands (map_parts d) ≡ map f (operands d)
  unfolding operands
  operands-map [] = refl
  operands-map ((k, p) ∷ d) = elim (Bool-cases (contains k metadata_keys)) [
    | inl skip ↦ rw skip (operands-map d)
    | inr stays ↦ rw stays (items_of-map p (operands d) (operands (map_parts d)) (operands-map d))
  ]

  pub under-map :
      (k : String) (d : Dict Str (Part A)) → under k (map_parts d) ≡ map_option (under k d)
  unfolding get
  under-map k [] = refl
  under-map k ((j, p) ∷ d) = elim (Bool-cases (j == codes k)) [
    | inl here ↦ rw here (one p)
    | inr there ↦ rw there (under-map k d)
  ]
    where
      one : (p : Part A) → one_of (some (map_part p)) ≡ map_option (one_of (some p))
      one (single o) = refl
      one (several os) = refl
