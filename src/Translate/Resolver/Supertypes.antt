-- ===== src/Translate/Resolver/Supertypes.antt =====
-- `supertype_members` of arango_sparql/translate/resolver.py: the concrete classes of a supertype.
-- A walk takes fuel, and none stands for its end; Total has what is enough.
pub mod Steps
pub mod Exact
pub mod Total
pub mod Cycles
use arango_sparql_py.Base.{
  ℕ, zero, suc, ◌≡◌, Bool, true, false, not, Option, none, some, List, [], ◌∷◌, ◌++◌,
}
use arango_sparql_py.Base.Tests.{if◌then◌else◌}
use arango_sparql_py.Base.Eq.{◌==◌, nat_eq, list_eq}
use arango_sparql_py.Base.Lists.{contains, any, is_nil, length}
use arango_sparql_py.Base.Order.{nat_order, list_order, sorted}
use arango_sparql_py.Base.Str.{Str}
use arango_sparql_py.Errors.{Error, Result}
use arango_sparql_py.Translate.{Term}
use arango_sparql_py.Translate.Rdf.{Rdf}
use arango_sparql_py.Translate.Resolver.{resolve_class, is_style, iri_texts, rdfs, owl, a_type}
use arango_sparql_py.Translate.Resolver.Classes.{ResolvedClass, Config}
use Error.{schema_error}
use Result.{ok, err}
use Term.{iri}

abbrev pub Walk : Type 0
Walk = Option (Result (List ResolvedClass))

abbrev pub and_then : Walk → (List ResolvedClass → Walk) → Walk
and_then none f = none
and_then (some (err e)) f = some (err e)
and_then (some (ok out)) f = f out

-- `resolved in out`: the classes that one resolver gives are equal exactly if their IRIs are.
abbrev pub has_class : Str → List ResolvedClass → Bool
has_class k out = any (λ c. c.class_iri == k) out

abbrev pub is_union : ResolvedClass → Bool
is_union c = is_style "UNION" c.style

unfoldable pub each : (Str → List ResolvedClass → Walk) → List Str → List ResolvedClass → Walk
each visit [] out = some (ok out)
each visit (m ∷ ms) out = and_then (visit m out) (each visit ms)

abbrev pub leaf : List Str → ResolvedClass → List ResolvedClass → Walk
leaf path c out =
    if is_nil path
    then some (err schema_error)
    else some (ok (if has_class c.class_iri out then out else out ++ c ∷ []))

abbrev pub walk_members : (Str → List ResolvedClass → Walk) → List Str → List ResolvedClass → Walk
walk_members visit [] out = some (err schema_error)
walk_members visit (m ∷ ms) out = each visit (m ∷ ms) out

abbrev pub visit_class :
    (Str → List ResolvedClass → Walk)
    → List Str
    → List Str
    → List ResolvedClass
    → Result ResolvedClass
    → Walk
visit_class visit path members out (err e) = some (err e)
visit_class visit path members out (ok c) =
    if not (is_union c) then leaf path c out else walk_members visit members out

module _ (r : Rdf) (g : r.Graph) where
  unfoldable pub members : Str → List Str
  members k = sorted (iri_texts (r.subjects (rdfs "subClassOf") (iri k) g))

  abbrev pub depth : ℕ
  depth = suc (length (r.subjects a_type (owl "Class") g))

module _ (r : Rdf) (g : r.Graph) (cfg : Config) where
  -- `visit`, whose path is written from its end
  unfoldable pub visit : ℕ → List Str → Str → List ResolvedClass → Walk
  visit zero path k out = none
  visit (suc n) path k out = elim (contains k path) [
    | true ↦ some (err schema_error)
    | false ↦ visit_class (visit n (k ∷ path)) path (members r g k) out (resolve_class r g cfg k).1
  ]

  unfoldable pub supertype_members : Str → Walk
  supertype_members k = visit (depth r g) [] k []
