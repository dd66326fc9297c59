-- ===== src/Translate/Resolver/Surveys/Declared.antt =====
-- The IRIs that the surveys of arango_sparql/translate/resolver.py go through are those of the type.
use arango_sparql_py.Base.{◌≡◌, List, [], ◌∷◌, String, refl, ◌∙◌, arith}
use arango_sparql_py.Base.Eq.{nat_eq, list_eq, eq_iff}
use arango_sparql_py.Base.Lists.{contains}
use arango_sparql_py.Base.Order.{nat_order, list_order, sorted-contains}
use arango_sparql_py.Base.Str.{Str}
use arango_sparql_py.Translate.{Term}
use arango_sparql_py.Translate.Rdf.{Rdf, term_eq}
use arango_sparql_py.Translate.Resolver.{a_type, owl, iri_texts, distinct, has_type}
use arango_sparql_py.Translate.Resolver.Surveys.{declared, declared_once}
use Term.{iri, blank, variable, literal, path}

pub iri_texts-contains :
    (k : Str) (ts : List Term) → contains k (iri_texts ts) ≡ contains (iri k) ts
iri_texts-contains k [] = refl
iri_texts-contains k (iri s ∷ ts) = ground (arith, iri_texts-contains k ts)
iri_texts-contains k (blank s ∷ ts) = iri_texts-contains k ts
iri_texts-contains k (variable s ∷ ts) = iri_texts-contains k ts
iri_texts-contains k (literal s d l ∷ ts) = iri_texts-contains k ts
iri_texts-contains k (path s ∷ ts) = iri_texts-contains k ts

pub distinct-contains : (k : Str) (ss : List Str) → contains k (distinct ss) ≡ contains k ss
distinct-contains k [] = refl
distinct-contains k (s ∷ ss) = ground (arith, distinct-contains k ss, eq_iff s k)

module _ (r : Rdf) (g : r.Graph) (name : String) (k : Str) where
  pub declared-contains : contains k (declared r g name) ≡ has_type r g k name
  unfolding declared
  declared-contains =
      sorted-contains k (iri_texts (r.subjects a_type (owl name) g))
      ∙ iri_texts-contains k (r.subjects a_type (owl name) g)
      ∙ r.subjects_all (iri k) a_type (owl name) g

  pub declared_once-contains : contains k (declared_once r g name) ≡ has_type r g k name
  unfolding declared_once
  declared_once-contains =
      sorted-contains k (distinct (iri_texts (r.subjects a_type (owl name) g)))
      ∙ distinct-contains k (iri_texts (r.subjects a_type (owl name) g))
      ∙ iri_texts-contains k (r.subjects a_type (owl name) g)
      ∙ r.subjects_all (iri k) a_type (owl name) g
