-- ===== src/Translate/Order/Tests.antt =====
-- Patterns that arango_sparql/translate/visitor.py orders.
use arango_sparql_py.Base.{ℕ, ◌≡◌, false, List, [], ◌∷◌, map, refl}
use arango_sparql_py.Base.Str.{codes}
use mathlib.Core.List.{Perm}
use arango_sparql_py.Translate.{Term, Triple, rdf_type}
use arango_sparql_py.Translate.Order.{
  join_rank, before, best_of, removed, order_items, enumerate_from, iter_bgp_order, order_bgp,
}
use arango_sparql_py.Translate.Order.Greedy.{IsGreedy, iter_bgp_order-IsGreedy}
use Term.{iri, variable}

-- a city and its name, known from the person whose class comes last
abbrev name_of_city : Triple
name_of_city = record {
  subject = variable (codes "c");
  predicate = iri (codes "name");
  object = variable (codes "n");
}

abbrev city_of_person : Triple
city_of_person = record {
  subject = variable (codes "p");
  predicate = iri (codes "city");
  object = variable (codes "c");
}

abbrev person : Triple
person = record {
  subject = variable (codes "p");
  predicate = iri rdf_type;
  object = iri (codes "Person");
}

abbrev pattern_triples : List Triple
pattern_triples = name_of_city ∷ city_of_person ∷ person ∷ []

order_test : order_bgp [] [] pattern_triples [] ≡ person ∷ city_of_person ∷ name_of_city ∷ []
unfolding order_bgp iter_bgp_order order_items best_of before removed join_rank
order_test = refl

iter_bgp_order-IsGreedy_example :
    (places : List (ℕ × Triple)) × (iter_bgp_order [] [] (λ emitted t. false) pattern_triples []
      ≡ map (λ (e : ℕ × Triple). e.1) places)
    × Perm places (enumerate_from 0 pattern_triples)
    × IsGreedy [] [] (λ emitted t. false) [] [] places
iter_bgp_order-IsGreedy_example =
    iter_bgp_order-IsGreedy [] [] (λ emitted t. false) pattern_triples []
