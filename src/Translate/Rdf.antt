-- ===== src/Translate/Rdf.antt =====
-- rdflib's `Graph` and its terms, as far as arango_sparql/translate/resolver.py uses them: an interface.
-- What it promises is rdflib's documentation: a graph is a set of triples, and `value` is any one object.
use arango_sparql_py.Base.{
  ◌≡◌, ◌↔◌, Bool, true, false, ◌&&◌, Option, none, some, List, [], ◌∷◌, refl, arith,
}
use arango_sparql_py.Base.Tests.{if◌then◌else◌}
use arango_sparql_py.Base.Eq.{Eq, ◌==◌, nat_eq, list_eq, eq_iff}
use arango_sparql_py.Base.Lists.{contains}
use arango_sparql_py.Base.Str.{Str, codes}
use arango_sparql_py.Translate.{Term, Triple}
use Term.{iri, blank, variable, literal, path}

abbrev pub triple : Term → Term → Term → Triple
triple s p o = record { subject = s; predicate = p; object = o }

abbrev optional_beq : Option Str → Option Str → Bool
optional_beq none none = true
optional_beq (some s) (some t) = s == t
optional_beq _ _ = false

pub optional_beq_iff : (a b : Option Str) → (optional_beq a b ≡ true) ↔ (a ≡ b)
optional_beq_iff none none = ground arith
optional_beq_iff none (some t) = ground arith
optional_beq_iff (some s) none = ground arith
optional_beq_iff (some s) (some t) = ground (arith, eq_iff s t)

abbrev term_beq : Term → Term → Bool
term_beq (iri s) (iri t) = s == t
term_beq (blank s) (blank t) = s == t
term_beq (variable s) (variable t) = s == t
term_beq (path s) (path t) = s == t
term_beq (literal s d l) (literal t e m) = s == t && optional_beq d e && optional_beq l m
term_beq _ _ = false

pub term_beq_iff : (a b : Term) → (term_beq a b ≡ true) ↔ (a ≡ b)
term_beq_iff (iri s) (iri t) = ground (arith, eq_iff s t)
term_beq_iff (blank s) (blank t) = ground (arith, eq_iff s t)
term_beq_iff (variable s) (variable t) = ground (arith, eq_iff s t)
term_beq_iff (path s) (path t) = ground (arith, eq_iff s t)
term_beq_iff (literal s d l) (literal t e m) =
    ground (arith, eq_iff s t, optional_beq_iff d e, optional_beq_iff l m)
term_beq_iff _ _ = ground arith

instance abbrev pub term_eq : Eq Term
term_eq = record { same = term_beq; same_iff = term_beq_iff }

abbrev triple_beq : Triple → Triple → Bool
triple_beq t u = t.subject == u.subject && t.predicate == u.predicate && t.object == u.object

pub triple_beq_iff : (t u : Triple) → (triple_beq t u ≡ true) ↔ (t ≡ u)
triple_beq_iff t u =
    ground
      (arith, eq_iff t.subject u.subject, eq_iff t.predicate u.predicate, eq_iff t.object u.object)

instance abbrev pub triple_eq : Eq Triple
triple_eq = record { same = triple_beq; same_iff = triple_beq_iff }

pub record Rdf : Type 1 where
  pub Graph : Type 0
  pub empty : Graph
  pub add : Triple → Graph → Graph
  pub holds : Triple → Graph → Bool
  pub value : Term → Term → Graph → Option Term
  pub subjects : Term → Term → Graph → List Term
  pub objects : Term → Term → Graph → List Term
  -- `Collection(graph, head)`
  pub collection : Term → Graph → List Term
  pub holds_empty : (t : Triple) → holds t empty ≡ false
  pub holds_add :
      (t u : Triple) (g : Graph) → holds u (add t g) ≡ (if t == u then true else holds u g)
  pub value_none : (s p o : Term) (g : Graph) → value s p g ≡ none → holds (triple s p o) g ≡ false
  pub value_some : (s p o : Term) (g : Graph) → value s p g ≡ some o → holds (triple s p o) g ≡ true
  pub subjects_all :
      (s p o : Term) (g : Graph) → contains s (subjects p o g) ≡ holds (triple s p o) g
  pub objects_all : (s p o : Term) (g : Graph) → contains o (objects s p g) ≡ holds (triple s p o) g

-- Graphs as lists of triples keep the promise.
abbrev first_value : Term → Term → List Triple → Option Term
first_value s p [] = none
first_value s p (t ∷ g) =
    let rest = first_value s p g in
    if t.subject == s && t.predicate == p then some t.object else rest

abbrev all_subjects : Term → Term → List Triple → List Term
all_subjects p o [] = []
all_subjects p o (t ∷ g) =
    let rest = all_subjects p o g in
    if t.predicate == p && t.object == o then t.subject ∷ rest else rest

pub first_value-none :
    (s p o : Term) (g : List Triple) → first_value s p g ≡ none → contains (triple s p o) g ≡ false
first_value-none s p o [] e = refl
first_value-none s p o (t ∷ g) e = ground (arith, first_value-none s p o g)

pub first_value-some :
    (s p o : Term) (g : List Triple) → first_value s p g ≡ some o → contains (triple s p o) g ≡ true
first_value-some s p o [] e = absurd (cc e)
first_value-some s p o (t ∷ g) e = ground (arith, eq_iff t.object o, first_value-some s p o g)

pub all_subjects-all :
    (s p o : Term) (g : List Triple) → contains s (all_subjects p o g) ≡ contains (triple s p o) g
all_subjects-all s p o [] = refl
all_subjects-all s p o (t ∷ g) = ground (arith, all_subjects-all s p o g)

abbrev all_objects : Term → Term → List Triple → List Term
all_objects s p [] = []
all_objects s p (t ∷ g) =
    let rest = all_objects s p g in
    if t.subject == s && t.predicate == p then t.object ∷ rest else rest

pub all_objects-all :
    (s p o : Term) (g : List Triple) → contains o (all_objects s p g) ≡ contains (triple s p o) g
all_objects-all s p o [] = refl
all_objects-all s p o (t ∷ g) = ground (arith, all_objects-all s p o g)

abbrev first_of : Option Term → List Term → List Term
first_of none items = items
first_of (some t) items = t ∷ items

abbrev rest_of : Option Term → (Term → List Term) → List Term
rest_of none items = []
rest_of (some t) items = items t

-- an RDF list, of which no more items are read than the graph has triples
abbrev list_items : List Triple → List Triple → Term → List Term
list_items g [] t = []
list_items g (_ ∷ fuel) t =
    first_of (first_value t (iri (codes "http://www.w3.org/1999/02/22-rdf-syntax-ns#first")) g) (
      rest_of (first_value t (iri (codes "http://www.w3.org/1999/02/22-rdf-syntax-ns#rest")) g)
        (list_items g fuel))

pub holds_of_add :
    (t u : Triple) (g : List Triple) → contains u (t ∷ g) ≡ (if t == u then true else contains u g)
holds_of_add t u g = ground arith

abbrev pub list_rdf : Rdf
list_rdf = record {
  Graph = List Triple;
  empty = [];
  add = λ t g. t ∷ g;
  holds = λ t g. contains t g;
  value = first_value;
  subjects = all_subjects;
  objects = all_objects;
  collection = λ t g. list_items g g t;
  holds_empty = λ t. refl;
  holds_add = holds_of_add;
  value_none = first_value-none;
  value_some = first_value-some;
  subjects_all = all_subjects-all;
  objects_all = all_objects-all;
}
