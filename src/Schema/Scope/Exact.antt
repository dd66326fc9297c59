-- ===== src/Schema/Scope/Exact.antt =====
-- What arango_sparql/schema/graph_scope.py keeps of a bundle.
use arango_sparql_py.Base.{
  ℕ, ◌≡◌, Bool, true, false, ◌||◌, ◌&&◌, Option, none, some, List, [], ◌∷◌, refl, arith, inl, inr,
  ap, ◌∙◌,
}
use arango_sparql_py.Base.Tests.{if◌then◌else◌, Bool-cases, Option-cases}
use arango_sparql_py.Base.Eq.{nat_eq, list_eq, eq_iff, eq_refl}
use arango_sparql_py.Base.Lists.{any, keep, contains}
use arango_sparql_py.Base.Dict.{Dict, get, get-put, get-put_self}
use arango_sparql_py.Base.Dict.Distinct.{Distinct}
use arango_sparql_py.Base.Json.{Json, entries-as_fields}
use arango_sparql_py.Base.Str.{Str, codes}
use arango_sparql_py.Mapping.{MappingBundle, entities, relationships}
use arango_sparql_py.Schema.Scope.{
  vertex_collection, edge_collection, kept_names, named_in, among, is_dict, filter_bundle,
  filter_resolved, scope_bundle_to_graph, GraphDb, membership_collections, live_graph_collections,
  or_live, tagged, tags, in_tags, saw_tag,
}

-- whether a spec's collection is one of the graph's
abbrev pub in_graph : (Json → Option Str) → List Str → Str × Json → Bool
in_graph collection names e = is_dict e.1 && among names (collection e.1)

module _ (collection : Json → Option Str) (names : List Str) where
  kept_names-absent :
      (k : Str) (d : Dict Str Json)
      → get k d ≡ none
      → contains k (kept_names collection names d) ≡ false
  unfolding get kept_names
  kept_names-absent k [] h = refl
  kept_names-absent k ((j, x) ∷ d) h = ground (arith, kept_names-absent k d, eq_iff j k)

  -- names that are kept beside those of the list
  keep-other :
      (k : Str) (ks : List Str) (d : Dict Str Json)
      → get k d ≡ none
      → named_in (k ∷ ks) d ≡ named_in ks d
  unfolding get
  keep-other k ks [] h = refl
  keep-other k ks ((j, x) ∷ d) h = ground (arith, keep-other k ks d, eq_iff j k, eq_iff k j)

  kept_names-in :
      (k : Str) (x : Json) (d : Dict Str Json)
      → in_graph collection names (k, x) ≡ true
      → kept_names collection names ((k, x) ∷ d) ≡ k ∷ kept_names collection names d
  unfolding kept_names
  kept_names-in k x d inside = rw inside refl

  kept_names-out :
      (k : Str) (x : Json) (d : Dict Str Json)
      → in_graph collection names (k, x) ≡ false
      → kept_names collection names ((k, x) ∷ d) ≡ kept_names collection names d
  unfolding kept_names
  kept_names-out k x d outside = rw outside refl

  pub named_in-kept_names :
      (d : Dict Str Json)
      → Distinct d
      → named_in (kept_names collection names d) d ≡ keep (in_graph collection names) d
  named_in-kept_names [] u = refl
  named_in-kept_names ((k, x) ∷ d) u = elim (Bool-cases (in_graph collection names (k, x))) [
    | inl inside ↦
        let shorter =
          keep-other k (kept_names collection names d) d u.0 ∙ named_in-kept_names d u.1 in
        ap (λ ks. named_in ks ((k, x) ∷ d)) (kept_names-in k x d inside)
        ∙ rw (eq_refl k) (rw inside (ap (λ r. (k, x) ∷ r) shorter))
    | inr outside ↦
        ap (λ ks. named_in ks ((k, x) ∷ d)) (kept_names-out k x d outside)
        ∙ rw (kept_names-absent k d u.0) (rw outside (named_in-kept_names d u.1))
  ]

tagged-none :
    (collection : Json → Option Str) (graph : Str) (d : Dict Str Json)
    → any (λ (e : Str × Json). in_tags graph (tags e.1)) d ≡ false
    → tagged collection graph d ≡ []
unfolding tagged
tagged-none collection graph [] h = refl
tagged-none collection graph ((k, x) ∷ d) h = ground (arith, tagged-none collection graph d)

kept_names-nil :
    (collection : Json → Option Str) (d : Dict Str Json) → kept_names collection [] d ≡ []
unfolding kept_names
kept_names-nil collection [] = refl
kept_names-nil collection ((k, x) ∷ d) = elim (Option-cases (collection x)) [
  | inl no_name ↦ rw (no_name, among) (nothing (is_dict x) (kept_names-nil collection d))
  | inr (s, a_name) ↦ rw (a_name, among) (nothing (is_dict x) (kept_names-nil collection d))
]
  where
    nothing :
        (b : Bool)
        → kept_names collection [] d ≡ []
        → (if b && false then k ∷ kept_names collection [] d else kept_names collection [] d) ≡ []
    nothing true h = h
    nothing false h = h

named_in-nil : (d : Dict Str Json) → named_in [] d ≡ []
named_in-nil [] = refl
named_in-nil ((k, x) ∷ d) = named_in-nil d

module _ (b : MappingBundle) (vertex edges : List Str) (graph : Str) where
  entities-filter_bundle :
      entities (filter_bundle b vertex edges graph)
      ≡ named_in (kept_names vertex_collection vertex (entities b)) (entities b)
  unfolding filter_bundle entities relationships
  entities-filter_bundle =
      rw (get-put (codes "relationships") (codes "entities"), get-put_self)
        (entries-as_fields
          (named_in (kept_names vertex_collection vertex (entities b)) (entities b)))

  relationships-filter_bundle :
      relationships (filter_bundle b vertex edges graph)
      ≡ named_in (kept_names edge_collection edges (relationships b)) (relationships b)
  unfolding filter_bundle entities relationships
  relationships-filter_bundle = rw get-put_self (
      entries-as_fields
        (named_in (kept_names edge_collection edges (relationships b)) (relationships b)))

module _ (db : GraphDb) (b : MappingBundle) (c : ℕ) (name : Str) where
  -- A bundle that is scoped to a graph whose collections are resolved keeps, of its entities and of its
  -- relationships, exactly those whose collection is one of the graph's, as they are and in their order;
  -- its ontology and its source stay.
  pub scope_bundle_to_graph-exact :
      (vertex edges : List Str)
      → or_live (membership_collections b (c ∷ name)) (live_graph_collections db (c ∷ name))
        ≡ some (vertex, edges)
      → Distinct (entities b)
      → Distinct (relationships b)
      → let b' = scope_bundle_to_graph db b (some (c ∷ name)) in
        (entities b' ≡ keep (in_graph vertex_collection vertex) (entities b))
        × (relationships b' ≡ keep (in_graph edge_collection edges) (relationships b))
        × (b'.owl_turtle ≡ b.owl_turtle)
        × (b'.source ≡ b.source)
  unfolding scope_bundle_to_graph filter_bundle
  scope_bundle_to_graph-exact vertex edges r u v =
      rw (r, filter_resolved)
        (
          entities-filter_bundle b vertex edges (c ∷ name)
              ∙ named_in-kept_names vertex_collection vertex (entities b) u,
          relationships-filter_bundle b vertex edges (c ∷ name)
              ∙ named_in-kept_names edge_collection edges (relationships b) v,
          refl,
          refl,
        )

  -- If any spec has a list of tags and no spec is tagged with the graph, scoping leaves no entity and no
  -- relationship, whatever the database says of the graph.
  pub untagged_graph_is_empty :
      (saw_tag (entities b) || saw_tag (relationships b)) ≡ true
      → any (λ (e : Str × Json). in_tags (c ∷ name) (tags e.1)) (entities b) ≡ false
      → any (λ (e : Str × Json). in_tags (c ∷ name) (tags e.1)) (relationships b) ≡ false
      → (entities (scope_bundle_to_graph db b (some (c ∷ name))) ≡ [])
        × (relationships (scope_bundle_to_graph db b (some (c ∷ name))) ≡ [])
  unfolding scope_bundle_to_graph membership_collections
  untagged_graph_is_empty s e r =
      rw
        (
          s,
          tagged-none vertex_collection (c ∷ name) (entities b) e,
          tagged-none edge_collection (c ∷ name) (relationships b) r,
        )
        (
          entities-filter_bundle b [] [] (c ∷ name)
              ∙ ap (λ ks. named_in ks (entities b)) (kept_names-nil vertex_collection (entities b))
              ∙ named_in-nil (entities b),
          relationships-filter_bundle b [] [] (c ∷ name)
              ∙ ap (λ ks. named_in ks (relationships b))
                  (kept_names-nil edge_collection (relationships b))
              ∙ named_in-nil (relationships b),
        )
