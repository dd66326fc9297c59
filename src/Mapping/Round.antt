-- ===== src/Mapping/Round.antt =====
-- A bundle that arango_sparql/translate/mapping.py read survives its wire form.
use arango_sparql_py.Base.{◌≡◌, true, Option, none, some, ◌∷◌, ◌++◌, refl, inl, inr, sym, ◌∙◌}
use arango_sparql_py.Base.Tests.{Bool-cases}
use arango_sparql_py.Base.Eq.{nat_eq, list_eq}
use arango_sparql_py.Base.Lists.{contains}
use arango_sparql_py.Base.Dict.{Dict, get, put}
use arango_sparql_py.Base.Json.{Json, Fields, entries, as_fields, dict, or_null}
use arango_sparql_py.Base.Str.{Str, codes}
use arango_sparql_py.Errors.{Result, ◌>>=◌, ok_of_bind, ok_same}
use Json.{null, boolean, integer, float, text, array, object}
use Result.{ok, err}
use arango_sparql_py.Mapping.{
  MappingSource, MappingBundle, top_name, renamed, dict_or_empty, physical_of, text_or_none,
  source_kind, normalise_source, bundle_of, mapping_from_wire_dict, text_part, source_part,
  mapping_to_wire_dict, normalise_top_level, valid_source_kinds,
}
use arango_sparql_py.Mapping.Physical.{dict_or_empty-dict, physical_of-again}

abbrev HasKind : Option MappingSource → Type 0
HasKind none = Unit
HasKind (some s) = contains s.kind valid_source_kinds ≡ true

source_kind-valid :
    (j : Json) (k : Str) → source_kind j ≡ ok k → contains k valid_source_kinds ≡ true
source_kind-valid (text s) k e = elim (Bool-cases (contains s valid_source_kinds)) [
  | inl valid ↦ rw (sym (ok_same s k (rw valid at e))) valid
  | inr invalid ↦ absurd (cc (rw invalid at e))
]
source_kind-valid null k e = absurd (cc e)
source_kind-valid (boolean b) k e = absurd (cc e)
source_kind-valid (integer n) k e = absurd (cc e)
source_kind-valid (float s) k e = absurd (cc e)
source_kind-valid (array js) k e = absurd (cc e)
source_kind-valid (object fs) k e = absurd (cc e)

normalise_source-HasKind :
    (j : Json) (s : Option MappingSource) → normalise_source j ≡ ok s → HasKind s
normalise_source-HasKind (object fs) s e =
    let (kind, first, more) =
      ok_of_bind (source_kind (or_null (get (codes "kind") (entries fs)))) _ s e in
    let (notes, second, last) =
      ok_of_bind (text_or_none (or_null (get (codes "notes") (entries fs))))
        (λ notes. ok (some (record { kind = kind; notes = notes }))) s more in
    rw (sym (ok_same (some (record { kind = kind; notes = notes })) s last))
      (source_kind-valid (or_null (get (codes "kind") (entries fs))) kind first)
normalise_source-HasKind null s e = rw (sym (ok_same none s e)) tt
normalise_source-HasKind (boolean b) s e = absurd (cc e)
normalise_source-HasKind (integer n) s e = absurd (cc e)
normalise_source-HasKind (float x) s e = absurd (cc e)
normalise_source-HasKind (text x) s e = absurd (cc e)
normalise_source-HasKind (array js) s e = absurd (cc e)

-- what reading gives
record IsRead (b : MappingBundle) : Type 0 where
  physical : physical_of (dict b.physical_mapping) ≡ ok b.physical_mapping
  kind : HasKind b.source

five_steps :
    (c : Result (Dict Str Json)) (j : Json) (m : Result (Dict Str Json)) (o : Result (Option Str))
    (i : Json) (b : MappingBundle)
    → (c >>= λ conceptual. physical_of j >>= λ physical. m >>= λ metadata. o >>= λ owl_turtle.
        normalise_source i >>= λ source. ok (record {
          conceptual_schema = conceptual;
          physical_mapping = physical;
          metadata = metadata;
          owl_turtle = owl_turtle;
          source = source;
        }))
      ≡ ok b
    → IsRead b
five_steps (ok c) j (ok m) (ok o) i b e =
    let (p, first, more) = ok_of_bind (physical_of j) _ b e in
    let (s, second, last) = ok_of_bind (normalise_source i) _ b more in
    rw
      (sym (
        ok_same
          (record {
            conceptual_schema = c;
            physical_mapping = p;
            metadata = m;
            owl_turtle = o;
            source = s;
          })
          b last))
      (record {
        physical = physical_of-again j p first;
        kind = normalise_source-HasKind i s second;
      })
five_steps (err x) j m o i b e = absurd (cc e)
five_steps (ok c) j (err x) o i b e = absurd (cc (ok_of_bind (physical_of j) _ b e).2)
five_steps (ok c) j (ok m) (err x) i b e = absurd (cc (ok_of_bind (physical_of j) _ b e).2)

bundle_of-IsRead : (top : Dict Str Json) (b : MappingBundle) → bundle_of top ≡ ok b → IsRead b
unfolding bundle_of
bundle_of-IsRead top b e =
    five_steps (dict_or_empty (get (codes "conceptual_schema") top))
      (or_null (get (codes "physical_mapping") top)) (dict_or_empty (get (codes "metadata") top))
      (text_or_none (or_null (get (codes "owl_turtle") top))) (or_null (get (codes "source") top)) b
      e

source_dict :
    (kind : Str) (notes : Option Str)
    → contains kind valid_source_kinds ≡ true
    → normalise_source (dict ((codes "kind", text kind) ∷ text_part "notes" notes))
      ≡ ok (some (record { kind = kind; notes = notes }))
unfolding get entries as_fields
source_dict kind none h = rw h refl
source_dict kind (some n) h = rw h refl

module _ (c p m : Dict Str Json) (h : physical_of (dict p) ≡ ok p) where
  abbrev bundle : Option Str → Option MappingSource → MappingBundle
  bundle o s = record {
    conceptual_schema = c;
    physical_mapping = p;
    metadata = m;
    owl_turtle = o;
    source = s;
  }

  abbrev top : Option Str → Option MappingSource → Dict Str Json
  top o s =
      (codes "conceptual_schema", dict c)
      ∷ (codes "physical_mapping", dict p)
      ∷ (codes "metadata", dict m)
      ∷ (text_part "owl_turtle" o ++ source_part s)

  wire_top :
      (o : Option Str) (s : Option MappingSource)
      → mapping_from_wire_dict (mapping_to_wire_dict (bundle o s)) ≡ bundle_of (top o s)
  unfolding mapping_from_wire_dict mapping_to_wire_dict renamed top_name get put entries as_fields
  wire_top none none = refl
  wire_top (some t) none = refl
  wire_top none (some s) = refl
  wire_top (some t) (some s) = refl

  top_bundle :
      (o : Option Str) (s : Option MappingSource)
      → HasKind s
      → bundle_of (top o s) ≡ ok (bundle o s)
  unfolding bundle_of get
  top_bundle none none k = rw (dict_or_empty-dict c, h, dict_or_empty-dict m) refl
  top_bundle (some t) none k = rw (dict_or_empty-dict c, h, dict_or_empty-dict m) refl
  top_bundle none (some s) k =
      rw (dict_or_empty-dict c, h, dict_or_empty-dict m, source_dict s.kind s.notes k) refl
  top_bundle (some t) (some s) k =
      rw (dict_or_empty-dict c, h, dict_or_empty-dict m, source_dict s.kind s.notes k) refl

round : (b : MappingBundle) → IsRead b → mapping_from_wire_dict (mapping_to_wire_dict b) ≡ ok b
round b r =
    wire_top b.conceptual_schema b.physical_mapping b.metadata r.physical b.owl_turtle b.source
    ∙ top_bundle b.conceptual_schema b.physical_mapping b.metadata r.physical b.owl_turtle b.source
        r.kind

-- Reading the wire form of a bundle that was itself read from a JSON object, of whatever contents,
-- gives that bundle back.
pub wire_round_trip :
    (fs : Fields) (b : MappingBundle)
    → mapping_from_wire_dict (object fs) ≡ ok b
    → mapping_from_wire_dict (mapping_to_wire_dict b) ≡ ok b
wire_round_trip fs b e =
    let (d, first, second) =
      ok_of_bind (normalise_top_level (entries fs)) bundle_of b
        (unfold mapping_from_wire_dict in e) in
    round b (bundle_of-IsRead d b second)
