-- ===== src/Mapping/Physical.antt =====
-- The physical half of a bundle that arango_sparql/translate/mapping.py read is read again as it is.
use arango_sparql_py.Base.{
  ◌≡◌, Bool, true, false, some, [], ◌∷◌, ◌++◌, refl, inl, inr, append_assoc, append-nil, sym, ap,
  ◌∙◌,
}
use arango_sparql_py.Base.Tests.{Bool-cases, Option-cases}
use arango_sparql_py.Base.Eq.{nat_eq, list_eq}
use arango_sparql_py.Base.Lists.{All}
use arango_sparql_py.Base.Dict.{Dict, get, put, set_default-new, set_default-old, get-put_self}
use arango_sparql_py.Base.Dict.Distinct.{
  Distinct, Apart, Apart-put, Apart-of_put, get-Apart, put-new,
}
use arango_sparql_py.Base.Json.{Json, Fields, entries, as_fields, entries-as_fields, dict, truthy}
use arango_sparql_py.Base.Str.{Str, codes}
use arango_sparql_py.Errors.{Result, ◌>>=◌, ok_of_bind, ok_same}
use Json.{null, boolean, integer, float, text, array, object}
use Fields.{end, field}
use Result.{ok, err}
use arango_sparql_py.Mapping.{
  spec_name, renamed, check_spec, check_properties, normalise_spec, normalise_specs, dict_or_empty,
  is_part, with_extras, parts, normalise_physical_mapping, physical_of,
}
use arango_sparql_py.Mapping.Rename.{renamed-again, spec_name-again}

-- `check_spec` returns what it is given.
check_spec-same :
    (r : Bool) (d out : Dict Str Json) → check_spec r d ≡ ok out → check_spec r d ≡ ok d
check_spec-same true d out e = refl
check_spec-same false d out e =
    let checked = ok_of_bind (check_properties (get (codes "properties") d)) (λ _. ok d) out e in
    rw checked.1 refl

check_spec-out : (r : Bool) (d out : Dict Str Json) → check_spec r d ≡ ok out → d ≡ out
check_spec-out r d out e = ok_same d out (sym (check_spec-same r d out e) ∙ e)

normalise_spec-again :
    (r : Bool) (j : Json) (out : Dict Str Json)
    → normalise_spec r j ≡ ok out
    → normalise_spec r (dict out) ≡ ok out
unfolding normalise_spec
normalise_spec-again r (object fs) out e =
    let (d, first, second) =
      ok_of_bind (renamed (spec_name r) [] (entries fs)) (check_spec r) out e in
    let same = check_spec-out r d out second in
    rw (sym same) (
      rw (entries-as_fields d, renamed-again (spec_name r) (spec_name-again r) (entries fs) d first)
        (check_spec-same r d out second))
normalise_spec-again r null out e = absurd (cc e)
normalise_spec-again r (boolean b) out e = absurd (cc e)
normalise_spec-again r (integer n) out e = absurd (cc e)
normalise_spec-again r (float s) out e = absurd (cc e)
normalise_spec-again r (text s) out e = absurd (cc e)
normalise_spec-again r (array js) out e = absurd (cc e)

normalise_specs-again :
    (r : Bool) (d out : Dict Str Json)
    → normalise_specs r d ≡ ok out
    → normalise_specs r out ≡ ok out
unfolding normalise_specs
normalise_specs-again r [] out e = rw (sym (ok_same [] out e)) refl
normalise_specs-again r ((label, spec) ∷ d) out e =
    let (s, first, more) =
      ok_of_bind (normalise_spec r spec)
        (λ s. normalise_specs r d >>= λ rest. ok ((label, dict s) ∷ rest)) out e in
    let (rest, second, last) =
      ok_of_bind (normalise_specs r d) (λ rest. ok ((label, dict s) ∷ rest)) out more in
    rw (sym (ok_same ((label, dict s) ∷ rest) out last))
      (rw (normalise_spec-again r spec s first) (rw (normalise_specs-again r d rest second) refl))

pub dict_or_empty-dict : (d : Dict Str Json) → dict_or_empty (some (dict d)) ≡ ok d
unfolding truthy as_fields entries
dict_or_empty-dict [] = refl
dict_or_empty-dict ((k, j) ∷ d) = rw (entries-as_fields d) refl

-- what the other keys add
record Extras (out d new : Dict Str Json) : Type 0 where
  all_of : with_extras out d ≡ out ++ new
  distinct : Distinct new
  apart : Apart out new
  plain : All (λ (e : Str × Json). is_part e.0 ≡ false) new

extras : (out d : Dict Str Json) → (new : Dict Str Json) × Extras out d new
unfolding with_extras
extras out [] =
    ([], record { all_of = sym (append-nil out); distinct = tt; apart = tt; plain = tt })
extras out ((k, j) ∷ d) = elim (Bool-cases (is_part k)) [
  | inl part ↦
      let (new, x) = extras out d in
      (
        new,
        record {
          all_of = rw part x.all_of;
          distinct = x.distinct;
          apart = x.apart;
          plain = x.plain;
        },
      )
  | inr extra ↦ elim (Option-cases (get k out)) [
    | inr (w, found) ↦
        let (new, x) = extras out d in
        (
          new,
          record {
            all_of = rw extra (rw (set_default-old k j w out found) x.all_of);
            distinct = x.distinct;
            apart = x.apart;
            plain = x.plain;
          },
        )
    | inl free ↦
        let (new, x) = extras (put k j out) d in
        (
          (k, j) ∷ new,
          record {
            all_of = rw extra (
                rw (set_default-new k j out free) (
                  x.all_of
                  ∙ ap (λ a. a ++ new) (put-new k j out free)
                  ∙ append_assoc out ((k, j) ∷ []) new));
            distinct = (
              get-Apart k (put k j out) new x.apart (rw (get-put_self k j out) refl),
              x.distinct,
            );
            apart = (free, Apart-of_put k j out new free x.apart);
            plain = (extra, x.plain);
          },
        )
  ]
]

with_extras-plain :
    (out new : Dict Str Json)
    → Distinct new
    → Apart out new
    → All (λ (e : Str × Json). is_part e.0 ≡ false) new
    → with_extras out new ≡ out ++ new
unfolding with_extras
with_extras-plain out [] u a p = rw (append-nil out) refl
with_extras-plain out ((k, j) ∷ new) u a p = rw p.0 (
    rw (set_default-new k j out a.0) (
      with_extras-plain (put k j out) new u.1 (Apart-put k j out new u.0 a.1) p.1
      ∙ ap (λ x. x ++ new) (put-new k j out a.0)
      ∙ append_assoc out ((k, j) ∷ []) new))

physical_of-cons :
    (e : Str × Json) (d : Dict Str Json)
    → physical_of (dict (e ∷ d)) ≡ normalise_physical_mapping (e ∷ d)
unfolding entries as_fields
physical_of-cons e d = rw (entries-as_fields d) refl

module _ (es rs new : Dict Str Json) (entities : normalise_specs false es ≡ ok es)
    (relationships : normalise_specs true rs ≡ ok rs) (distinct : Distinct new)
    (apart : Apart (parts es rs) new)
    (plain : All (λ (e : Str × Json). is_part e.0 ≡ false) new) where
  parts-again : with_extras (parts es rs) (parts es rs ++ new) ≡ parts es rs ++ new
  unfolding with_extras is_part
  parts-again = with_extras-plain (parts es rs) new distinct apart plain

  physical-parts : normalise_physical_mapping (parts es rs ++ new) ≡ ok (parts es rs ++ new)
  unfolding normalise_physical_mapping get
  physical-parts =
      rw (dict_or_empty-dict es, dict_or_empty-dict rs, entities, relationships, parts-again) refl

two_steps :
    (p q : Result (Dict Str Json)) (f : Dict Str Json → Dict Str Json → Dict Str Json)
    (out : Dict Str Json)
    → (p >>= λ a. q >>= λ b. ok (f a b)) ≡ ok out
    → (a b : Dict Str Json) × (p ≡ ok a) × (q ≡ ok b) × (f a b ≡ out)
two_steps (ok a) (ok b) f out e = (a, b, refl, refl, ok_same (f a b) out e)
two_steps (ok a) (err x) f out e = absurd (cc e)
two_steps (err x) q f out e = absurd (cc e)

physical_parts :
    (p q : Result (Dict Str Json)) (pm out : Dict Str Json)
    → (p >>= λ a. q >>= λ b. normalise_specs false a >>= λ es.
        normalise_specs true b >>= λ rs. ok (with_extras (parts es rs) pm))
      ≡ ok out
    → (es rs : Dict Str Json) × (normalise_specs false es ≡ ok es)
      × (normalise_specs true rs ≡ ok rs)
      × (with_extras (parts es rs) pm ≡ out)
physical_parts (ok a) (ok b) pm out e =
    let (es, rs, first, second, last) =
      two_steps (normalise_specs false a) (normalise_specs true b)
        (λ es rs. with_extras (parts es rs) pm) out e in
    (es, rs, normalise_specs-again false a es first, normalise_specs-again true b rs second, last)
physical_parts (ok a) (err x) pm out e = absurd (cc e)
physical_parts (err x) q pm out e = absurd (cc e)

physical-again :
    (pm out : Dict Str Json)
    → normalise_physical_mapping pm ≡ ok out
    → physical_of (dict out) ≡ ok out
physical-again pm out e =
    let (es, rs, first, second, last) =
      physical_parts (dict_or_empty (get (codes "entities") pm))
        (dict_or_empty (get (codes "relationships") pm)) pm out
        (unfold normalise_physical_mapping in e) in
    let (new, x) = extras (parts es rs) pm in
    rw (sym last) (
      rw x.all_of (
        physical_of-cons (codes "entities", dict es) ((codes "relationships", dict rs) ∷ new)
        ∙ physical-parts es rs new first second x.distinct x.apart x.plain))

no_parts-again : (p : Dict Str Json) → parts [] [] ≡ p → physical_of (dict p) ≡ ok p
unfolding normalise_specs
no_parts-again p e = rw (sym e) (
    physical_of-cons (codes "entities", dict []) ((codes "relationships", dict []) ∷ [])
    ∙ physical-parts [] [] [] refl refl tt tt tt)

pub physical_of-again :
    (j : Json) (p : Dict Str Json) → physical_of j ≡ ok p → physical_of (dict p) ≡ ok p
physical_of-again null p e = no_parts-again p (ok_same (parts [] []) p e)
physical_of-again (object end) p e = no_parts-again p (ok_same (parts [] []) p e)
physical_of-again (object (field k j fs)) p e = physical-again ((k, j) ∷ entries fs) p e
physical_of-again (boolean b) p e = absurd (cc e)
physical_of-again (integer n) p e = absurd (cc e)
physical_of-again (float s) p e = absurd (cc e)
physical_of-again (text s) p e = absurd (cc e)
physical_of-again (array js) p e = absurd (cc e)
