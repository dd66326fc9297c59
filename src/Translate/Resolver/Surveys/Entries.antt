-- ===== src/Translate/Resolver/Surveys/Entries.antt =====
-- What one property does to the map of attributes of arango_sparql/translate/resolver.py.
use arango_sparql_py.Base.{
  ◌≡◌, Bool, true, false, Option, none, some, List, refl, sym, ap, ◌∙◌, inl, inr,
}
use arango_sparql_py.Base.Tests.{if◌then◌else◌, Bool-cases}
use arango_sparql_py.Base.Eq.{◌==◌, nat_eq, list_eq, eq_iff}
use arango_sparql_py.Base.Order.{nat_order, list_order}
use arango_sparql_py.Base.Dict.{Dict, get, get-put}
use arango_sparql_py.Base.Str.{Str}
use arango_sparql_py.Errors.{Result}
use arango_sparql_py.Translate.Resolver.Classes.{Fallback}
use arango_sparql_py.Translate.Resolver.Properties.{ResolvedProperty}
use arango_sparql_py.Translate.Resolver.Surveys.Catalogue.{entered, entered_property, then_indexed}
use Result.{ok, err}

-- A property resolves to an attribute at the top level of a document.
abbrev pub IsFlat : Str → Result ResolvedProperty → Type 0
IsFlat a q = (p : ResolvedProperty) × (q ≡ ok p) × (p.nested_path ≡ none) × (p.attribute ≡ a)

abbrev pub unnested : Str → Option (List Str) → Option Str
unnested a none = some a
unnested a (some names) = none

abbrev pub flat : Result ResolvedProperty → Option Str
flat (ok p) = unnested p.attribute p.nested_path
flat (err e) = none

abbrev pub is_at : Str → Option Str → Bool
is_at a none = false
is_at a (some s) = s == a

abbrev pub or_later : Option Str → Option Str → Option Str
or_later none later = later
or_later (some s) later = some s

pub flat-IsFlat : (a : Str) (q : Result ResolvedProperty) → is_at a (flat q) ≡ true → IsFlat a q
flat-IsFlat a (err e) h = absurd (cc h)
flat-IsFlat a (ok p) h = of_path p (p.nested_path) refl h
  where
    of_path :
        (p : ResolvedProperty) (o : Option (List Str))
        → p.nested_path ≡ o
        → is_at a (unnested p.attribute o) ≡ true
        → IsFlat a (ok p)
    of_path p none e h = (p, refl, e, (eq_iff p.attribute a).0 h)
    of_path p (some names) e h = absurd (cc h)

pub is_at-flat : (a : Str) (q : Result ResolvedProperty) → IsFlat a q → is_at a (flat q) ≡ true
is_at-flat a q (p, e, plain, same) = rw e (rw plain ((eq_iff p.attribute a).1 same))

pub or_later-none : (o : Option Str) → o ≡ or_later o none
or_later-none none = refl
or_later-none (some s) = refl

pub or_later-if :
    (o later : Option Str) (test : Bool) (k : Str)
    → or_later (or_later o (if test then some k else none)) later
      ≡ or_later o (if test then some k else later)
or_later-if none later true k = refl
or_later-if none later false k = refl
or_later-if (some s) later test k = refl

pub entered-get :
    (a k b : Str) (index : Dict Str Str) (o : Option Str)
    → get b index ≡ o
    → get a (entered k b index o).1 ≡ or_later (get a index) (if b == a then some k else none)
entered-get a k b index none free = elim (Bool-cases (b == a)) [
  | inl same ↦
      get-put b a k index ∙ rw (same, sym (ap (λ x. get x index) ((eq_iff b a).0 same)) ∙ free) refl
  | inr other ↦ get-put b a k index ∙ rw other (or_later-none (get a index))
]
entered-get a k b index (some j) taken = elim (Bool-cases (b == a)) [
  | inl same ↦ rw (sym (ap (λ x. get x index) ((eq_iff b a).0 same)) ∙ taken) refl
  | inr other ↦ rw other (or_later-none (get a index))
]

pub entered_property-get :
    (a k : Str) (p : ResolvedProperty) (index : Dict Str Str) (o : Option (List Str))
    → get a (entered_property k p index o).1
      ≡ or_later (get a index) (if is_at a (unnested p.attribute o) then some k else none)
entered_property-get a k p index none =
    entered-get a k p.attribute index (get p.attribute index) refl
entered_property-get a k p index (some names) = or_later-none (get a index)

pub step-get :
    (a k : Str) (index out : Dict Str Str)
    (rest : Dict Str Str → List Fallback × Result (Dict Str Str))
    (res : List Fallback × Result ResolvedProperty)
    → (then_indexed rest k index res).1 ≡ ok out
    → (mid : Dict Str Str) × ((rest mid).1 ≡ ok out)
      × (get a mid ≡ or_later (get a index) (if is_at a (flat res.1) then some k else none))
step-get a k index out rest (ws, err x) e = absurd (cc e)
step-get a k index out rest (ws, ok p) e = (
  (entered_property k p index p.nested_path).1,
  e,
  entered_property-get a k p index p.nested_path,
)
