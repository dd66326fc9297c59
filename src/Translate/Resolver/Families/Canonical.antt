-- ===== src/Translate/Resolver/Families/Canonical.antt =====
-- The projection of shard families does not depend on the order in which they are written.
use arango_sparql_py.Base.{◌≡◌, not, Option, none, some, List, [], ◌∷◌, map, refl, sym}
use mathlib.Core.List.{Permᴰ}
use arango_sparql_py.Base.Lists.{is_nil, keep}
use arango_sparql_py.Base.Order.{nat_order, list_order, sorted-perm}
use arango_sparql_py.Base.Json.{Json, Items, items, as_text}
use arango_sparql_py.Schema.Scope.{texts, added}
use arango_sparql_py.Translate.Resolver.Families.{Family, family_of, projected}
use arango_sparql_py.Base.Str.{Str}
use Json.{null, boolean, integer, float, text, array, object}

perm_refl {ℓ} : {A : Type ℓ} (xs : List A) → Permᴰ xs xs
perm_refl [] = Permᴰ.nil
perm_refl (x ∷ xs) = Permᴰ.cons refl (perm_refl xs)

added-perm : (o : Option Str) {xs ys : List Str} → Permᴰ xs ys → Permᴰ (added o xs) (added o ys)
added-perm none p = p
added-perm (some s) p = Permᴰ.cons refl p

added-swap :
    (o q : Option Str) (xs : List Str) → Permᴰ (added o (added q xs)) (added q (added o xs))
added-swap none q xs = perm_refl (added q xs)
added-swap (some s) none xs = perm_refl (s ∷ xs)
added-swap (some s) (some t) xs = Permᴰ.swap refl refl

texts-cons : (j : Json) (js : List Json) → texts (j ∷ js) ≡ added (as_text j) (texts js)
texts-cons null js = refl
texts-cons (boolean b) js = refl
texts-cons (integer n) js = refl
texts-cons (float s) js = refl
texts-cons (text s) js = refl
texts-cons (array xs) js = refl
texts-cons (object fs) js = refl

texts-cons_perm :
    (j : Json) (js ks : List Json)
    → Permᴰ (texts js) (texts ks)
    → Permᴰ (texts (j ∷ js)) (texts (j ∷ ks))
texts-cons_perm j js ks p = rw (texts-cons j js, texts-cons j ks) (added-perm (as_text j) p)

texts-swap : (i j : Json) (js : List Json) → Permᴰ (texts (i ∷ j ∷ js)) (texts (j ∷ i ∷ js))
texts-swap i j js =
    rw (texts-cons i (j ∷ js), texts-cons j (i ∷ js), texts-cons i js, texts-cons j js)
      (added-swap (as_text i) (as_text j) (texts js))

texts-perm : {js ks : List Json} → Permᴰ js ks → Permᴰ (texts js) (texts ks)
texts-perm Permᴰ.nil = Permᴰ.nil
texts-perm (Permᴰ.cons {b} {l₁} {l₂} e p) = rw e (texts-cons_perm b l₁ l₂ (texts-perm p))
texts-perm (Permᴰ.swap {a} {b} {l} e f) = rw (sym e, sym f) (texts-swap a b l)
texts-perm (Permᴰ.trans p q) = Permᴰ.trans (texts-perm p) (texts-perm q)

-- the families that are kept
abbrev kept : List Family → List Family
kept fs = keep (λ f. not (is_nil f)) fs

kept-cons :
    (f : Family) (fs gs : List Family)
    → Permᴰ (kept fs) (kept gs)
    → Permᴰ (kept (f ∷ fs)) (kept (f ∷ gs))
kept-cons [] fs gs p = p
kept-cons (x ∷ f) fs gs p = Permᴰ.cons refl p

kept-swap : (f g : Family) (fs : List Family) → Permᴰ (kept (f ∷ g ∷ fs)) (kept (g ∷ f ∷ fs))
kept-swap [] g fs = perm_refl (kept (g ∷ fs))
kept-swap (x ∷ f) [] fs = perm_refl (kept ((x ∷ f) ∷ fs))
kept-swap (x ∷ f) (y ∷ g) fs = Permᴰ.swap refl refl

-- The same families: each written with its members in any order, and they in any order themselves.
pub data SameFamilies : List Json → List Json → Type 0 where
  here : SameFamilies [] []
  family :
      {xs ys : Items} {js ks : List Json}
      → Permᴰ (items xs) (items ys)
      → SameFamilies js ks
      → SameFamilies (array xs ∷ js) (array ys ∷ ks)
  other : (j : Json) {js ks : List Json} → SameFamilies js ks → SameFamilies (j ∷ js) (j ∷ ks)
  exchanged : (i j : Json) {js : List Json} → SameFamilies (i ∷ j ∷ js) (j ∷ i ∷ js)
  trans : {js ks ls : List Json} → SameFamilies js ks → SameFamilies ks ls → SameFamilies js ls

same_members :
    (xs ys : Items) → Permᴰ (items xs) (items ys) → family_of (array xs) ≡ family_of (array ys)
unfolding family_of
same_members xs ys p = sorted-perm (texts-perm p)

families-perm :
    {js ks : List Json}
    → SameFamilies js ks
    → Permᴰ
        (keep (λ f. not (is_nil f)) (map family_of js))
        (keep (λ f. not (is_nil f)) (map family_of ks))
families-perm here = Permᴰ.nil
families-perm (family {xs} {ys} {js} {ks} p s) =
    rw (same_members xs ys p)
      (kept-cons (family_of (array ys)) (map family_of js) (map family_of ks) (families-perm s))
families-perm (other j {js} {ks} s) =
    kept-cons (family_of j) (map family_of js) (map family_of ks) (families-perm s)
families-perm (exchanged i j {js}) = kept-swap (family_of i) (family_of j) (map family_of js)
families-perm (trans s t) = Permᴰ.trans (families-perm s) (families-perm t)

-- Two mappings that list the same families give resolvers the same families.
pub projected-SameFamilies : {js ks : List Json} → SameFamilies js ks → projected js ≡ projected ks
unfolding projected
projected-SameFamilies s = sorted-perm (families-perm s)
