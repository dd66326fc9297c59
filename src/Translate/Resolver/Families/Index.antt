-- ===== src/Translate/Resolver/Families/Index.antt =====
-- The index of shard families has each collection's family, and refuses a collection of two families.
use arango_sparql_py.Base.{
  ◌≡◌, ◌↔◌, ◌⊎◌, Bool, true, false, Option, none, some, List, [], ◌∷◌, refl, sym, ap, subst, ◌∙◌,
  inl, inr, arith,
}
use arango_sparql_py.Base.Tests.{if◌then◌else◌, Bool-cases}
use arango_sparql_py.Base.Eq.{◌==◌, nat_eq, list_eq, eq_iff, eq_refl}
use arango_sparql_py.Base.Lists.{contains}
use arango_sparql_py.Base.Dict.{get, put, get-put}
use arango_sparql_py.Base.Str.{Str}
use arango_sparql_py.Errors.{Error, Result, ok_of_bind, ok_same}
use arango_sparql_py.Translate.Resolver.Families.{
  Family, Families, clashes, index_members, index_families, family_by_collection,
}
use Result.{ok, err}

abbrev pub Shares : Str → List Family → Family → Type 0
Shares c fs f = (contains f fs ≡ true) × (contains c f ≡ true)

-- What an entry says after a family was indexed, of what it said before.
index_members-get :
    (f : Family) (cs : List Str) (d e : Families)
    → index_members f cs d ≡ ok e
    → (c : Str) → get c e ≡ (if contains c cs then some f else get c d)
unfolding index_members
index_members-get f [] d e h c = ap (get c) (sym (ok_same d e h))
index_members-get f (x ∷ cs) d e h c = elim (Bool-cases (clashes f (get x d))) [
  | inl clash ↦ absurd (cc (rw clash at h))
  | inr free ↦
      ground (arith, index_members-get f cs (put x f d) e (rw free at h) c, get-put x c f d)
]

unchanged : (f g : Family) (o : Option Family) → clashes f o ≡ false → o ≡ some g → g ≡ f
unchanged f g none h e = absurd (cc e)
unchanged f g (some k) h e = ground (arith, eq_iff k f)

index_members-was :
    (f : Family) (cs : List Str) (d e : Families)
    → index_members f cs d ≡ ok e
    → (c : Str) (g : Family) → contains c cs ≡ true
    → get c d ≡ some g
    → g ≡ f
unfolding index_members
index_members-was f [] d e h c g m was = absurd (cc m)
index_members-was f (x ∷ cs) d e h c g m was = elim (Bool-cases (clashes f (get x d))) [
  | inl clash ↦ absurd (cc (rw clash at h))
  | inr free ↦ elim (Bool-cases (x == c)) [
    | inl same ↦ unchanged f g (get x d) free (ap (λ y. get y d) ((eq_iff x c).0 same) ∙ was)
    | inr other ↦
        index_members-was f cs (put x f d) e (rw free at h) c g (ground (arith, m, other))
          (get-put x c f d ∙ rw other was)
  ]
]

keeps :
    (fs : List Family) (d e : Families) (c : Str) (g : Family)
    → index_families fs d ≡ ok e
    → get c d ≡ some g
    → get c e ≡ some g
unfolding index_families
keeps [] d e c g h was = subst (λ x. get c x ≡ some g) (ok_same d e h) was
keeps (f ∷ fs) d e c g h was =
    let (mid, first, second) = ok_of_bind (index_members f f d) (index_families fs) e h in
    keeps fs mid e c g second
      (index_members-get f f d mid first c ∙ stays f d mid c g first was (contains c f) refl)
  where
    stays :
        (f : Family) (d mid : Families) (c : Str) (g : Family)
        → index_members f f d ≡ ok mid
        → get c d ≡ some g
        → (b : Bool) → contains c f ≡ b
        → (if b then some f else get c d) ≡ some g
    stays f d mid c g first was true m = ap some (sym (index_members-was f f d mid first c g m was))
    stays f d mid c g first was false m = was

collected :
    (fs : List Family) (d e : Families) (c : Str) (g : Family)
    → index_families fs d ≡ ok e
    → contains g fs ≡ true
    → contains c g ≡ true
    → get c e ≡ some g
unfolding index_families
collected [] d e c g h m n = absurd (cc m)
collected (f ∷ fs) d e c g h m n =
    let (mid, first, second) = ok_of_bind (index_members f f d) (index_families fs) e h in
    elim (Bool-cases (f == g)) [
      | inl same ↦ keeps fs mid e c g second (
          index_members-get f f d mid first c
          ∙ ground (arith, eq_iff f g, n, same, ap (contains c) ((eq_iff f g).0 same)))
      | inr other ↦ collected fs mid e c g second (ground (arith, other, m)) n
    ]

traced :
    (fs : List Family) (d e : Families) (c : Str) (g : Family)
    → index_families fs d ≡ ok e
    → get c e ≡ some g
    → (get c d ≡ some g) ⊎ Shares c fs g
unfolding index_families
traced [] d e c g h is = inl (subst (λ x. get c x ≡ some g) (sym (ok_same d e h)) is)
traced (f ∷ fs) d e c g h is =
    let (mid, first, second) = ok_of_bind (index_members f f d) (index_families fs) e h in
    elim (traced fs mid e c g second is) [
      | inr (m, n) ↦ inr (ground (arith, m), n)
      | inl old ↦ elim (Bool-cases (contains c f)) [
        | inr outside ↦ inl (ground (arith, index_members-get f f d mid first c, old, outside))
        | inl inside ↦
            let same : f ≡ g = ground (arith, index_members-get f f d mid first c, old, inside) in
            inr (ground (arith, eq_iff f g, same), ap (contains c) (sym same) ∙ inside)
      ]
    ]

agreed :
    (f : Family) (o : Option Family) → ((g : Family) → o ≡ some g → g ≡ f) → clashes f o ≡ false
agreed f none h = refl
agreed f (some g) h = ground (arith, eq_iff g f, h g refl)

index_members-accepts :
    (f : Family) (cs : List Str) (d : Families)
    → ((c : Str) (g : Family) → contains c cs ≡ true → get c d ≡ some g → g ≡ f)
    → (e : Families) × (index_members f cs d ≡ ok e)
unfolding index_members
index_members-accepts f [] d free = (d, refl)
index_members-accepts f (x ∷ cs) d free =
    rw (agreed f (get x d) (λ g is. free x g (ground (arith, eq_refl x)) is)) (
      index_members-accepts f cs (put x f d) (λ c g m is. elim (Bool-cases (x == c)) [
        | inl same ↦ ground (arith, get-put x c f d, is, same)
        | inr other ↦ free c g (ground (arith, m)) (ground (arith, get-put x c f d, is, other))
      ]))

accepts :
    (all fs : List Family) (d : Families)
    → ((c : Str) (f g : Family) → Shares c all f → Shares c all g → f ≡ g)
    → ((f : Family) → contains f fs ≡ true → contains f all ≡ true)
    → ((c : Str) (g : Family) → get c d ≡ some g → Shares c all g)
    → (e : Families) × (index_families fs d ≡ ok e)
unfolding index_families
accepts all [] d agree sub inv = (d, refl)
accepts all (f ∷ fs) d agree sub inv =
    let mine : contains f all ≡ true = sub f (ground (arith, eq_refl f)) in
    let (mid, first) =
      index_members-accepts f f d (λ c g m is. agree c g f (inv c g is) (mine, m)) in
    rw first (
      accepts all fs mid agree (λ g m. sub g (ground (arith, m)))
        (λ c g is. elim (Bool-cases (contains c f)) [
          | inl inside ↦
              let same : f ≡ g = ground (arith, index_members-get f f d mid first c, is, inside) in
              subst (Shares c all) same (mine, inside)
          | inr outside ↦ inv c g (ground (arith, index_members-get f f d mid first c, is, outside))
        ]))

nothing : (c : Str) (g : Family) → ◌≡◌ {A = Option Family} (get c []) (some g) → ⊥
unfolding get
nothing c g e = cc e

-- No collection stands in two different families.
abbrev pub Agree : List Family → Type 0
Agree fs = (c : Str) (f g : Family) → Shares c fs f → Shares c fs g → f ≡ g

abbrev pub IsIndex : List Family → Families → Type 0
IsIndex fs e = (c : Str) (f : Family) → (get c e ≡ some f) ↔ Shares c fs f

built-IsIndex : (fs : List Family) (e : Families) → index_families fs [] ≡ ok e → IsIndex fs e
built-IsIndex fs e built c f =
    (λ is. new (traced fs [] e c f built is), λ s. collected fs [] e c f built s.0 s.1)
  where
    new : ((get c [] ≡ some f) ⊎ Shares c fs f) → Shares c fs f
    new (inl old) = absurd (nothing c f old)
    new (inr s) = s

refused-disagree : (fs : List Family) (x : Error) → index_families fs [] ≡ err x → Agree fs → ⊥
refused-disagree fs x e agree =
    let (d, built) = accepts fs fs [] agree (λ f m. m) (λ c g is. absurd (nothing c g is)) in
    cc (e, built)

-- The index of shard families is built, and it has for each collection the family that it stands in and
-- no other entry, or it is refused; and it is refused only where a collection stands in two different
-- families.
pub family_by_collection-exact :
    (fs : List Family)
    → ((x : Error) × (family_by_collection fs ≡ err x) × (¬ Agree fs))
      ⊎ ((e : Families) × (family_by_collection fs ≡ ok e) × IsIndex fs e)
unfolding family_by_collection
family_by_collection-exact fs = outcome (index_families fs []) refl
  where
    outcome :
        (q : Result Families)
        → index_families fs [] ≡ q
        → ((x : Error) × (index_families fs [] ≡ err x) × (¬ Agree fs))
          ⊎ ((e : Families) × (index_families fs [] ≡ ok e) × IsIndex fs e)
    outcome (err x) h = inl (x, h, refused-disagree fs x h)
    outcome (ok e) h = inr (e, h, built-IsIndex fs e h)
