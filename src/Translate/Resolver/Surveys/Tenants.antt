-- ===== src/Translate/Resolver/Surveys/Tenants.antt =====
-- arango_sparql/translate/resolver.py: no class with a tenant field is left out of the classes that a
-- translation guards, also if it does not resolve.
use arango_sparql_py.Base.{
  ◌≡◌, true, false, not, Option, none, some, List, [], ◌∷◌, ◌++◌, refl, sym, ap, ◌∙◌, subst, inl,
  inr, arith, ℕ,
}
use arango_sparql_py.Base.Tests.{if◌then◌else◌, Bool-cases}
use arango_sparql_py.Base.Eq.{◌==◌, nat_eq, list_eq, eq_iff}
use arango_sparql_py.Base.Lists.{contains, keep}
use arango_sparql_py.Base.Str.{Str}
use arango_sparql_py.Errors.{Result, ok_same}
use arango_sparql_py.Translate.Rdf.{Rdf}
use arango_sparql_py.Translate.Resolver.{
  is_style, declared_class, physical_string, has_type, resolve_class,
}
use arango_sparql_py.Translate.Resolver.Classes.{ResolvedClass, plain_class, Config}
use arango_sparql_py.Translate.Resolver.Surveys.{
  is_rpt, is_guarded, if_guarded, declared, tenant_class, tenant_classes, located_class,
  tenant_scoped_classes,
}
use arango_sparql_py.Translate.Resolver.Surveys.Declared.{declared-contains}
use Result.{ok}
use arango_sparql_py.Base.AnyOf.{AnyOf, any_of_right, any_of_left, any_of_keep}
use arango_sparql_py.Translate.Resolver.Surveys.Styles.{
  ReturnsOrRefuses, Guards, declared-ReturnsOrRefuses, declared-Guards, refused_is_no_table,
}

module _ (r : Rdf) (g : r.Graph) (cfg : Config) where
  resolve_class-ReturnsOrRefuses : (k : Str) → ReturnsOrRefuses (resolve_class r g cfg k).1
  unfolding resolve_class
  resolve_class-ReturnsOrRefuses k = elim (Bool-cases (has_type r g k "Class")) [
    | inl known ↦ rw known (
        declared-ReturnsOrRefuses (physical_string r g k) k cfg
          (physical_string r g k "mappingStyle"))
    | inr unknown ↦ elim (Bool-cases cfg.permissive) [
      | inl permissive ↦ rw (unknown, permissive) (inl (_, refl))
      | inr strict ↦ rw (unknown, strict) (inr refl)
    ]
  ]

  tenant_class-total :
      (k : Str) (o : Option Str) → (cs : List ResolvedClass) × (tenant_class r g cfg k o ≡ ok cs)
  tenant_class-total k none = ([], refl)
  tenant_class-total k (some t) = elim (resolve_class-ReturnsOrRefuses k) [
    | inl (c, e) ↦ (if_guarded (some c), rw e refl)
    | inr e ↦
        (if_guarded (located_class r g k t (physical_string r g k "collectionName")), rw e refl)
  ]

  tenant_classes-total :
      (ks : List Str) → (cs : List ResolvedClass) × (tenant_classes r g cfg ks ≡ ok cs)
  unfolding tenant_classes
  tenant_classes-total [] = ([], refl)
  tenant_classes-total (k ∷ ks) =
      let (found, first) = tenant_class-total k (physical_string r g k "tenantField") in
      let (rest, second) = tenant_classes-total ks in (found ++ rest, rw (first, second) refl)

  -- The survey returns, and lists what each of its classes gives.
  tenant_classes-lists :
      (P : ResolvedClass → Type 0) (k : Str) (ks : List Str)
      → ((cs : List ResolvedClass)
          → tenant_class r g cfg k (physical_string r g k "tenantField") ≡ ok cs
          → AnyOf P cs)
      → contains k ks ≡ true
      → (cs : List ResolvedClass) × (tenant_classes r g cfg ks ≡ ok cs) × AnyOf P cs
  unfolding tenant_classes
  tenant_classes-lists P k [] h m = absurd (cc m)
  tenant_classes-lists P k (j ∷ js) h m =
      let (found, first) = tenant_class-total j (physical_string r g j "tenantField") in
      elim (Bool-cases (j == k)) [
        | inl same ↦
            let (rest, second) = tenant_classes-total js in
            (
              found ++ rest,
              rw (first, second) refl,
              any_of_left P found rest (
                  h found (
                    ap (λ i. tenant_class r g cfg i (physical_string r g i "tenantField"))
                      (sym ((eq_iff j k).0 same))
                    ∙ first)),
            )
        | inr other ↦
            let (rest, second, any) = tenant_classes-lists P k js h (ground (arith, other)) in
            (found ++ rest, rw (first, second) refl, any_of_right P found rest any)
      ]

  module _ (k : Str) (x y : ℕ) (t n : Str) (known : has_type r g k "Class" ≡ true)
      (guarded : physical_string r g k "tenantField" ≡ some (x ∷ t))
      (stored : physical_string r g k "collectionName" ≡ some (y ∷ n))
      (concrete : is_style "UNION" (physical_string r g k "mappingStyle") ≡ false) where
    abbrev IsGuard : ResolvedClass → Type 0
    IsGuard = Guards k (y ∷ n) (x ∷ t) (is_style "RPT" (physical_string r g k "mappingStyle"))

    listed :
        (c : ResolvedClass) (cs : List ResolvedClass)
        → IsGuard c
        → is_guarded c ≡ true
        → ◌≡◌ {A = Result (List ResolvedClass)} (ok (if_guarded (some c))) (ok cs)
        → AnyOf IsGuard cs
    listed c cs h test e = subst (AnyOf IsGuard) (ok_same (c ∷ []) cs (rw test at e)) (inl h)

    is_declared :
        resolve_class r g cfg k
        ≡ declared_class (physical_string r g k) cfg k (physical_string r g k "mappingStyle")
    unfolding resolve_class
    is_declared = rw known refl

    guards_listed :
        (cs : List ResolvedClass) → tenant_class r g cfg k (some (x ∷ t)) ≡ ok cs → AnyOf IsGuard cs
    guards_listed cs f = elim (resolve_class-ReturnsOrRefuses k) [
      | inl (c, e) ↦
          let (h, test) =
            declared-Guards (physical_string r g k) k cfg (physical_string r g k "mappingStyle") x y
              t n guarded stored concrete c (ap (λ q. q.1) (sym is_declared) ∙ e) in
          listed c cs h test (rw e at f)
      | inr e ↦
          let plain =
            refused_is_no_table (physical_string r g k) k cfg (physical_string r g k "mappingStyle")
              x y t n guarded stored concrete (ap (λ q. q.1) (sym is_declared) ∙ e) in
          listed
            (record (plain_class k (y ∷ n)) {
              tenant_field = some (x ∷ t);
              tenant_entity = physical_string r g k "tenantEntity";
            })
            cs (refl, refl, refl, sym plain) refl (rw (e, stored) at f)
    ]

    -- A class that the ontology declares, with a tenant field and a collection, both non-empty, and
    -- of no UNION style, is among the classes that a translation guards, those of triples tables if
    -- its style is RPT and the others if not, under its IRI, with that collection and that tenant
    -- field, also where it does not resolve; the survey of the classes does not fail.
    pub tenant_scoped_classes-Guards :
        (cs : List ResolvedClass) × (tenant_scoped_classes r g cfg
            (is_style "RPT" (physical_string r g k "mappingStyle"))
          ≡ ok cs)
        × AnyOf IsGuard cs
    unfolding tenant_scoped_classes
    tenant_scoped_classes-Guards =
        let style = physical_string r g k "mappingStyle" in
        let (cs, returned, any) =
          tenant_classes-lists IsGuard k (declared r g "Class")
            (λ found e. guards_listed found (ap (tenant_class r g cfg k) (sym guarded) ∙ e))
            (declared-contains r g "Class" k ∙ known) in
        (
          keep (λ c. if is_rpt c then is_style "RPT" style else not (is_style "RPT" style)) cs,
          rw returned refl,
          any_of_keep IsGuard
              (λ c. if is_rpt c then is_style "RPT" style else not (is_style "RPT" style)) cs
              (λ c h. ground (arith, h.3)) any,
        )
