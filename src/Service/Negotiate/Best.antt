-- ===== src/Service/Negotiate/Best.antt =====
-- The media type that arango_sparql/service/protocol/negotiate.py chooses among the offers is a best
-- one.
use arango_sparql_py.Base.{
  ℕ, ◌<◌, ◌≡◌, Bool, true, false, ◌||◌, ◌&&◌, Option, none, some, List, [], ◌∷◌, ◌++◌, refl, ap,
  sym, ◌∙◌, subst, arith, inl, inr,
}
use arango_sparql_py.Base.Tests.{is_some, Bool-cases, Option-cases}
use arango_sparql_py.Base.Eq.{◌==◌, nat_eq, list_eq, eq_iff}
use arango_sparql_py.Base.Lists.{any, contains, any-append, All}
use arango_sparql_py.Base.Dict.{Dict, get, put, get-put}
use arango_sparql_py.Base.Str.{Str}
use arango_sparql_py.Service.Negotiate.Keys.{
  Descending, bounded, sorted_keys-contains, sorted_keys-Descending,
}
use arango_sparql_py.Service.Negotiate.{
  MediaTypeOffer, matches, tier, add_tiers, sorted_keys, accepts, first_supported, first_some,
  search_tiers, choose,
}

-- whether an offer of the quality accepts the type
abbrev pub accepts_at : Str → ℕ → List MediaTypeOffer → Bool
accepts_at supported q offers = any (λ o. o.q == q && matches o.media_type supported) offers

put-accepts :
    (s : Str) (q : ℕ) (o : MediaTypeOffer) (tiers : Dict ℕ (List Str))
    → accepts s (tier (get q (put o.q (tier (get o.q tiers) ++ o.media_type ∷ []) tiers)))
      ≡ (accepts s (tier (get q tiers)) || (o.q == q && matches o.media_type s))
put-accepts s q o tiers =
    rw (get-put o.q q (tier (get o.q tiers) ++ o.media_type ∷ []) tiers)
      (elim (Bool-cases (o.q == q)) [
        | inr differs ↦ rw differs (ground arith)
        | inl same ↦ rw same (
            subst
              (λ k.
                accepts s (tier (get o.q tiers) ++ o.media_type ∷ [])
                ≡ (accepts s (tier (get k tiers)) || matches o.media_type s))
              ((eq_iff o.q q).0 same)
              (ground
                (arith, any-append (λ m. matches m s) (tier (get o.q tiers)) (o.media_type ∷ []))))
      ])

-- A tier accepts what the offers of its quality accept.
add_tiers-accepts :
    (s : Str) (q : ℕ) (offers : List MediaTypeOffer) (tiers : Dict ℕ (List Str))
    → accepts s (tier (get q (add_tiers offers tiers)))
      ≡ (accepts s (tier (get q tiers)) || accepts_at s q offers)
unfolding add_tiers
add_tiers-accepts s q [] tiers = ground arith
add_tiers-accepts s q (o ∷ os) tiers =
    let step = put o.q (tier (get o.q tiers) ++ o.media_type ∷ []) tiers in
    ground (arith, add_tiers-accepts s q os step, put-accepts s q o tiers)

-- The first type of the priority list that the offers accept.
record Earliest (accepted : Str → Bool) (priority : List Str) (s : Str) : Type 0 where
  before : List Str
  after : List Str
  splits : priority ≡ before ++ s ∷ after
  accepts_it : accepted s ≡ true
  none_before : All (λ s'. accepted s' ≡ false) before

first_supported-Earliest :
    (priority ms : List Str) (s : Str)
    → first_supported priority ms ≡ some s
    → Earliest (λ s'. accepts s' ms) priority s
unfolding first_supported
first_supported-Earliest [] ms s e = absurd (cc e)
first_supported-Earliest (p ∷ ps) ms s e = elim (Bool-cases (accepts p ms)) [
  | inl yes' ↦
      let is : p ≡ s = cc (rw yes' at e) in
      record {
        before = [];
        after = ps;
        splits = ap (λ x. x ∷ ps) is;
        accepts_it = subst (λ x. accepts x ms ≡ true) is yes';
        none_before = tt;
      }
  | inr no' ↦
      let r = first_supported-Earliest ps ms s (rw no' at e) in
      record {
        before = p ∷ r.before;
        after = r.after;
        splits = ap (λ x. p ∷ x) r.splits;
        accepts_it = r.accepts_it;
        none_before = (no', r.none_before);
      }
]

first_supported-none :
    (priority ms : List Str) (s : Str)
    → first_supported priority ms ≡ none
    → contains s priority ≡ true
    → accepts s ms ≡ false
unfolding first_supported
first_supported-none [] ms s e c = absurd (cc c)
first_supported-none (p ∷ ps) ms s e c = elim (Bool-cases (accepts p ms)) [
  | inl yes' ↦ absurd (cc (rw yes' at e))
  | inr no' ↦ elim (Bool-cases (p == s)) [
    | inl same ↦ subst (λ x. accepts x ms ≡ false) ((eq_iff p s).0 same) no'
    | inr differs ↦ first_supported-none ps ms s (rw no' at e) (rw differs at c)
  ]
]

module _ (priority : List Str) (tiers : Dict ℕ (List Str)) where
  abbrev at_key : ℕ → Option Str
  at_key q = first_supported priority (tier (get q tiers))

  search-none :
      (qs : List ℕ) (r : ℕ)
      → search_tiers priority tiers qs ≡ none
      → contains r qs ≡ true
      → at_key r ≡ none
  unfolding search_tiers
  search-none [] r e c = absurd (cc c)
  search-none (q ∷ qs) r e c = elim (Option-cases (at_key q)) [
    | inr (s, here) ↦ absurd (cc (rw (here, first_some) at e))
    | inl miss ↦ elim (Bool-cases (q == r)) [
      | inl same ↦ subst (λ x. at_key x ≡ none) ((eq_iff q r).0 same) miss
      | inr differs ↦ search-none qs r (rw (miss, first_some) at e) (rw differs at c)
    ]
  ]

  search-some :
      (qs : List ℕ) (s : Str)
      → Descending qs
      → search_tiers priority tiers qs ≡ some s
      → (q : ℕ) × (at_key q ≡ some s) × ((r : ℕ) → contains r qs ≡ true → q < r → at_key r ≡ none)
  unfolding search_tiers
  search-some [] s d e = absurd (cc e)
  search-some (q ∷ qs) s d e = elim (Option-cases (at_key q)) [
    | inr (t, here) ↦ (
      q,
      here ∙ rw (here, first_some) at e,
      λ r c lt. absurd (omega (arith, bounded q r qs c d.0)),
    )
    | inl miss ↦
        let (k, found, above) = search-some qs s d.1 (rw (miss, first_some) at e) in
        (
          k,
          found,
          λ r c lt. elim (Bool-cases (q == r)) [
            | inl same ↦ subst (λ x. at_key x ≡ none) ((eq_iff q r).0 same) miss
            | inr differs ↦ above r (rw differs at c) lt
          ],
        )
  ]

module _ (offers : List MediaTypeOffer) (priority : List Str) where
  abbrev tiers : Dict ℕ (List Str)
  tiers = add_tiers offers []

  tier-accepts : (s : Str) (q : ℕ) → accepts s (tier (get q tiers)) ≡ accepts_at s q offers
  unfolding get
  tier-accepts s q = add_tiers-accepts s q offers []

  missing :
      (s : Str) (r : ℕ) → contains r (sorted_keys tiers) ≡ false → accepts_at s r offers ≡ false
  missing s r absent =
      sym (tier-accepts s r) ∙ nothing (get r tiers) (sym (sorted_keys-contains r tiers) ∙ absent)
    where
      nothing : (o : Option (List Str)) → is_some o ≡ false → accepts s (tier o) ≡ false
      nothing none h = refl
      nothing (some ms) h = absurd (cc h)

  unaccepted :
      (s : Str) (r : ℕ)
      → (contains r (sorted_keys tiers) ≡ true → at_key priority tiers r ≡ none)
      → contains s priority ≡ true
      → accepts_at s r offers ≡ false
  unaccepted s r h c = elim (Bool-cases (contains r (sorted_keys tiers))) [
    | inr absent ↦ missing s r absent
    | inl present ↦
        sym (tier-accepts s r) ∙ first_supported-none priority (tier (get r tiers)) s (h present) c
  ]

  -- A type that some offer of the quality accepts, whereas no offer of a higher quality accepts any
  -- supported type, and none of this quality accepts one that is earlier in the priority list.
  pub record BestType (s : Str) : Type 0 where
    pub quality : ℕ
    pub before : List Str
    pub after : List Str
    pub splits : priority ≡ before ++ s ∷ after
    pub accepted : accepts_at s quality offers ≡ true
    pub none_before : All (λ s'. accepts_at s' quality offers ≡ false) before
    pub none_above :
        (s' : Str) (r : ℕ)
        → contains s' priority ≡ true
        → quality < r
        → accepts_at s' r offers ≡ false

  All-tier :
      (q : ℕ) (ss : List Str)
      → All (λ s'. accepts s' (tier (get q tiers)) ≡ false) ss
      → All (λ s'. accepts_at s' q offers ≡ false) ss
  All-tier q [] h = tt
  All-tier q (s ∷ ss) h = (sym (tier-accepts s q) ∙ h.0, All-tier q ss h.1)

  -- The chosen type is supported, some offer accepts it, no offer of a higher quality accepts any
  -- supported type, and of those that the offers of its quality accept it is the first in the
  -- priority list.
  pub choose-BestType : (s : Str) → choose offers priority ≡ some s → BestType s
  unfolding choose
  choose-BestType s e =
      let (q, found, above) =
        search-some priority tiers (sorted_keys tiers) s (sorted_keys-Descending tiers) e in
      let first = first_supported-Earliest priority (tier (get q tiers)) s found in
      record {
        quality = q;
        before = first.before;
        after = first.after;
        splits = first.splits;
        accepted = sym (tier-accepts s q) ∙ first.accepts_it;
        none_before = All-tier q first.before first.none_before;
        none_above = λ s' r c lt. unaccepted s' r (λ p. above r p lt) c;
      }
