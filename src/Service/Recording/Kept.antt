-- ===== src/Service/Recording/Kept.antt =====
-- The questions that a session remembers having generated (arango_sparql/service/recording.py).
use arango_sparql_py.Base.{
  ◌≤◌, ◌≡◌, Bool, true, not, some, List, [], ◌∷◌, ◌++◌, refl, arith, inl, inr,
}
use arango_sparql_py.Base.Tests.{ltb, Bool-cases}
use arango_sparql_py.Base.Eq.{◌==◌, nat_eq, list_eq, eq_refl}
use arango_sparql_py.Base.Lists.{length, contains, keep, any-append}
use arango_sparql_py.Base.Str.{Str}
use arango_sparql_py.Service.Recording.{
  generated_kept, Session, drop_oldest, remembered, remember_in, key_of, remember_generated,
  kept_question,
}

length-drop_oldest-le : (ks : List Str) → length (drop_oldest ks) ≤ generated_kept
unfolding drop_oldest
length-drop_oldest-le [] = omega arith
length-drop_oldest-le (k ∷ ks) = ground (arith, length-drop_oldest-le ks)

contains-drop_oldest :
    (key : Str) (ks : List Str) → contains key (drop_oldest (ks ++ key ∷ [])) ≡ true
unfolding drop_oldest
contains-drop_oldest key [] = ground (arith, eq_refl key)
contains-drop_oldest key (k ∷ ks) =
    elim (Bool-cases (ltb generated_kept (length (k ∷ (ks ++ key ∷ []))))) [
      | inl long ↦ rw long (contains-drop_oldest key ks)
      | inr short ↦
          rw short (ground (arith, any-append (λ (x : Str). x == key) ks (key ∷ []), eq_refl key))
    ]

module _ (digest : Str → Str) where
  -- A session remembers at most sixty-four questions, and always the one it generated last: run
  -- unedited, that query keeps the words that the caller sends with it.
  pub newest_keeps_its_words :
      (question query : Str) (client_words : Bool) (ks : List Str) (s : Session)
      → s.generated ≡ some ks
      → let s' = remember_generated digest question query s in
        (kept_question digest client_words (some question) query s' ≡ some question)
        × ((kept : List Str) × (s'.generated ≡ some kept) × (length kept ≤ generated_kept))
  unfolding remember_generated remembered kept_question
  newest_keeps_its_words question query client_words ks s e =
      let key = key_of digest (some question) query in
      rw (e, remember_in)
        (
          rw (contains-drop_oldest key (keep (λ k. not (k == key)) ks)) (ground arith),
          (
            remembered key ks,
            refl,
            length-drop_oldest-le (keep (λ k. not (k == key)) ks ++ key ∷ []),
          ),
        )
