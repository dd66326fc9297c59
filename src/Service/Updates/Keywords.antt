-- ===== src/Service/Updates/Keywords.antt =====
-- Which leading words arango_sparql/service/protocol/update_detect.py takes for an Update.
use arango_sparql_py.Base.{
  ℕ, ◌≡◌, Bool, true, false, none, [], ◌∷◌, ◌++◌, refl, ap, ◌∙◌, map, arith, inl, inr,
}
use arango_sparql_py.Base.Tests.{Bool-cases, and-eq-true}
use arango_sparql_py.Base.Eq.{◌==◌, nat_eq, list_eq}
use arango_sparql_py.Base.Lists.{length, contains, all_of_contains}
use arango_sparql_py.Base.Str.{Str, is_space, lstrip, upper_char}
use arango_sparql_py.Service.Updates.{
  update_keywords, strip_comments, match_prologue, strip_prologue, at_least_one,
  strip_prologue_and_comments, first_token, upper, is_sparql_update,
}
use arango_sparql_py.Service.Updates.Words.{
  is_plain, strip_comments-plain, capital, no_prologue_start, fits, keywords-fit, letter-plain,
  letter-no_space, all_capital, all-plain, first_token-word, no_prologue, letter-fold,
}

-- A body that starts with a letter other than B and P has no prologue: only its comments go.
body_is :
    (k : ℕ) (s : Str)
    → capital (upper k) ≡ true
    → (upper k == 66) ≡ false
    → (upper k == 80) ≡ false
    → strip_prologue_and_comments (k ∷ s) ≡ k ∷ strip_comments s
unfolding strip_prologue_and_comments strip_prologue lstrip
body_is k s h b p =
    let (base, prefix) = letter-fold k h b p in
    let space = letter-no_space k h in
    rw (strip_comments-plain (k ∷ []) s (rw (letter-plain k h) refl))
      (kept k (strip_comments s) space (no_prologue k (strip_comments s) space base prefix))
  where
    kept :
        (k : ℕ) (s : Str)
        → is_space k ≡ false
        → match_prologue (k ∷ s) ≡ none
        → lstrip (strip_prologue (at_least_one (length (k ∷ s))) (k ∷ s)) ≡ k ∷ s
    kept k s space none_found = rw (none_found, strip_prologue) (rw (space, lstrip) refl)

-- What being a keyword says of a word, its case ignored.
abbrev is_keyword : Str → Bool
is_keyword kw = contains (map upper kw) update_keywords

keyword-fits : (kw : Str) → is_keyword kw ≡ true → fits (map upper kw) ≡ true
keyword-fits kw h = all_of_contains fits (map upper kw) update_keywords keywords-fit h

-- The parts of a keyword's first letter that the proofs below ask for.
record Starts (k : ℕ) (kw : Str) : Type 0 where
  letters : all_capital (k ∷ kw) ≡ true
  first : capital (upper k) ≡ true
  others : all_capital kw ≡ true
  no_b : (upper k == 66) ≡ false
  no_p : (upper k == 80) ≡ false
  no_w : (upper k == 87) ≡ false

keyword-Starts : (k : ℕ) (kw : Str) → is_keyword (k ∷ kw) ≡ true → Starts k kw
keyword-Starts k kw h =
    let (letters, start) =
      and-eq-true (all_capital (k ∷ kw)) (no_prologue_start (map upper (k ∷ kw)))
        (keyword-fits (k ∷ kw) h) in
    let (first, others) = and-eq-true (capital (upper k)) (all_capital kw) letters in
    record {
      letters = letters;
      first = first;
      others = others;
      no_b = ground (arith, start);
      no_p = ground (arith, start);
      no_w = ground (arith, start);
    }

opened :
    (k : ℕ) (kw rest : Str) (c : ℕ)
    → Starts k kw
    → is_plain c ≡ true
    → strip_prologue_and_comments (k ∷ (kw ++ c ∷ rest)) ≡ k ∷ (kw ++ c ∷ strip_comments rest)
opened k kw rest c h plain =
    body_is k (kw ++ c ∷ rest) h.first h.no_b h.no_p
    ∙ ap (λ x. k ∷ x)
        (strip_comments-plain kw (c ∷ rest) (all-plain kw h.others)
          ∙ ap (λ x. kw ++ x) (strip_comments-plain (c ∷ []) rest (rw plain refl)))

space-plain : (c : ℕ) → is_space c ≡ true → is_plain c ≡ true
unfolding is_space
space-plain c h = ground arith

first_token-brace :
    (kw s : Str) → all_capital kw ≡ true → first_token (kw ++ 123 ∷ s) ≡ kw ++ 123 ∷ first_token s
unfolding first_token is_space
first_token-brace [] s h = refl
first_token-brace (k ∷ kw) s h =
    let (first, rest) = and-eq-true (capital (upper k)) (all_capital kw) h in
    rw (letter-no_space k first) (ap (λ x. k ∷ x) (first_token-brace kw s rest))

with_brace : (kw s : Str) → all_capital (kw ++ 123 ∷ s) ≡ false
unfolding upper_char
with_brace [] s = refl
with_brace (k ∷ kw) s = ground (arith, with_brace kw s)

not_keyword : (kw : Str) → all_capital kw ≡ false → contains (map upper kw) update_keywords ≡ false
not_keyword kw h = elim (Bool-cases (contains (map upper kw) update_keywords)) [
  | inr no_match ↦ no_match
  | inl match ↦ absurd (
      cc (
        h,
        (and-eq-true (all_capital kw) (no_prologue_start (map upper kw)) (keyword-fits kw match)).0,
      ))
]

module _ (word_high : ℕ → Bool) where
  -- A body that starts with an Update keyword, in whatever case, and then a space is an Update.
  pub keyword_is_detected :
      (kw rest : Str) (c : ℕ)
      → contains (map upper kw) update_keywords ≡ true
      → is_space c ≡ true
      → is_sparql_update word_high (kw ++ c ∷ rest) ≡ true
  unfolding is_sparql_update
  keyword_is_detected [] rest c h space = absurd (cc h)
  keyword_is_detected (k ∷ kw) rest c h space =
      let p = keyword-Starts k kw h in
      rw (opened k kw rest c p (space-plain c space))
        (rw (first_token-word (k ∷ kw) c (strip_comments rest) p.letters space) (rw p.no_w h))
