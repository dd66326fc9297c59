-- ===== src/Service/Updates/Words.antt =====
-- The letters of a leading word, as arango_sparql/service/protocol/update_detect.py passes over it.
use arango_sparql_py.Base.{
  ℕ, ◌≡◌, Bool, true, false, not, ◌||◌, ◌&&◌, none, [], ◌∷◌, ◌++◌, refl, ap, map, arith, inl, inr,
  ◌⊎◌,
}
use arango_sparql_py.Base.Tests.{and-eq-true}
use arango_sparql_py.Base.Eq.{◌==◌, nat_eq, list_eq}
use arango_sparql_py.Base.Lists.{all}
use arango_sparql_py.Base.Str.{Str, between, is_space, lstrip, lower_char, upper_char}
use arango_sparql_py.Service.Updates.{
  update_keywords, slot_at, Inside, advance, swap_from, strip_comments, fold, match_word,
  match_prologue, first_token, upper,
}
use Inside.{text}

abbrev pub is_plain : ℕ → Bool
is_plain c = not (c == 60) && not (c == 34) && not (c == 39) && not (c == 35)

plain-advance : (c : ℕ) (s : Str) → is_plain c ≡ true → advance text c s ≡ (false, text)
unfolding advance slot_at
plain-advance c s h =
    let rest : (c == 60) ≡ false = ground arith in
    let quotes : (c == 34 || c == 39) ≡ false = ground arith in
    let hash : (c == 35) ≡ false = ground arith in rw rest (rw quotes (rw hash refl))

-- Characters that open no slot and no comment stay.
pub strip_comments-plain :
    (kw s : Str) → all is_plain kw ≡ true → strip_comments (kw ++ s) ≡ kw ++ strip_comments s
unfolding strip_comments swap_from
strip_comments-plain [] s h = refl
strip_comments-plain (c ∷ kw) s h =
    let (plain, rest) = and-eq-true (is_plain c) (all is_plain kw) h in
    rw (plain-advance c (kw ++ s) plain) (ap (λ x. c ∷ x) (strip_comments-plain kw s rest))

-- A letter of a keyword, and a keyword as a whole.
abbrev pub capital : ℕ → Bool
capital = between 65 90

abbrev pub no_prologue_start : Str → Bool
no_prologue_start [] = false
no_prologue_start (c ∷ s) = not (c == 66) && not (c == 80) && not (c == 87)

abbrev pub fits : Str → Bool
fits w = all capital w && no_prologue_start w

pub keywords-fit : all fits update_keywords ≡ true
keywords-fit = refl

letter_cases :
    (c : ℕ)
    → capital (upper c) ≡ true
    → (between 97 122 c ≡ true) ⊎ ((between 65 90 c ≡ true) ⊎ ((c ≡ 0x131) ⊎ (c ≡ 0x17f)))
unfolding upper_char
letter_cases c h = ground arith

pub letter-plain : (c : ℕ) → capital (upper c) ≡ true → is_plain c ≡ true
letter-plain c h = elim (letter_cases c h) [
  | inl small ↦ ground (arith, small)
  | inr (inl big) ↦ ground (arith, big)
  | inr (inr (inl dotless)) ↦ ground (arith, dotless)
  | inr (inr (inr long)) ↦ ground (arith, long)
]

pub letter-no_space : (c : ℕ) → capital (upper c) ≡ true → is_space c ≡ false
unfolding is_space
letter-no_space c h = elim (letter_cases c h) [
  | inl small ↦ ground (arith, small)
  | inr (inl big) ↦ ground (arith, big)
  | inr (inr (inl dotless)) ↦ rw dotless refl
  | inr (inr (inr long)) ↦ rw long refl
]

abbrev pub all_capital : Str → Bool
all_capital kw = all capital (map upper kw)

pub all-plain : (kw : Str) → all_capital kw ≡ true → all is_plain kw ≡ true
all-plain [] h = refl
all-plain (c ∷ kw) h =
    let (first, rest) = and-eq-true (capital (upper c)) (all_capital kw) h in
    rw (letter-plain c first) (all-plain kw rest)

pub first_token-word :
    (kw : Str) (c : ℕ) (s : Str)
    → all_capital kw ≡ true
    → is_space c ≡ true
    → first_token (kw ++ c ∷ s) ≡ kw
unfolding first_token
first_token-word [] c s h space = rw space refl
first_token-word (k ∷ kw) c s h space =
    let (first, rest) = and-eq-true (capital (upper k)) (all_capital kw) h in
    rw (letter-no_space k first) (ap (λ x. k ∷ x) (first_token-word kw c s rest space))

pub no_prologue :
    (k : ℕ) (s : Str)
    → is_space k ≡ false
    → (fold k == 98) ≡ false
    → (fold k == 112) ≡ false
    → match_prologue (k ∷ s) ≡ none
unfolding match_prologue match_word lstrip lower_char
no_prologue k s space base prefix = rw space (rw base (rw prefix refl))

pub letter-fold :
    (c : ℕ)
    → capital (upper c) ≡ true
    → (upper c == 66) ≡ false
    → (upper c == 80) ≡ false
    → ((fold c == 98) ≡ false) × ((fold c == 112) ≡ false)
unfolding upper_char lower_char
letter-fold c h b p = elim (letter_cases c h) [
  | inl small ↦ (ground (arith, small), ground (arith, small))
  | inr (inl big) ↦ (ground (arith, big), ground (arith, big))
  | inr (inr (inl dotless)) ↦ (rw dotless refl, rw dotless refl)
  | inr (inr (inr long)) ↦ (rw long refl, rw long refl)
]
