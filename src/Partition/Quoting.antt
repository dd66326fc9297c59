-- ===== src/Partition/Quoting.antt =====
-- Strings and IRIs that arango_sparql/partition.py writes are read back.
use arango_sparql_py.Base.{
  ℕ, ◌≡◌, Bool, true, false, not, ◌&&◌, ap, some, [], ◌∷◌, ◌++◌, refl, arith, inl, inr,
  append_assoc, sym,
}
use arango_sparql_py.Base.Tests.{if◌then◌else◌, ltb, Bool-cases, and-eq-true}
use arango_sparql_py.Base.Eq.{◌==◌, nat_eq, list_eq, eq_iff}
use arango_sparql_py.Base.Lists.{any, all}
use arango_sparql_py.Base.Str.{Str, codes, starts_with, is_space}
use arango_sparql_py.Partition.{replaced, escaped, is_unsafe}
use arango_sparql_py.Partition.Reader.{
  starts_u, has_code_point, unescaped, read_string, in_iri, read_iri, read_run,
}

replaced-append : (x : ℕ) (t a b : Str) → replaced x t (a ++ b) ≡ replaced x t a ++ replaced x t b
unfolding replaced
replaced-append x t [] b = refl
replaced-append x t (c ∷ a) b =
    rw (replaced-append x t a b)
      (sym (append_assoc (if c == x then t else c ∷ []) (replaced x t a) (replaced x t b)))

-- each character escaped on its own
abbrev pub escaped_char : ℕ → Str
escaped_char c =
    if c == 92
    then 92 ∷ 92 ∷ []
    else if c == 34
    then 92 ∷ 34 ∷ []
    else if c == 10
    then 92 ∷ 110 ∷ []
    else if c == 13
    then 92 ∷ 114 ∷ []
    else if c == 9
    then 92 ∷ 116 ∷ []
    else c ∷ []

-- the characters that are escaped, one by one, and the others
by_escape :
    (P : ℕ → Type 0)
    → P 92
    → P 34
    → P 10
    → P 13
    → P 9
    → ((c : ℕ)
        → escaped_char c ≡ c ∷ []
        → (c == 92) ≡ false
        → (c == 34) ≡ false
        → (c == 10) ≡ false
        → (c == 13) ≡ false
        → (c == 9) ≡ false
        → P c)
    → (c : ℕ) → P c
by_escape P p92 p34 p10 p13 p9 h c = elim (Bool-cases (c == 92)) [
  | inl e ↦ rw ((eq_iff c 92).0 e) p92
  | inr n92 ↦ elim (Bool-cases (c == 34)) [
    | inl e ↦ rw ((eq_iff c 34).0 e) p34
    | inr n34 ↦ elim (Bool-cases (c == 10)) [
      | inl e ↦ rw ((eq_iff c 10).0 e) p10
      | inr n10 ↦ elim (Bool-cases (c == 13)) [
        | inl e ↦ rw ((eq_iff c 13).0 e) p13
        | inr n13 ↦ elim (Bool-cases (c == 9)) [
          | inl e ↦ rw ((eq_iff c 9).0 e) p9
          | inr n9 ↦ h c (rw n92 (rw n34 (rw n10 (rw n13 (rw n9 refl))))) n92 n34 n10 n13 n9
        ]
      ]
    ]
  ]
]

escaped-cons : (c : ℕ) (s : Str) → escaped (c ∷ s) ≡ escaped_char c ++ escaped s
unfolding escaped replaced
escaped-cons c s =
    by_escape (λ c. escaped (c ∷ s) ≡ escaped_char c ++ escaped s) refl refl refl refl refl
      (λ c bare n92 n34 n10 n13 n9. rw bare (rw n92 (rw n34 (rw n10 (rw n13 (rw n9 refl)))))) c

read_string-char :
    (c : ℕ) (written s rest : Str)
    → read_string false written ≡ some (s, rest)
    → read_string false (escaped_char c ++ written) ≡ some (c ∷ s, rest)
unfolding read_string unescaped
read_string-char c written s rest h =
    by_escape (λ c. read_string false (escaped_char c ++ written) ≡ some (c ∷ s, rest)) (rw h refl)
      (rw h refl) (rw h refl) (rw h refl) (rw h refl)
      (λ c bare n92 n34 n10 n13 n9. rw bare (rw n92 (rw n34 (rw n10 (rw n13 (rw h refl)))))) c

read_string-nil : (rest : Str) → read_string false (escaped [] ++ 34 ∷ rest) ≡ some ([], rest)
unfolding read_string escaped replaced
read_string-nil rest = refl

pub read_string-escaped :
    (s rest : Str) → read_string false (escaped s ++ 34 ∷ rest) ≡ some (s, rest)
read_string-escaped [] rest = read_string-nil rest
read_string-escaped (c ∷ s) rest =
    rw (escaped-cons c s, append_assoc (escaped_char c) (escaped s) (34 ∷ rest))
      (read_string-char c (escaped s ++ 34 ∷ rest) s rest (read_string-escaped s rest))

-- what a string is written as, with what follows it, starts with no character of its own but those
-- that the string starts with
starts_u-escaped : (s rest : Str) → starts_u s ≡ false → starts_u (escaped s ++ 34 ∷ rest) ≡ false
unfolding escaped replaced
starts_u-escaped [] rest h = refl
starts_u-escaped (c ∷ s) rest h =
    rw (escaped-cons c s, append_assoc (escaped_char c) (escaped s) (34 ∷ rest))
      (by_escape
        (λ c.
          starts_u (c ∷ s) ≡ false → starts_u (escaped_char c ++ (escaped s ++ 34 ∷ rest)) ≡ false)
        (λ _. refl) (λ _. refl) (λ _. refl) (λ _. refl) (λ _. refl)
        (λ c bare n92 n34 n10 n13 n9 h. rw bare h) c h)

pub has_code_point-escaped :
    (s rest : Str)
    → has_code_point s ≡ false
    → has_code_point rest ≡ false
    → has_code_point (escaped s ++ 34 ∷ rest) ≡ false
unfolding has_code_point escaped replaced
has_code_point-escaped [] rest h k = k
has_code_point-escaped (c ∷ s) rest h k =
    let further = has_code_point-escaped s rest (ground (arith, h)) k in
    rw (escaped-cons c s, append_assoc (escaped_char c) (escaped s) (34 ∷ rest))
      (by_escape
        (λ c.
          has_code_point (c ∷ s) ≡ false
          → has_code_point (escaped_char c ++ (escaped s ++ 34 ∷ rest)) ≡ false)
        (λ h. ground (arith, h, further, starts_u-escaped s rest (ground (arith, h))))
        (λ _. further) (λ _. further) (λ _. further) (λ _. further)
        (λ c bare n92 n34 n10 n13 n9 h. rw bare (rw n92 further)) c h)

pub starts_with-escaped :
    (s rest : Str)
    → starts_with rest (codes "\"") ≡ false
    → starts_with (escaped s ++ 34 ∷ rest) (codes "\"\"") ≡ false
unfolding escaped replaced
starts_with-escaped [] rest h = h
starts_with-escaped (c ∷ s) rest h =
    rw (escaped-cons c s, append_assoc (escaped_char c) (escaped s) (34 ∷ rest))
      (by_escape
        (λ c. starts_with (escaped_char c ++ (escaped s ++ 34 ∷ rest)) (codes "\"\"") ≡ false) refl
        refl refl refl refl (λ c bare n92 n34 n10 n13 n9. rw bare (rw n34 refl)) c)

-- no control character, which the code's `\s` does not match all of
abbrev pub is_printable : ℕ → Bool
is_printable c = ltb 31 c

abbrev pub is_safe : Str → Bool
is_safe s = not (any is_unsafe s) && all is_printable s

safe_char :
    (c : ℕ)
    → is_unsafe c ≡ false
    → is_printable c ≡ true
    → (in_iri c ≡ true) × ((c == 62) ≡ false) × ((c == 92) ≡ false)
unfolding is_unsafe in_iri is_space
safe_char c h k = ground (arith, h, k)

pub read_iri-safe : (s rest : Str) → is_safe s ≡ true → read_iri (s ++ 62 ∷ rest) ≡ some (s, rest)
unfolding read_iri
read_iri-safe [] rest h = refl
read_iri-safe (c ∷ s) rest h =
    let ok = safe_char c (ground (arith, h)) (ground (arith, h)) in
    ground (arith, read_iri-safe s rest (ground (arith, h)), ok)

pub has_code_point-safe :
    (s rest : Str)
    → is_safe s ≡ true
    → has_code_point rest ≡ false
    → has_code_point (s ++ rest) ≡ false
unfolding has_code_point
has_code_point-safe [] rest h k = k
has_code_point-safe (c ∷ s) rest h k =
    let ok = safe_char c (ground (arith, h)) (ground (arith, h)) in
    ground (arith, has_code_point-safe s rest (ground (arith, h)) k, ok)

pub has_code_point-clean :
    (p : ℕ → Bool) (s : Str) → p 92 ≡ false → all p s ≡ true → has_code_point s ≡ false
unfolding has_code_point
has_code_point-clean p [] n h = refl
has_code_point-clean p (c ∷ s) n h = elim (Bool-cases (c == 92)) [
  | inl e ↦ absurd (cc (ap p ((eq_iff c 92).0 e), n, (and-eq-true (p c) (all p s) h).0))
  | inr other ↦ rw other (has_code_point-clean p s n (and-eq-true (p c) (all p s) h).1)
]

pub read_run-clean :
    (p : ℕ → Bool) (s : Str) (c : ℕ) (rest : Str)
    → all p s ≡ true
    → p c ≡ false
    → read_run p (s ++ c ∷ rest) ≡ (s, c ∷ rest)
unfolding read_run
read_run-clean p [] c rest h k = rw k refl
read_run-clean p (d ∷ s) c rest h k =
    let (first, after) = and-eq-true (p d) (all p s) h in
    rw (first, read_run-clean p s c rest after k) refl
