-- ===== src/Service/Updates/Comments.antt =====
-- What is left of a body before its leading word is read
-- (arango_sparql/service/protocol/update_detect.py).
use arango_sparql_py.Base.{◌≡◌, true, false, [], ◌∷◌, ◌++◌, refl, ap, ◌∙◌, inl, inr}
use arango_sparql_py.Base.Tests.{Bool-cases}
use arango_sparql_py.Base.Eq.{◌==◌, nat_eq, list_eq}
use arango_sparql_py.Base.Lists.{all, contains}
use arango_sparql_py.Base.Str.{Str}
use arango_sparql_py.Service.Updates.{Inside, advance, slot_at, swap_from, strip_comments}
use arango_sparql_py.Service.Updates.Words.{is_plain, strip_comments-plain}
use Inside.{text, erased}

erased_until :
    (c s : Str) → contains 10 c ≡ false → swap_from erased (c ++ 10 ∷ s) ≡ 10 ∷ swap_from text s
unfolding swap_from advance
erased_until [] s h = refl
erased_until (x ∷ c) s h = elim (Bool-cases (x == 10)) [
  | inl newline ↦ absurd (cc (rw newline at h))
  | inr other ↦ rw other (erased_until c s (rw other at h))
]

comment_start : (s : Str) → strip_comments (35 ∷ s) ≡ swap_from erased s
unfolding strip_comments swap_from advance slot_at
comment_start s = refl

-- After text without quotes, `<` and `#`, a comment goes up to its newline, which stays, and nothing
-- else does; what follows is treated as a text of its own.
pub comment_is_dropped :
    (s c t : Str)
    → all is_plain s ≡ true
    → contains 10 c ≡ false
    → strip_comments (s ++ 35 ∷ (c ++ 10 ∷ t)) ≡ s ++ 10 ∷ strip_comments t
unfolding strip_comments
comment_is_dropped s c t h n =
    strip_comments-plain s (35 ∷ (c ++ 10 ∷ t)) h
    ∙ ap (λ x. s ++ x) (comment_start (c ++ 10 ∷ t) ∙ erased_until c t n)
