-- ===== src/Service/Negotiate.antt =====
-- arango_sparql/service/protocol/negotiate.py: which media type answers an `Accept` header. A quality
-- is a number of parts of `one`, which stands for 1.0; `parse_q` is `float`, none for its
-- `ValueError`.

pub mod Keys
pub mod Best
mod Tests
use arango_sparql_py.Base.{
  ℕ, zero, suc, ◌+◌, ◌-◌, ◌≤◌, ◌≡◌, Bool, true, false, not, ◌||◌, ◌&&◌, Option, none, some, List,
  [], ◌∷◌, ◌++◌, refl, map,
}
use arango_sparql_py.Base.Tests.{if◌then◌else◌, ltb, leb}
use arango_sparql_py.Base.Eq.{◌==◌, nat_eq, list_eq}
use arango_sparql_py.Base.Lists.{length, take, drop, any, is_nil}
use arango_sparql_py.Base.Dict.{Dict, get, put}
use arango_sparql_py.Base.Numbers.{ℤ, pos, negsuc}
use arango_sparql_py.Base.Str.{Str, codes, strip, lower_char}

pub data QueryForm : Type 0 where
  select ask construct describe : QueryForm

abbrev pub select_priority : List Str
select_priority = map codes (
    "application/sparql-results+json" ∷ "application/sparql-results+xml" ∷ "text/csv"
    ∷ "text/tab-separated-values" ∷ [])

abbrev pub construct_priority : List Str
construct_priority =
    map codes
      ("text/turtle" ∷ "application/n-triples" ∷ "application/rdf+xml" ∷ "application/ld+json" ∷ [])

abbrev pub priority_for_form : QueryForm → List Str
priority_for_form construct = construct_priority
priority_for_form describe = construct_priority
priority_for_form ask = select_priority
priority_for_form select = select_priority

pub record MediaTypeOffer : Type 0 where
  pub media_type : Str
  pub q : ℕ

-- `s.split(sep)`
abbrev pub onto_first : ℕ → List Str → List Str
onto_first c [] = (c ∷ []) ∷ []
onto_first c (s ∷ ss) = (c ∷ s) ∷ ss

unfoldable pub split_on : ℕ → Str → List Str
split_on sep [] = [] ∷ []
split_on sep (c ∷ s) =
    let rest = split_on sep s in if c == sep then [] ∷ rest else onto_first c rest

-- `s.partition(sep)` without the separator
unfoldable pub partition : ℕ → Str → Str × Str
partition sep [] = ([], [])
partition sep (c ∷ s) =
    let rest = partition sep s in if c == sep then ([], s) else (c ∷ rest.0, rest.1)

abbrev pub lower : Str → Str
lower = map lower_char

module _ (one : ℕ) (parse_q : Str → Option ℤ) where
  -- `max(0.0, min(1.0, q))`, 1.0 for a malformed one
  abbrev pub clamped : Option ℤ → ℕ
  clamped none = one
  clamped (some (pos n)) = if ltb n one then n else one
  clamped (some (negsuc n)) = 0

  -- whether `_PARAM_RE` finds in a piece between semicolons the key `q` with a value
  abbrev pub is_quality : Str × Str → Bool
  is_quality (key, value) = lower (strip key) == codes "q" && not (is_nil value)

  unfoldable pub quality_of : List Str → ℕ
  quality_of [] = one
  quality_of (piece ∷ pieces) =
      let rest = quality_of pieces in
      if is_quality (partition 61 piece)
      then clamped (parse_q (strip (partition 61 piece).1))
      else rest

  abbrev pub with_offer : Str → ℕ → List MediaTypeOffer → List MediaTypeOffer
  with_offer media_type q offers =
      if is_nil media_type || q == 0
      then offers
      else record { media_type = media_type; q = q } ∷ offers

  -- the loop over the parts between commas
  unfoldable pub parse_offers : List Str → List MediaTypeOffer
  parse_offers [] = []
  parse_offers (raw ∷ raws) =
      let (head, params) = partition 59 (strip raw) in
      with_offer (lower (strip head)) (quality_of (split_on 59 params)) (parse_offers raws)

  -- the stable sort by descending quality
  unfoldable pub insert_offer : MediaTypeOffer → List MediaTypeOffer → List MediaTypeOffer
  insert_offer o [] = o ∷ []
  insert_offer o (p ∷ ps) =
      let rest = insert_offer o ps in if leb p.q o.q then o ∷ p ∷ ps else p ∷ rest

  unfoldable pub sort_offers : List MediaTypeOffer → List MediaTypeOffer
  sort_offers [] = []
  sort_offers (o ∷ os) = insert_offer o (sort_offers os)

  abbrev pub or_anything : List MediaTypeOffer → List MediaTypeOffer
  or_anything [] = record { media_type = codes "*/*"; q = one } ∷ []
  or_anything (o ∷ os) = o ∷ os

  unfoldable pub parse_accept_header : Option Str → List MediaTypeOffer
  parse_accept_header none = or_anything []
  parse_accept_header (some accept) = or_anything (sort_offers (parse_offers (split_on 44 accept)))

abbrev pub ends_with_star : Str → Bool
ends_with_star [] = false
ends_with_star (c ∷ []) = false
ends_with_star (c ∷ (d ∷ [])) = c == 47 && d == 42
ends_with_star (c ∷ (d ∷ (e ∷ s))) = ends_with_star (d ∷ e ∷ s)

-- `_matches`
unfoldable pub matches : Str → Str → Bool
matches offer supported =
    offer == codes "*/*"
    || offer == supported
    || (ends_with_star offer && take (length offer - 2) offer == (partition 47 supported).0)

-- the offers of each quality
abbrev pub tier : Option (List Str) → List Str
tier none = []
tier (some ms) = ms

unfoldable pub add_tiers : List MediaTypeOffer → Dict ℕ (List Str) → Dict ℕ (List Str)
add_tiers [] tiers = tiers
add_tiers (o ∷ os) tiers = add_tiers os (put o.q (tier (get o.q tiers) ++ o.media_type ∷ []) tiers)

-- `sorted(tiers, reverse=True)`
unfoldable pub insert_key : ℕ → List ℕ → List ℕ
insert_key q [] = q ∷ []
insert_key q (r ∷ rs) = let rest = insert_key q rs in if leb r q then q ∷ r ∷ rs else r ∷ rest

unfoldable pub sorted_keys : Dict ℕ (List Str) → List ℕ
sorted_keys [] = []
sorted_keys ((q, ms) ∷ tiers) = insert_key q (sorted_keys tiers)

abbrev pub accepts : Str → List Str → Bool
accepts supported ms = any (λ m. matches m supported) ms

unfoldable pub first_supported : List Str → List Str → Option Str
first_supported [] ms = none
first_supported (supported ∷ priority) ms =
    let rest = first_supported priority ms in if accepts supported ms then some supported else rest

abbrev pub first_some : Option Str → Option Str → Option Str
first_some (some s) o = some s
first_some none o = o

unfoldable pub search_tiers : List Str → Dict ℕ (List Str) → List ℕ → Option Str
search_tiers priority tiers [] = none
search_tiers priority tiers (q ∷ qs) =
    first_some (first_supported priority (tier (get q tiers))) (search_tiers priority tiers qs)

-- the choice of `negotiate_media_type` among the offers
unfoldable pub choose : List MediaTypeOffer → List Str → Option Str
choose offers priority =
    let tiers = add_tiers offers [] in search_tiers priority tiers (sorted_keys tiers)

unfoldable pub negotiate_media_type :
    ℕ → (Str → Option ℤ) → Option Str → QueryForm → Option Str × List MediaTypeOffer
negotiate_media_type one parse_q accept form =
    let offers = parse_accept_header one parse_q accept in
    (choose offers (priority_for_form form), offers)
