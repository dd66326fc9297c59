-- ===== src/Service/Negotiate/Tests.antt =====
-- The theorems on content negotiation (arango_sparql/service/protocol/negotiate.py).
use arango_sparql_py.Base.{ℕ, ◌≡◌, Option, none, some, List, [], ◌∷◌, refl}
use arango_sparql_py.Base.Numbers.{ℤ, pos}
use arango_sparql_py.Base.Dict.{get, put}
use arango_sparql_py.Base.Str.{Str, codes, chars, lstrip, strip, value}
use arango_sparql_py.Service.Negotiate.{
  QueryForm, MediaTypeOffer, select_priority, split_on, partition, quality_of, parse_offers,
  insert_offer, sort_offers, parse_accept_header, matches, add_tiers, insert_key, sorted_keys,
  first_supported, search_tiers, choose, negotiate_media_type,
}
use QueryForm.{select}
use arango_sparql_py.Service.Negotiate.Best.{BestType, choose-BestType}

unfoldable running : Unit {0}
unfolding split_on partition quality_of parse_offers insert_offer sort_offers parse_accept_header
    matches add_tiers insert_key sorted_keys first_supported search_tiers choose
    negotiate_media_type get put chars lstrip strip
running = tt

-- qualities of one digit, as tenths after `0.`
abbrev tenths : Str → Option ℤ
tenths (a ∷ (b ∷ (c ∷ []))) = some (pos (value 0 (c ∷ [])))
tenths s = none

negotiate_tests :
    ((negotiate_media_type 10 tenths
        (some (codes "text/csv;q=0.5, application/*;q=0.9, x/y"))
        select).0
      ≡ some (codes "application/sparql-results+json"))
    × ((negotiate_media_type 10 tenths (some (codes "text/html")) select).0 ≡ none)
    × ((negotiate_media_type 10 tenths (some (codes "*/*;q=0.0")) select).0
        ≡ some (codes "application/sparql-results+json"))
unfolding running value
negotiate_tests = (refl, refl, refl)

abbrev offer : Str → ℕ → MediaTypeOffer
offer media_type q = record { media_type = media_type; q = q }

abbrev two_offers : List MediaTypeOffer
two_offers = offer (codes "text/csv") 9 ∷ offer (codes "*/*") 5 ∷ []

choose-BestType_example : BestType two_offers select_priority (codes "text/csv")
unfolding running
choose-BestType_example = choose-BestType two_offers select_priority (codes "text/csv") refl
