-- ===== src/Service/Limit/Tests.antt =====
-- The theorems on the rate limiter (arango_sparql/service/security.py) at a capacity of two.
use arango_sparql_py.Base.{◌+◌, ◌*◌, ◌≤◌, ◌≡◌, true, [], ◌∷◌, refl, arith}
use arango_sparql_py.Base.Eq.{nat_eq, list_eq}
use arango_sparql_py.Base.Dict.{get, put}
use arango_sparql_py.Base.Str.{Str, codes}
use arango_sparql_py.Service.Limit.{one_token, new_bucket, allow, calls, sum}
use arango_sparql_py.Service.Limit.Rate.{calls_within_rate, allow_after_wait}

abbrev client : Str
client = codes "anon"

calls_test : (calls client 5 (0 ∷ 0 ∷ 0 ∷ 30000000 ∷ []) (new_bucket 2)).0 ≡ 3
unfolding calls get put
calls_test = refl

calls_within_rate_example :
    (calls client 5 (0 ∷ 0 ∷ 0 ∷ 30000000 ∷ []) (new_bucket 2)).0 * one_token
    ≤ 2 * one_token + sum (0 ∷ 0 ∷ 30000000 ∷ []) * 2
unfolding get
calls_within_rate_example =
    calls_within_rate client 5 (0 ∷ 0 ∷ 30000000 ∷ []) (new_bucket 2) refl refl

allow_after_wait_example : (allow client (5 + 30000000) (allow client 5 (new_bucket 2)).1).0 ≡ true
unfolding get
allow_after_wait_example =
    allow_after_wait client 5 30000000 (new_bucket 2) (omega arith) (omega arith) refl
