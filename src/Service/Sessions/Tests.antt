-- ===== src/Service/Sessions/Tests.antt =====
-- The theorems on sessions (arango_sparql/service/security.py) at two sessions, one of the platform.
use arango_sparql_py.Base.{ℕ, ◌≤◌, ◌≡◌, true, Option, none, some, [], ◌∷◌, ◌++◌, refl, arith}
use arango_sparql_py.Base.Eq.{nat_eq, list_eq}
use arango_sparql_py.Base.Lists.{length}
use arango_sparql_py.Base.Dict.{get, put, remove}
use arango_sparql_py.Base.Str.{Str, codes, chars, strip}
use arango_sparql_py.Service.Sessions.{
  Session, Sessions, open_session, prune_expired, pop_all, Request, Refusal, Answer, get_session,
  forwarded_token, follow_platform_identity,
}
use Answer.{refused}
use arango_sparql_py.Service.Sessions.Access.{Served, get_session-Served}
use arango_sparql_py.Service.Sessions.Capacity.{open_session-le}

abbrev plain : Session
plain = record { db = 1; client = 10; last_used = 5; platform_token = none }

abbrev platform : Session
platform = record { db = 2; client = 20; last_used = 3; platform_token = some (codes "jwt1") }

abbrev two : Sessions
two = record {
  ttl_seconds = 60;
  max_sessions = 2;
  sessions = (codes "a", plain) ∷ (codes "b", platform) ∷ [];
  closed = [];
}

abbrev with_jwt : Str → Request
with_jwt jwt = record { session_header = codes "b"; authorization = codes "Bearer " ++ jwt }

abbrev reopen : ℕ → ℕ → Str → Option ℕ
reopen client db token = some 3

abbrev renewed : Session
renewed = record { db = 3; client = 20; last_used = 9; platform_token = some (codes "jwt2") }

-- A platform session without a forwarded token is refused; an expired one is closed.
refused_test :
    ((get_session reopen (record { session_header = codes "b"; authorization = [] }) 9 two).0
      ≡ refused Refusal.platform_token_missing)
    × ((get_session reopen (with_jwt (codes "jwt2")) 60000004 two).1.closed ≡ 20 ∷ [])
unfolding get_session prune_expired pop_all follow_platform_identity forwarded_token strip get put
    remove chars
refused_test = (refl, refl)

get_session-Served_example :
    Served reopen
      (with_jwt (codes "jwt2"))
      (codes "b")
      true
      9
      two
      (get_session reopen (with_jwt (codes "jwt2")) 9 two).1
      renewed
unfolding get_session prune_expired pop_all follow_platform_identity forwarded_token strip get put
    remove chars
get_session-Served_example = get_session-Served reopen (with_jwt (codes "jwt2")) 9 two renewed refl

open_session-le_example :
    (s' : Sessions) × (open_session (codes "c") plain 9 two ≡ some s')
    × (length s'.sessions ≤ two.max_sessions)
    × (get (codes "c") s'.sessions ≡ some plain)
open_session-le_example = open_session-le (codes "c") plain 9 two (omega arith)
