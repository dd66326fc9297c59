-- ===== src/Service/Sessions.antt =====
-- The sessions of arango_sparql/service/security.py, outside the control-plane mode. Times are
-- microseconds. Clients and database handles are numbers; `closed` lists the clients that were
-- closed. Opening a database with a platform token is a parameter.

pub mod Access
pub mod Capacity
mod Tests
use arango_sparql_py.Base.{
  ℕ, zero, suc, ◌+◌, ◌-◌, ◌*◌, ◌≤◌, ◌≡◌, Bool, true, false, not, ◌||◌, ◌&&◌, Option, none, some,
  List, [], ◌∷◌, ◌++◌, refl, map,
}
use arango_sparql_py.Base.Tests.{if◌then◌else◌, leb, ltb}
use arango_sparql_py.Base.Eq.{◌==◌, nat_eq, list_eq}
use arango_sparql_py.Base.Lists.{length, take, drop, is_nil, keep}
use arango_sparql_py.Base.Dict.{Dict, get, put, remove}
use arango_sparql_py.Base.Str.{Str, codes, starts_with, lower_char, strip}

pub record Session : Type 0 where
  pub db : ℕ
  pub client : ℕ
  pub last_used : ℕ
  pub platform_token : Option Str

pub record Sessions : Type 0 where
  pub ttl_seconds : ℕ
  pub max_sessions : ℕ
  pub sessions : Dict Str Session
  pub closed : List ℕ

-- `(time.time() - self.last_used) > ttl`
abbrev pub expired : ℕ → ℕ → Session → Bool
expired ttl_seconds now v = ltb (v.last_used + ttl_seconds * 1000000) now

-- `[k for k, v in _sessions.items() if v.expired]`
abbrev pub expired_keys : ℕ → ℕ → Dict Str Session → List Str
expired_keys ttl_seconds now [] = []
expired_keys ttl_seconds now ((k, v) ∷ d) =
    let rest = expired_keys ttl_seconds now d in
    if expired ttl_seconds now v then k ∷ rest else rest

-- `s = _sessions.pop(k, None)`, then `s.client.close()` if there was one
abbrev pub popped : Str → Option Session → Sessions → Sessions
popped k none s = s
popped k (some v) s = record s {
  sessions = remove k s.sessions;
  closed = s.closed ++ v.client ∷ [];
}

unfoldable pub pop_all : List Str → Sessions → Sessions
pop_all [] s = s
pop_all (k ∷ ks) s = pop_all ks (popped k (get k s.sessions) s)

unfoldable pub prune_expired : ℕ → Sessions → Sessions
unfolding pop_all
prune_expired now s = pop_all (expired_keys s.ttl_seconds now s.sessions) s

-- `min(_sessions, key=last_used)`: the first of the least recently used
abbrev pub older : Str × Session → Str × Session → Str × Session
older a b = if leb a.1.last_used b.1.last_used then a else b

abbrev pub oldest : Str × Session → Dict Str Session → Str × Session
oldest first [] = first
oldest first (e ∷ d) = oldest (older first e) d

abbrev pub evict_oldest : Dict Str Session → Sessions → Sessions
evict_oldest [] s = s
evict_oldest (e ∷ d) s = let (key, v) = oldest e d in popped key (get key s.sessions) s

-- The loop of `_evict_lru`, on fuel; `none` is the `ValueError` of `min` of nothing, when no session
-- at all is allowed.
unfoldable pub evict_loop : ℕ → Sessions → Option Sessions
evict_loop zero s = if ltb (length s.sessions) s.max_sessions then some s else none
evict_loop (suc fuel) s =
    let rest = evict_loop fuel (evict_oldest s.sessions s) in
    if ltb (length s.sessions) s.max_sessions then some s else rest

unfoldable pub evict_lru : ℕ → Sessions → Option Sessions
unfolding prune_expired evict_loop
evict_lru now s = let s' = prune_expired now s in evict_loop (length s'.sessions) s'

abbrev pub added : Str → Session → Option Sessions → Option Sessions
added token v none = none
added token v (some s) = some (record s { sessions = put token v s.sessions })

-- `_evict_lru()` and `_sessions[token] = _Session(…)` of the two connect routes
unfoldable pub open_session : Str → Session → ℕ → Sessions → Option Sessions
open_session token v now s = added token v (evict_lru now s)

pub record Request : Type 0 where
  pub session_header : Str
  pub authorization : Str

abbrev pub non_empty : Str → Option Str
non_empty [] = none
non_empty (c ∷ s) = some (c ∷ s)

-- `forwarded_token` of platform_auth.py
unfoldable pub forwarded_token : Request → Option Str
unfolding strip
forwarded_token request =
    if map lower_char (take 7 request.authorization) == codes "bearer "
    then non_empty (strip (drop 7 request.authorization))
    else none

-- the session token of a request, and whether it came in the session's own header
abbrev pub bearer_token : Request → Str
bearer_token request =
    if starts_with request.authorization (codes "Bearer ") then drop 7 request.authorization else []

abbrev pub session_token : Request → Str × Bool
session_token request =
    if is_nil request.session_header
    then (bearer_token request, false)
    else (request.session_header, true)

-- why a request is refused, with the status 401
pub data Refusal : Type 0 where
  missing_token invalid_session platform_token_missing platform_token_rejected : Refusal

pub data Answer : Type 0 where
  granted : Session → Answer
  refused : Refusal → Answer

-- the platform token of a request whose session token came in the session's own header
abbrev pub carried : Request → Bool → Option Str
carried request true = forwarded_token request
carried request false = none

module _ (open_platform_database : ℕ → ℕ → Str → Option ℕ) where
  -- `_follow_platform_identity`: the session with its handle re-bound, or why it is refused
  abbrev pub rebound : Session → Str → Option ℕ → Answer
  rebound v token none = refused platform_token_rejected
  rebound v token (some db) = granted (record v { db = db; platform_token = some token })

  abbrev pub follow_with : Session → Str → Option Str → Answer
  follow_with v stored none = refused platform_token_missing
  follow_with v stored (some token) =
      if token == stored
      then granted v
      else rebound v token (open_platform_database v.client v.db token)

  abbrev pub follow_stored : Session → Request → Bool → Option Str → Answer
  follow_stored v request via_header none = granted v
  follow_stored v request via_header (some stored) =
      follow_with v stored (carried request via_header)

  unfoldable pub follow_platform_identity : Session → Request → Bool → Answer
  follow_platform_identity v request via_header =
      follow_stored v request via_header v.platform_token

  -- the end of `_get_session`: the session is touched
  abbrev pub touched : Str → ℕ → Answer → Sessions → Answer × Sessions
  touched token now (refused r) s = (refused r, s)
  touched token now (granted v) s =
      let v' = record v { last_used = now } in
      (granted v', record s { sessions = put token v' s.sessions })

  abbrev pub found : Str → Bool → Request → ℕ → Option Session → Sessions → Answer × Sessions
  found token via_header request now none s = (refused invalid_session, s)
  found token via_header request now (some v) s =
      if expired s.ttl_seconds now v
      then (refused invalid_session, popped token (some v) s)
      else touched token now (follow_platform_identity v request via_header) s

  abbrev pub looked_up : Str → Bool → Request → ℕ → Sessions → Answer × Sessions
  looked_up token via_header request now s =
      if is_nil token
      then (refused missing_token, s)
      else found token via_header request now (get token s.sessions) s

  unfoldable pub get_session : Request → ℕ → Sessions → Answer × Sessions
  get_session request now s =
      let (token, via_header) = session_token request in
      looked_up token via_header request now (prune_expired now s)

  abbrev pub as_option : Answer → Option Session
  as_option (granted v) = some v
  as_option (refused r) = none

  -- `_get_optional_session` takes the same steps and returns `None` for each refusal.
  unfoldable pub get_optional_session : Request → ℕ → Sessions → Option Session × Sessions
  get_optional_session request now s =
      let (answer, s') = get_session request now s in (as_option answer, s')
