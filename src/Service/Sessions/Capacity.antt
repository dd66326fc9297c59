-- ===== src/Service/Sessions/Capacity.antt =====
-- How many sessions there are, and which one has to go (arango_sparql/service/security.py).
use arango_sparql_py.Base.{
  ℕ, zero, suc, ◌≤◌, ◌<◌, ◌≡◌, true, Option, none, some, List, [], ◌∷◌, refl, arith, inl, inr,
  subst, ◌∙◌,
}
use arango_sparql_py.Base.Tests.{leb, ltb, Bool-cases}
use arango_sparql_py.Base.Eq.{◌==◌, nat_eq, list_eq, eq_refl}
use arango_sparql_py.Base.Lists.{length, All}
use arango_sparql_py.Base.Dict.{
  Dict, get, put, remove, get-put_self, length-put-le, length-remove-le,
}
use arango_sparql_py.Base.Str.{Str}
use arango_sparql_py.Service.Sessions.{
  Session, Sessions, popped, pop_all, prune_expired, expired_keys, older, oldest, evict_oldest,
  evict_loop, evict_lru, added, open_session,
}

-- Every session was used at that time or later.
abbrev pub NotLater : ℕ → Dict Str Session → Type 0
NotLater t d = All (λ (e : Str × Session). t ≤ e.1.last_used) d

NotLater-le : (t u : ℕ) (d : Dict Str Session) → t ≤ u → NotLater u d → NotLater t d
NotLater-le t u [] h k = tt
NotLater-le t u (e ∷ d) h k = (omega (arith, h, k.0), NotLater-le t u d h k.1)

older-le :
    (a b : Str × Session)
    → ((older a b).1.last_used ≤ a.1.last_used) × ((older a b).1.last_used ≤ b.1.last_used)
older-le a b = elim (Bool-cases (leb a.1.last_used b.1.last_used)) [
  | inl le ↦ rw le (omega arith, ground arith)
  | inr gt ↦ rw gt (ground arith, omega arith)
]

-- The oldest entry's name is in the dictionary.
abbrev Has : Str → Dict Str Session → Type 0
Has k d = (v : Session) × (get k d ≡ some v)

older-Has :
    (a b : Str × Session) (d : Dict Str Session) → Has a.0 d → Has b.0 d → Has (older a b).0 d
older-Has a b d h k = elim (Bool-cases (leb a.1.last_used b.1.last_used)) [
  | inl le ↦ rw le h
  | inr gt ↦ rw gt k
]

Has-later : (k : Str) (e : Str × Session) (d : Dict Str Session) → Has k d → Has k (e ∷ d)
unfolding get
Has-later k (j, w) d (v, g) = elim (Bool-cases (j == k)) [
  | inl same ↦ (w, rw same refl)
  | inr differs ↦ (v, rw differs g)
]

head_Has : (e : Str × Session) (d : Dict Str Session) → Has e.0 (e ∷ d)
unfolding get
head_Has (k, w) d = (w, rw (eq_refl k) refl)

oldest-Has :
    (first : Str × Session) (d whole : Dict Str Session)
    → Has first.0 whole
    → ((k : Str) → Has k d → Has k whole)
    → Has (oldest first d).0 whole
oldest-Has first [] whole h sub = h
oldest-Has first (e ∷ d) whole h sub =
    oldest-Has (older first e) d whole (older-Has first e whole h (sub e.0 (head_Has e d)))
      (λ k m. sub k (Has-later k e d m))

length-remove-lt : (k : Str) (d : Dict Str Session) → Has k d → length (remove k d) < length d
unfolding get remove
length-remove-lt k [] (v, g) = absurd (cc g)
length-remove-lt k ((j, w) ∷ d) (v, g) = elim (Bool-cases (j == k)) [
  | inl same ↦ rw same (omega (arith, length-remove-le k d))
  | inr differs ↦ rw differs (omega (arith, length-remove-lt k d (v, rw differs at g)))
]

popped-lt :
    (k : Str) (s : Sessions)
    → Has k s.sessions
    → (length (popped k (get k s.sessions) s).sessions < length s.sessions)
      × ((popped k (get k s.sessions) s).max_sessions ≡ s.max_sessions)
popped-lt k s (v, g) = rw (g, popped) (length-remove-lt k s.sessions (v, g), refl)

evict_oldest-lt :
    (d : Dict Str Session) (s : Sessions)
    → d ≡ s.sessions
    → 1 ≤ length d
    → (length (evict_oldest d s).sessions < length s.sessions)
      × ((evict_oldest d s).max_sessions ≡ s.max_sessions)
evict_oldest-lt [] s same h = absurd (omega (arith, h))
evict_oldest-lt (e ∷ d) s same h = popped-lt (oldest e d).0 s (
    subst (Has (oldest e d).0) same
      (oldest-Has e d (e ∷ d) (head_Has e d) (λ k m. Has-later k e d m)))

record Evicted (max_sessions : ℕ) (o : Option Sessions) : Type 0 where
  result : Sessions
  returns : o ≡ some result
  max_kept : result.max_sessions ≡ max_sessions
  room : length result.sessions < max_sessions

-- With fuel for every session the loop ends, and there is room for one more.
evict_loop-Evicted :
    (fuel : ℕ) (s : Sessions)
    → 1 ≤ s.max_sessions
    → length s.sessions ≤ fuel
    → Evicted s.max_sessions (evict_loop fuel s)
unfolding evict_loop
evict_loop-Evicted zero s some_allowed h = record {
  result = s;
  returns = rw (fits s some_allowed h) refl;
  max_kept = refl;
  room = omega (arith, h);
}
  where
    fits :
        (s : Sessions)
        → 1 ≤ s.max_sessions
        → length s.sessions ≤ 0
        → ltb (length s.sessions) s.max_sessions ≡ true
    fits s some_allowed h = ground arith
evict_loop-Evicted (suc fuel) s some_allowed h =
    elim (Bool-cases (ltb (length s.sessions) s.max_sessions)) [
      | inl fits ↦ record {
        result = s;
        returns = rw fits refl;
        max_kept = refl;
        room = ground arith;
      }
      | inr full ↦
          let (lt, same) = evict_oldest-lt s.sessions s refl (ground arith) in
          let e =
            evict_loop-Evicted fuel (evict_oldest s.sessions s) (omega (arith, same))
              (omega (arith, lt)) in
          record {
            result = e.result;
            returns = rw full e.returns;
            max_kept = omega (arith, e.max_kept, same);
            room = omega (arith, e.room, same);
          }
    ]

pop_all-max : (ks : List Str) (s : Sessions) → (pop_all ks s).max_sessions ≡ s.max_sessions
unfolding pop_all
pop_all-max [] s = refl
pop_all-max (k ∷ ks) s = pop_all-max ks (popped k (get k s.sessions) s) ∙ one k (get k s.sessions) s
  where
    one :
        (k : Str) (o : Option Session) (s : Sessions) → (popped k o s).max_sessions ≡ s.max_sessions
    one k none s = refl
    one k (some v) s = refl

-- Opening a session returns, if any session is allowed at all; it leaves at most the allowed number
-- of sessions, the new one among them.
pub open_session-le :
    (token : Str) (v : Session) (now : ℕ) (s : Sessions)
    → 1 ≤ s.max_sessions
    → (s' : Sessions) × (open_session token v now s ≡ some s')
      × (length s'.sessions ≤ s.max_sessions)
      × (get token s'.sessions ≡ some v)
unfolding open_session evict_lru prune_expired
open_session-le token v now s some_allowed =
    let pruned = prune_expired now s in
    let same = pop_all-max (expired_keys s.ttl_seconds now s.sessions) s in
    let e =
      evict_loop-Evicted (length pruned.sessions) pruned (omega (arith, same)) (omega arith) in
    (
      record e.result { sessions = put token v e.result.sessions },
      rw (e.returns, added) refl,
      omega (arith, length-put-le token v e.result.sessions, e.room, same),
      get-put_self token v e.result.sessions,
    )
