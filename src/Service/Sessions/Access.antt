-- ===== src/Service/Sessions/Access.antt =====
-- Whom a session serves (arango_sparql/service/security.py).
use arango_sparql_py.Base.{
  ◌⊎◌, ◌≢◌, ℕ, ◌≡◌, Bool, true, false, Option, none, some, List, [], ◌∷◌, refl, sym, ◌∙◌, subst,
  arith, inl, inr,
}
use arango_sparql_py.Base.Tests.{if◌then◌else◌, Bool-cases, Option-cases}
use arango_sparql_py.Base.Eq.{◌==◌, nat_eq, list_eq, eq_iff}
use arango_sparql_py.Base.Lists.{is_nil, contains}
use arango_sparql_py.Base.Dict.{Dict, get, get-put_self, get-remove}
use arango_sparql_py.Base.Str.{Str}
use arango_sparql_py.Service.Sessions.{
  Session, Sessions, expired, expired_keys, popped, pop_all, prune_expired, Request,
  forwarded_token, session_token, Answer, rebound, follow_with, carried, follow_stored,
  follow_platform_identity, touched, found, get_session,
}
use Answer.{granted, refused}

get-popped :
    (k j : Str) (o : Option Session) (s : Sessions)
    → get k s.sessions ≡ o
    → get j (popped k o s).sessions ≡ (if k == j then none else get j s.sessions)
get-popped k j none s e = ground (arith, eq_iff k j, e)
get-popped k j (some v) s e = get-remove k j s.sessions

get-pop_all :
    (ks : List Str) (j : Str) (s : Sessions)
    → get j (pop_all ks s).sessions ≡ (if contains j ks then none else get j s.sessions)
unfolding pop_all
get-pop_all [] j s = refl
get-pop_all (k ∷ ks) j s = ground (
  arith,
  get-pop_all ks j (popped k (get k s.sessions) s),
  get-popped k j (get k s.sessions) s refl,
)

expired_keys-has :
    (ttl now : ℕ) (k : Str) (v : Session) (d : Dict Str Session)
    → get k d ≡ some v
    → expired ttl now v ≡ true
    → contains k (expired_keys ttl now d) ≡ true
unfolding get
expired_keys-has ttl now k v [] g e = absurd (cc g)
expired_keys-has ttl now k v ((j, w) ∷ d) g e = elim (Bool-cases (j == k)) [
  | inl same ↦
      let is : w ≡ v = cc (rw same at g) in
      let dead : expired ttl now w ≡ true = subst (λ x. expired ttl now x ≡ true) (sym is) e in
      rw dead (rw same refl)
  | inr differs ↦
      let ih = expired_keys-has ttl now k v d (rw differs at g) e in
      elim (Bool-cases (expired ttl now w)) [
        | inl dead ↦ rw dead (rw differs ih)
        | inr fine ↦ rw fine ih
      ]
]

-- After pruning, a name stands for what it stood for, or for nothing; it never stands for an expired
-- session.
pub get-prune_expired :
    (now : ℕ) (k : Str) (v : Session) (s : Sessions)
    → get k (prune_expired now s).sessions ≡ some v
    → (get k s.sessions ≡ some v) × (expired s.ttl_seconds now v ≡ false)
unfolding prune_expired
get-prune_expired now k v s g =
    elim (Bool-cases (contains k (expired_keys s.ttl_seconds now s.sessions))) [
      | inl pruned ↦ absurd (
          cc (rw pruned at (sym (get-pop_all (expired_keys s.ttl_seconds now s.sessions) k s) ∙ g)))
      | inr stays ↦
          let held : get k s.sessions ≡ some v =
            rw stays at (sym (get-pop_all (expired_keys s.ttl_seconds now s.sessions) k s) ∙ g) in
          (
            held,
            elim (Bool-cases (expired s.ttl_seconds now v)) [
              | inr fine ↦ fine
              | inl dead ↦
                  absurd (cc (stays, expired_keys-has s.ttl_seconds now k v s.sessions held dead))
            ],
          )
    ]

is_granted : (v w : Session) → granted v ≡ granted w → v ≡ w
is_granted v w e = cc e

module _ (open_platform_database : ℕ → ℕ → Str → Option ℕ) where
  -- For whom a granted session acts. One without a platform token acts as it did. One with a platform
  -- token acts with the token that the request carries: by the stored handle if that is the stored
  -- token, and by the handle that was opened with the token it carries if not.
  abbrev pub ActsFor : Option Str → Session → Session → Type 0
  ActsFor carried_token old v =
      ((old.platform_token ≡ none) × (v.platform_token ≡ none) × (v.db ≡ old.db))
      ⊎ ((t : Str) × (carried_token ≡ some t)
          × (old.platform_token ≡ some t)
          × (v.platform_token ≡ some t)
          × (v.db ≡ old.db))
      ⊎ ((t : Str) × (u : Str) × (carried_token ≡ some t)
          × (old.platform_token ≡ some u)
          × (t ≢ u)
          × (v.platform_token ≡ some t)
          × (open_platform_database old.client old.db t ≡ some v.db))

  -- What a granted session is of the stored one.
  record Granted (request : Request) (via_header : Bool) (old v : Session) : Type 0 where
    client : v.client ≡ old.client
    acts : ActsFor (carried request via_header) old v

  follow_with-Granted :
      (old v : Session) (stored : Str) (request : Request) (via_header : Bool) (o : Option Str)
      → old.platform_token ≡ some stored
      → carried request via_header ≡ o
      → follow_with open_platform_database old stored o ≡ granted v
      → Granted request via_header old v
  follow_with-Granted old v stored request via_header none h c e = absurd (cc e)
  follow_with-Granted old v stored request via_header (some token) h c e =
      elim (Bool-cases (token == stored)) [
        | inl same ↦
            subst (λ x. Granted request via_header old x) (is_granted old v (rw same at e))
              (record {
                client = refl;
                acts = inr (
                    inl (
                      token,
                      c,
                      cc (h, (eq_iff token stored).0 same),
                      cc (h, (eq_iff token stored).0 same),
                      refl,
                    ));
              })
        | inr differs ↦ elim (Option-cases (open_platform_database old.client old.db token)) [
          | inl failed ↦ absurd (cc (rw (failed, rebound) at (rw differs at e)))
          | inr (db, opened) ↦
              subst (λ x. Granted request via_header old x)
                (is_granted _ v (rw (opened, rebound) at (rw differs at e)))
                (record {
                  client = refl;
                  acts = inr (
                      inr (
                        token,
                        stored,
                        c,
                        h,
                        ground (arith, eq_iff token stored, differs),
                        refl,
                        opened,
                      ));
                })
        ]
      ]

  follow-Granted :
      (old v : Session) (request : Request) (via_header : Bool) (o : Option Str)
      → old.platform_token ≡ o
      → follow_stored open_platform_database old request via_header o ≡ granted v
      → Granted request via_header old v
  follow-Granted old v request via_header none h e =
      subst (λ x. Granted request via_header old x) (is_granted old v e)
        (record { client = refl; acts = inl (h, h, refl) })
  follow-Granted old v request via_header (some stored) h e =
      follow_with-Granted old v stored request via_header (carried request via_header) h refl e

  -- The platform token beside a session token in the session's own header; none otherwise.
  abbrev pub header_token : Request → Bool → Option Str
  header_token request via_header = if via_header then forwarded_token request else none

  -- The session `v` is the one stored under the token, not expired, with the time of its last use
  -- renewed, and with the handle and the platform token for whom it acts.
  pub record Served (request : Request) (token : Str) (via_header : Bool) (now : ℕ)
      (before after : Sessions) (v : Session) : Type 0 where
    pub old : Session
    pub stored : get token before.sessions ≡ some old
    pub fresh : expired before.ttl_seconds now old ≡ false
    pub client : v.client ≡ old.client
    pub last_used : v.last_used ≡ now
    pub kept : get token after.sessions ≡ some v
    pub acts : ActsFor (header_token request via_header) old v

  carried-header :
      (request : Request) (via_header : Bool)
      → carried request via_header ≡ header_token request via_header
  carried-header request true = refl
  carried-header request false = refl

  touched-Served :
      (request : Request) (token : Str) (via_header : Bool) (now : ℕ) (s : Sessions)
      (old v : Session) (a : Answer)
      → get token s.sessions ≡ some old
      → expired s.ttl_seconds now old ≡ false
      → follow_platform_identity open_platform_database old request via_header ≡ a
      → (touched open_platform_database token now a s).0 ≡ granted v
      → Served request token via_header now s (touched open_platform_database token now a s).1 v
  unfolding follow_platform_identity
  touched-Served request token via_header now s old v (refused r) g x f e = absurd (cc e)
  touched-Served request token via_header now s old v (granted w) g x f e =
      let ok = follow-Granted old w request via_header old.platform_token refl f in
      let v' : Session = record w { last_used = now } in
      subst
        (λ y.
          Served request token via_header now s
            (touched open_platform_database token now (granted w) s).1 y)
        (is_granted v' v e)
        (record {
          old = old;
          stored = g;
          fresh = x;
          client = ok.client;
          last_used = refl;
          kept = get-put_self token v' s.sessions;
          acts = subst (λ x. ActsFor x old w) (carried-header request via_header) ok.acts;
        })

  found-Served :
      (request : Request) (token : Str) (via_header : Bool) (now : ℕ) (s : Sessions) (v : Session)
      (o : Option Session)
      → get token s.sessions ≡ o
      → (found open_platform_database token via_header request now o s).0 ≡ granted v
      → Served request token via_header now s
          (found open_platform_database token via_header request now o s).1
          v
  found-Served request token via_header now s v none g e = absurd (cc e)
  found-Served request token via_header now s v (some old) g e =
      elim (Bool-cases (expired s.ttl_seconds now old)) [
        | inl dead ↦ absurd (cc (rw dead at e))
        | inr fine ↦ rw fine (
            touched-Served request token via_header now s old v
              (follow_platform_identity open_platform_database old request via_header) g fine refl
              (rw fine at e))
      ]

  -- A request that is granted a session is granted the one stored under the token it carries, with
  -- its client, which has not expired, and its time of use is renewed in the store. A session without
  -- a platform token keeps its handle and has none; one with a platform token has the one that this
  -- request forwards beside a session token in the session's own header, with the stored handle if the
  -- two are the same, and with the handle that was opened with the forwarded token if not.
  pub get_session-Served :
      (request : Request) (now : ℕ) (s : Sessions) (v : Session)
      → (get_session open_platform_database request now s).0 ≡ granted v
      → Served request
          (session_token request).0
          (session_token request).1
          now
          s
          (get_session open_platform_database request now s).1
          v
  unfolding get_session
  get_session-Served request now s v e = elim (Bool-cases (is_nil (session_token request).0)) [
    | inl empty ↦ absurd (cc (rw empty at e))
    | inr named ↦
        let token = (session_token request).0 in
        let via_header = (session_token request).1 in
        let s' = prune_expired now s in
        let r =
          found-Served request token via_header now s' v (get token s'.sessions) refl
            (rw named at e) in
        let (stored, fresh) = get-prune_expired now token r.old s r.stored in
        rw named (record {
          old = r.old;
          stored = stored;
          fresh = fresh;
          client = r.client;
          last_used = r.last_used;
          kept = r.kept;
          acts = r.acts;
        })
  ]
