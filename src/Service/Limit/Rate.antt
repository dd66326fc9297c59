-- ===== src/Service/Limit/Rate.antt =====
-- How many calls the rate limiter of arango_sparql/service/security.py lets through.
use arango_sparql_py.Base.{
  ℕ, suc, ◌+◌, ◌-◌, ◌*◌, ◌≤◌, ◌≡◌, Bool, true, false, none, some, List, [], ◌∷◌, refl, ap, sym,
  subst, arith, inl, inr,
}
use native.Mathlib.Nat.{add-mul}
use arango_sparql_py.Base.Tests.{if◌then◌else◌, leb, Bool-cases}
use arango_sparql_py.Base.Eq.{nat_eq, list_eq}
use arango_sparql_py.Base.Dict.{get, get-put_self}
use arango_sparql_py.Base.Str.{Str}
use arango_sparql_py.Service.Limit.{
  one_token, Amount, TokenBucket, capped, has_token, current, settled, allow, calls, sum,
}

-- The key's tokens and the time they were brought up to.
pub record Stands (key : Str) (now : ℕ) (a : Amount) (b : TokenBucket) : Type 0 where
  pub tokens : get key b.tokens ≡ some a
  pub time : get key b.last_refill ≡ some now

allow-Stands :
    (key : Str) (now : ℕ) (b : TokenBucket)
    → Stands key now (settled (allow key now b).0 (current key now b)) (allow key now b).1
unfolding allow
allow-Stands key now b = record {
  tokens = get-put_self key _ b.tokens;
  time = get-put_self key now b.last_refill;
}

-- What a call costs is paid for by what was there and the refill.
abbrev cost : Bool → ℕ
cost true = one_token
cost false = 0

settled-pays :
    (a : Amount)
    → a.debt ≡ 0
    → ((settled (has_token a) a).debt ≡ 0)
      × (cost (has_token a) + (settled (has_token a) a).credit ≡ a.credit)
settled-pays a h = elim (Bool-cases (has_token a)) [
  | inl enough ↦ rw enough (h, ground arith)
  | inr short ↦ rw short (h, omega arith)
]

capped-le :
    (capacity : ℕ) (a : Amount)
    → a.debt ≡ 0
    → ((capped capacity a).debt ≡ 0)
      × ((capped capacity a).credit ≤ a.credit)
      × ((capped capacity a).credit ≤ capacity * one_token)
capped-le capacity a h = elim (Bool-cases (leb (capacity * one_token + a.debt) a.credit)) [
  | inl over ↦ rw over (refl, ground arith, omega arith)
  | inr under ↦ rw under (h, omega arith, ground arith)
]

current-Stands :
    (key : Str) (now gap : ℕ) (a : Amount) (b : TokenBucket)
    → Stands key now a b
    → current key (now + gap) b
      ≡ capped b.capacity (record { credit = a.credit + gap * b.capacity; debt = a.debt })
current-Stands key now gap a b h =
    rw (h.tokens, h.time)
      (rw (later now gap) (
        ap (λ x. capped b.capacity (record { credit = a.credit + x * b.capacity; debt = a.debt }))
          (omega arith)))
  where
    later : (now gap : ℕ) → leb now (now + gap) ≡ true
    later now gap = ground arith

-- After a call the key has tokens left, and with the call's price they are within the budget and
-- within the capacity.
record Paid (key : Str) (now : ℕ) (b : TokenBucket) (price budget capacity : ℕ) : Type 0 where
  left : Amount
  stands : Stands key now left b
  no_debt : left.debt ≡ 0
  within : price + left.credit ≤ budget
  below : price + left.credit ≤ capacity * one_token

current-Paid :
    (key : Str) (now budget : ℕ) (b : TokenBucket)
    → ((current key now b).debt ≡ 0)
    → ((current key now b).credit ≤ budget)
    → ((current key now b).credit ≤ b.capacity * one_token)
    → Paid key now (allow key now b).1 (cost (allow key now b).0) budget b.capacity
unfolding allow
current-Paid key now budget b d le cap =
    let (no_debt, pays) = settled-pays (current key now b) d in
    record {
      left = settled (has_token (current key now b)) (current key now b);
      stands = allow-Stands key now b;
      no_debt = no_debt;
      within = omega (arith, pays, le);
      below = omega (arith, pays, cap);
    }

allow-Paid :
    (key : Str) (now gap : ℕ) (a : Amount) (b : TokenBucket)
    → Stands key now a b
    → a.debt ≡ 0
    → Paid key
        (now + gap)
        (allow key (now + gap) b).1
        (cost (allow key (now + gap) b).0)
        (a.credit + gap * b.capacity)
        b.capacity
allow-Paid key now gap a b h d =
    let r : Amount = record { credit = a.credit + gap * b.capacity; debt = a.debt } in
    let (no_debt, le, cap) =
      subst
        (λ x.
          (x.debt ≡ 0)
          × (x.credit ≤ a.credit + gap * b.capacity)
          × (x.credit ≤ b.capacity * one_token))
        (sym (current-Stands key now gap a b h)) (capped-le b.capacity r d) in
    current-Paid key (now + gap) (a.credit + gap * b.capacity) b no_debt le cap

counted : (t : Bool) (n : ℕ) → (if t then suc n else n) * one_token ≡ cost t + n * one_token
counted true n = omega arith
counted false n = omega arith

allow-capacity : (key : Str) (now : ℕ) (b : TokenBucket) → (allow key now b).1.capacity ≡ b.capacity
unfolding allow
allow-capacity key now b = refl

calls-le :
    (key : Str) (now : ℕ) (gaps : List ℕ) (a : Amount) (b : TokenBucket)
    → Stands key now a b
    → a.debt ≡ 0
    → (calls key now gaps b).0 * one_token ≤ a.credit + sum gaps * b.capacity
unfolding calls
calls-le key now [] a b h d = omega arith
calls-le key now (gap ∷ gaps) a b h d =
    let b' = (allow key (now + gap) b).1 in
    let p = allow-Paid key now gap a b h d in
    let rest = calls-le key (now + gap) gaps p.left b' p.stands p.no_debt in
    omega (
      arith,
      counted (allow key (now + gap) b).0 (calls key (now + gap) gaps b').0,
      rw (allow-capacity key (now + gap) b) at rest,
      p.within,
      add-mul gap (sum gaps) b.capacity,
    )

first-Paid :
    (key : Str) (now : ℕ) (b : TokenBucket)
    → get key b.tokens ≡ none
    → get key b.last_refill ≡ none
    → Paid key now
        (allow key now b).1
        (cost (allow key now b).0)
        (b.capacity * one_token)
        b.capacity
first-Paid key now b new unseen =
    let r : Amount = record {
      credit = b.capacity * one_token + (now - now) * b.capacity;
      debt = 0;
    } in
    let (no_debt, le, cap) = capped-le b.capacity r refl in
    let same : current key now b ≡ capped b.capacity r = rw (new, unseen) (rw (at_once now) refl) in
    let (d, c) =
      subst (λ x. (x.debt ≡ 0) × (x.credit ≤ b.capacity * one_token)) (sym same) (no_debt, cap) in
    current-Paid key now (b.capacity * one_token) b d c c
  where
    at_once : (now : ℕ) → leb now now ≡ true
    at_once now = ground arith

-- Of the calls of a client that the limiter has not seen, over a time in which the clock is not set
-- back, at most as many are allowed as the capacity and the refill of that time amount to: the first
-- call's time is `now`, and each later call comes a gap after the one before it.
pub calls_within_rate :
    (key : Str) (now : ℕ) (gaps : List ℕ) (b : TokenBucket)
    → get key b.tokens ≡ none
    → get key b.last_refill ≡ none
    → (calls key now (0 ∷ gaps) b).0 * one_token ≤ b.capacity * one_token + sum gaps * b.capacity
unfolding calls
calls_within_rate key now gaps b new unseen =
    let p = first-Paid key (now + 0) b new unseen in
    let b' = (allow key (now + 0) b).1 in
    let rest = calls-le key (now + 0) gaps p.left b' p.stands p.no_debt in
    omega (
      arith,
      counted (allow key (now + 0) b).0 (calls key (now + 0) gaps b').0,
      rw (allow-capacity key (now + 0) b) at rest,
      p.within,
    )

capped-has_token :
    (capacity : ℕ) (a : Amount)
    → 1 ≤ capacity
    → a.debt ≡ 0
    → one_token ≤ a.credit
    → has_token (capped capacity a) ≡ true
capped-has_token capacity a some_capacity d enough =
    elim (Bool-cases (leb (capacity * one_token + a.debt) a.credit)) [
      | inl over ↦ rw over (ground arith)
      | inr under ↦ rw under (ground arith)
    ]

-- A client that waited long enough since its last call for the refill of one token is let through,
-- whether that call was allowed or not, if the capacity is not zero, the clock was not set back and
-- the key was in no debt from an earlier setback.
pub allow_after_wait :
    (key : Str) (now gap : ℕ) (b : TokenBucket)
    → 1 ≤ b.capacity
    → one_token ≤ gap * b.capacity
    → (current key now b).debt ≡ 0
    → (allow key (now + gap) (allow key now b).1).0 ≡ true
unfolding allow
allow_after_wait key now gap b some_capacity wait d =
    let b' = (allow key now b).1 in
    let a = settled (has_token (current key now b)) (current key now b) in
    let (no_debt, pays) = settled-pays (current key now b) d in
    rw (current-Stands key now gap a b' (allow-Stands key now b)) (
      capped-has_token b.capacity (record { credit = a.credit + gap * b.capacity; debt = a.debt })
        some_capacity no_debt (omega (arith, wait)))
