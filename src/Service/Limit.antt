-- ===== src/Service/Limit.antt =====
-- The rate limiter of arango_sparql/service/security.py: `_TokenBucket`. Times are microseconds, and
-- an amount of tokens is a difference of two counts of 1/60000000 of a token, so that the refill of
-- `capacity / 60` tokens a second is exact; the rounding of Python's floats is not modelled.
pub mod Rate
mod Tests
use arango_sparql_py.Base.{
  ℕ, zero, suc, ◌+◌, ◌-◌, ◌*◌, ◌≤◌, ◌≡◌, Bool, true, false, Option, none, some, List, [], ◌∷◌, refl,
}
use arango_sparql_py.Base.Tests.{if◌then◌else◌, leb}
use arango_sparql_py.Base.Eq.{◌==◌, nat_eq, list_eq}
use arango_sparql_py.Base.Dict.{Dict, get, put}
use arango_sparql_py.Base.Str.{Str}

abbrev pub one_token : ℕ
one_token = 60000000

-- `credit - debt` tokens
pub record Amount : Type 0 where
  pub credit : ℕ
  pub debt : ℕ

pub record TokenBucket : Type 0 where
  pub capacity : ℕ
  pub tokens : Dict Str Amount
  pub last_refill : Dict Str ℕ

abbrev pub new_bucket : ℕ → TokenBucket
new_bucket capacity = record { capacity = capacity; tokens = []; last_refill = [] }

abbrev pub or_else {ℓ} : {A : Type ℓ} → Option A → A → A
or_else (some a) default = a
or_else none default = default

abbrev pub full : ℕ → Amount
full capacity = record { credit = capacity * one_token; debt = 0 }

-- `min(capacity, current)`
abbrev pub capped : ℕ → Amount → Amount
capped capacity a = if leb (capacity * one_token + a.debt) a.credit then full capacity else a

-- `current + elapsed * (capacity / 60)`; the clock may have been set back
abbrev pub refilled : ℕ → Amount → ℕ → ℕ → Amount
refilled capacity a last now =
    if leb last now
    then record { credit = a.credit + (now - last) * capacity; debt = a.debt }
    else record { credit = a.credit; debt = a.debt + (last - now) * capacity }

abbrev pub has_token : Amount → Bool
has_token a = leb (one_token + a.debt) a.credit

abbrev pub spent : Amount → Amount
spent a = record { credit = a.credit - one_token; debt = a.debt }

abbrev pub current : Str → ℕ → TokenBucket → Amount
current key now b = capped b.capacity (
    refilled b.capacity (or_else (get key b.tokens) (full b.capacity))
      (or_else (get key b.last_refill) now) now)

abbrev pub settled : Bool → Amount → Amount
settled true a = spent a
settled false a = a

-- `allow`, at the time `now`
unfoldable pub allow : Str → ℕ → TokenBucket → Bool × TokenBucket
allow key now b =
    let a = current key now b in
    (
      has_token a,
      record b {
        tokens = put key (settled (has_token a) a) b.tokens;
        last_refill = put key now b.last_refill;
      },
    )

unfoldable pub reset : TokenBucket → TokenBucket
reset b = new_bucket b.capacity

-- Calls for one key, each so long after the one before it: how many are allowed, and the bucket.
unfoldable pub calls : Str → ℕ → List ℕ → TokenBucket → ℕ × TokenBucket
unfolding allow
calls key now [] b = (0, b)
calls key now (gap ∷ gaps) b =
    let (allowed, b') = allow key (now + gap) b in
    let (count, b'') = calls key (now + gap) gaps b' in
    ((if allowed then suc count else count), b'')

abbrev pub sum : List ℕ → ℕ
sum [] = 0
sum (x ∷ xs) = x + sum xs
