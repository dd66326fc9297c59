-- ===== src/Aql/Fresh/Child.antt =====
-- `create_child` and `absorb_child` of translate/builder.py: a child's bind names never meet its
-- parent's.
use arango_sparql_py.Base.{◌≡◌, refl, [], ◌∷◌, Option, none, some, arith, inl, inr, ◌⊎◌, subst}
use arango_sparql_py.Base.Tests.{Bool-cases}
use arango_sparql_py.Base.Eq.{◌==◌, nat_eq, list_eq, eq_iff, eq_refl}
use arango_sparql_py.Base.Dict.{Dict, get, put, get-put}
use arango_sparql_py.Base.Str.{Str}
use arango_sparql_py.Errors.{Result, ok, err}
use arango_sparql_py.Aql.State.{Value, Builder, Clause, Emit, pure, raise, gets, continue, ◌>>=◌}
use arango_sparql_py.Aql.Mint.{Unicode}
use arango_sparql_py.Base.Dict.Distinct.{Distinct, put-Distinct}
use arango_sparql_py.Aql.Fresh.{IsFresh, IsAbove}
use arango_sparql_py.Aql.Finalize.{finalize, finalize_with, assemble, create_child, merge_binds}

pub create_child-IsFresh : (b : Builder) → IsFresh (create_child b)
unfolding create_child get
create_child-IsFresh b = record {
  bind_used = λ k v n g i. absurd (cc g);
  coll_used = λ k v n g i. absurd (cc g);
  cached = λ c name g. absurd (cc g);
  distinct = tt;
}

pub create_child-IsAbove : (b : Builder) → IsAbove b.bind_counter b.coll_counter (create_child b)
unfolding create_child get
create_child-IsAbove b = record {
  bind_le = omega arith;
  coll_le = omega arith;
  above = λ k v g. absurd (cc g);
}

-- the entry of a merged dictionary: the child's, else the parent's
abbrev pub or_else {ℓ} : {A : Type ℓ} → Option A → Option A → Option A
or_else (some a) o = some a
or_else none o = o

-- the builder with other bind variables
abbrev pub with_vars : Builder → Dict Str Value → Builder
with_vars b d = record b { bind_vars = d }

abbrev pub Merges : Dict Str Value → Builder → Type 0
Merges d b =
    (vars : Dict Str Value) × (merge_binds d b ≡ (ok tt, with_vars b vars))
    × ((k : Str) → get k vars ≡ or_else (get k d) (get k b.bind_vars))
    × (Distinct b.bind_vars → Distinct vars)

abbrev pub Disjoint : Dict Str Value → Dict Str Value → Type 0
Disjoint d e = (k : Str) → (get k d ≡ none) ⊎ (get k e ≡ none)

head_free : (k : Str) (v : Value) (d e : Dict Str Value) → Disjoint ((k, v) ∷ d) e → get k e ≡ none
unfolding get
head_free k v d e h = ground (arith, h k, eq_refl k)

tail_Disjoint :
    (k : Str) (v : Value) (d e : Dict Str Value)
    → get k d ≡ none
    → Disjoint ((k, v) ∷ d) e
    → Disjoint d (put k v e)
unfolding get
tail_Disjoint k v d e free h j = elim (Bool-cases (k == j)) [
  | inl same ↦ inl (subst (λ x. get x d ≡ none) ((eq_iff k j).0 same) free)
  | inr differs ↦ ground (arith, h j, get-put k j v e)
]

-- Bind variables that the builder has under no name are merged with no error.
pub merge_binds-Merges :
    (d : Dict Str Value) (b : Builder) → Distinct d → Disjoint d b.bind_vars → Merges d b
unfolding merge_binds get
merge_binds-Merges [] b u h = (b.bind_vars, refl, λ k. refl, λ x. x)
merge_binds-Merges ((k, v) ∷ d) b u h =
    let free = head_free k v d b.bind_vars h in
    let (vars, runs, looks, keeps) =
      merge_binds-Merges d (with_vars b (put k v b.bind_vars)) u.1
        (tail_Disjoint k v d b.bind_vars u.0 h) in
    (
      vars,
      rw (free, merge_binds) runs,
      λ j. rw (looks j) (ground (arith, get-put k j v b.bind_vars, eq_iff k j, u.0)),
      λ x. keeps (put-Distinct k v b.bind_vars x),
    )

-- `finalize` gives out the bind variables that it leaves in the builder.
record Ensures {ℓ} {A : Type ℓ} (Q : A → Builder → Type 0) (m : Emit A) : Type ℓ where
  at : (b b' : Builder) (a : A) → m b ≡ (ok a, b') → Q a b'

module _ {ℓ κ} {A : Type ℓ} {B : Type κ} {Q : B → Builder → Type 0} where
  Ensures-bind : (m : Emit A) (f : A → Emit B) → ((a : A) → Ensures Q (f a)) → Ensures Q (m >>= f)
  unfolding ◌>>=◌
  Ensures-bind m f kf = record { at = λ b b' c e. go (m b).0 (m b).1 b' c e }
    where
      go : (r : Result A) (b b' : Builder) (c : B) → continue r f b ≡ (ok c, b') → Q c b'
      go (ok a) b b' c e = (kf a).at b b' c e
      go (err x) b b' c e = absurd (cc e)

abbrev HoldsVars : Str × Dict Str Value → Builder → Type 0
HoldsVars r b = r.1 ≡ b.bind_vars

last_step : (aql : Str) → Ensures HoldsVars (gets (λ b. b.bind_vars) >>= λ binds. pure (aql, binds))
unfolding ◌>>=◌
last_step aql = record { at = λ b b' a e. cc e }

module _ ⦃u : Unicode⦄ where
  assemble-HoldsVars : (ret : Clause) → Ensures HoldsVars (assemble ret)
  unfolding assemble
  assemble-HoldsVars ret = Ensures-bind _ _ λ has_for. Ensures-bind _ _ λ x.
      Ensures-bind _ _ λ names.
        Ensures-bind _ _ λ refs. Ensures-bind _ _ λ body. Ensures-bind _ _ λ ask. last_step _

  finalize_with-HoldsVars : (ret : Option Clause) → Ensures HoldsVars (finalize_with ret)
  unfolding raise
  finalize_with-HoldsVars none = record { at = λ b b' a e. absurd (cc e) }
  finalize_with-HoldsVars (some ret) = assemble-HoldsVars ret

  pub finalize-HoldsVars :
      (b b' : Builder) (aql : Str) (binds : Dict Str Value)
      → finalize b ≡ (ok (aql, binds), b')
      → binds ≡ b'.bind_vars
  unfolding finalize
  finalize-HoldsVars b b' aql binds e =
      (finalize_with-HoldsVars b.return_clause).at b b' (aql, binds) e
