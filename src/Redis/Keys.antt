-- ===== src/Redis/Keys.antt =====
-- Redis string keys: SET with EX, GET and DEL, as an interface and as lists with deadlines.
use powabase_ai.Prelude.{
  ℕ, ◌+◌, ◌≡◌, refl, Bool, true, false, Option, none, some, List, [], ◌∷◌, String, arith, leb, ◌=s◌,
  =s_iff, if◌then◌else◌,
}

pub record StringKeys (V : Type 0) : Type 1 where
  pub Store : Type 0
  pub no_keys : Store
  -- GET key, at a time
  pub get : Store → ℕ → String → Option V
  -- SET key value EX ex, at a time
  pub set : Store → ℕ → ℕ → String → V → Store
  -- DEL key
  pub delete : Store → String → Store
  pub get-empty : (t : ℕ) (k : String) → get no_keys t k ≡ none
  pub get-set :
      (s : Store) (now ex : ℕ) (k : String) (v : V) (t : ℕ) (j : String)
      → get (set s now ex k v) t j
        ≡ (if k =s j then (if leb (now + ex) t then none else some v) else get s t j)
  pub get-delete :
      (s : Store) (k : String) (t : ℕ) (j : String)
      → get (delete s k) t j ≡ (if k =s j then none else get s t j)

-- The keys with the time at which each is gone, and their values.
abbrev pub Deadlines : Type 0 → Type 0
Deadlines V = List (String × ℕ × V)

module _ {V : Type 0} where
  -- SET key value NX EX ex: whether the key was free, and the store after.
  abbrev pub set_nx : (r : StringKeys V) → r.Store → ℕ → ℕ → String → V → Bool × r.Store
  set_nx r s now ex k v = elim (r.get s now k) [
    | none ↦ (true, r.set s now ex k v)
    | some _ ↦ (false, s)
  ]

  unfoldable pub value_at : Deadlines V → ℕ → String → Option V
  value_at [] t k = none
  value_at ((j, until, v) ∷ s) t k =
      if j =s k then (if leb until t then none else some v) else value_at s t k

  unfoldable pub dropped : Deadlines V → String → Deadlines V
  dropped [] k = []
  dropped ((j, until, v) ∷ s) k =
      let rest = dropped s k in if j =s k then rest else (j, until, v) ∷ rest

  pub value_at-dropped :
      (s : Deadlines V) (k : String) (t : ℕ) (j : String)
      → value_at (dropped s k) t j ≡ (if k =s j then none else value_at s t j)
  unfolding value_at dropped
  value_at-dropped [] k t j = ground arith
  value_at-dropped ((i, until, v) ∷ s) k t j =
      ground (arith, value_at-dropped s k t j, =s_iff i k, =s_iff i j, =s_iff k j)

  abbrev pub list_keys : StringKeys V
  unfolding value_at
  list_keys = record {
    Store = Deadlines V;
    no_keys = [];
    get = value_at;
    set = λ s now ex k v. (k, now + ex, v) ∷ s;
    delete = dropped;
    get-empty = λ t k. refl;
    get-set = λ s now ex k v t j. refl;
    get-delete = value_at-dropped;
  }
