-- ===== src/Redis/Assoc.antt =====
-- A sorted set as an association list: the interface of `Redis` can be met.
use mathlib.Core.HLevel.{Σ_prop_path}
use mathlib.Core.Bool.{So-prop}
use powabase_ai.Redis.{SortedSets}
use powabase_ai.Prelude.{
  ℕ, suc, ◌≤◌, ◌≡◌, refl, Bool, true, false, ◌&&◌, Option, none, some, List, [], ◌∷◌, String, arith,
  leb, ◌=s◌, =s_iff, =s_refl, length, if◌then◌else◌,
}

abbrev pub Entries : Type 0
Entries = List (String × ℕ)

unfoldable pub score_of : Entries → String → Option ℕ
score_of [] k = none
score_of ((m, x) ∷ s) k = if m =s k then some x else score_of s k

unfoldable pub without : Entries → String → Entries
without [] k = []
without ((m, x) ∷ s) k = let rest = without s k in if m =s k then rest else (m, x) ∷ rest

unfoldable pub above : Entries → ℕ → Entries
above [] t = []
above ((m, x) ∷ s) t = let rest = above s t in if leb x t then rest else (m, x) ∷ rest

abbrev is_none : Option ℕ → Bool
is_none none = true
is_none (some _) = false

-- Every member stands once.
unfoldable pub distinct : Entries → Bool
distinct [] = true
distinct ((m, x) ∷ s) = is_none (score_of s m) && distinct s

-- Members stand once: what `with_member` keeps.
unfoldable pub with_member : Entries → ℕ → String → Entries
with_member s x m = (m, x) ∷ without s m

pub score_of-without :
    (s : Entries) (m k : String)
    → score_of (without s m) k ≡ (if m =s k then none else score_of s k)
unfolding score_of without
score_of-without [] m k = ground arith
score_of-without ((j, x) ∷ s) m k =
    ground (arith, score_of-without s m k, =s_iff j m, =s_iff j k, =s_iff m k)

pub without-without_self : (s : Entries) (m : String) → without (without s m) m ≡ without s m
unfolding without
without-without_self [] m = refl
without-without_self ((j, x) ∷ s) m = ground (arith, without-without_self s m)

pub without-above :
    (s : Entries) (t : ℕ) (m : String) → above (without s m) t ≡ without (above s t) m
unfolding above without
without-above [] t m = refl
without-above ((j, x) ∷ s) t m = ground (arith, without-above s t m)

pub above-above : (s : Entries) (u t : ℕ) → u ≤ t → above (above s u) t ≡ above s t
unfolding above
above-above [] u t h = refl
above-above ((j, x) ∷ s) u t h = ground (arith, above-above s u t h)

pub length-above-le : (s : Entries) (t : ℕ) → length (above s t) ≤ length s
unfolding above
length-above-le [] t = omega arith
length-above-le ((j, x) ∷ s) t = ground (arith, length-above-le s t)

pub score_of-above :
    (s : Entries) (t : ℕ) (k : String)
    → distinct s ≡ true
    → score_of (above s t) k
      ≡ elim (score_of s k) [ none ↦ none | some x ↦ if leb x t then none else some x ]
unfolding distinct score_of above
score_of-above [] t k d = refl
score_of-above ((j, x) ∷ s) t k d = ground (arith, score_of-above s t k (ground arith), =s_iff j k)

-- Taking a member out leaves the others once.
pub distinct-without :
    (s : Entries) (m : String) → distinct s ≡ true → distinct (without s m) ≡ true
unfolding distinct without
distinct-without [] m d = refl
distinct-without ((j, x) ∷ s) m d =
    ground (arith, distinct-without s m (ground arith), score_of-without s m j)

pub distinct-above : (s : Entries) (t : ℕ) → distinct s ≡ true → distinct (above s t) ≡ true
unfolding distinct above
distinct-above [] t d = refl
distinct-above ((j, x) ∷ s) t d =
    ground (arith, distinct-above s t (ground arith), score_of-above s t j (ground arith))

pub distinct-with_member :
    (s : Entries) (x : ℕ) (m : String) → distinct s ≡ true → distinct (with_member s x m) ≡ true
unfolding distinct with_member
distinct-with_member s x m d =
    ground (arith, distinct-without s m d, score_of-without s m m, =s_refl m)

without_absent : (s : Entries) (m : String) → score_of s m ≡ none → without s m ≡ s
unfolding score_of without
without_absent [] m h = refl
without_absent ((j, x) ∷ s) m h = ground (arith, without_absent s m (ground arith))

-- A member that is there is one entry.
pub length-without :
    (s : Entries) (m : String)
    → distinct s ≡ true
    → length s
      ≡ elim (score_of s m) [ none ↦ length (without s m) | some _ ↦ suc (length (without s m)) ]
unfolding distinct score_of without
length-without [] m d = refl
length-without ((j, x) ∷ s) m d =
    ground (arith, length-without s m (ground arith), =s_iff j m, without_absent s j (ground arith))

pub score_of-with_member :
    (s : Entries) (x : ℕ) (m k : String)
    → score_of (with_member s x m) k ≡ (if m =s k then some x else score_of s k)
unfolding score_of with_member
score_of-with_member s x m k = ground (arith, score_of-without s m k)

pub length-with_member :
    (s : Entries) (x : ℕ) (m : String)
    → distinct s ≡ true
    → length (with_member s x m) ≡ elim (score_of s m) [ none ↦ suc (length s) | some _ ↦ length s ]
unfolding with_member
length-with_member s x m d = ground (arith, length-without s m d, without_absent s m)

pub above-with_member :
    (s : Entries) (x t : ℕ) (m : String)
    → above (with_member s x m) t
      ≡ (if leb x t then above (without s m) t else with_member (above s t) x m)
unfolding above with_member
above-with_member s x t m = ground (arith, without-above s t m)

abbrev pub Once : Type 0
Once = (s : Entries) × (distinct s ≡ true)

pub once_eq : {a b : Once} → a.0 ≡ b.0 → a ≡ b
once_eq e = Σ_prop_path (λ s. So-prop (distinct s)) e

pub once_if :
    (b : Bool) {a : Once} (u v : Once) → a.0 ≡ (if b then u.0 else v.0) → a ≡ (if b then u else v)
once_if true u v e = once_eq e
once_if false u v e = once_eq e

-- The interface of `Redis` over lists in which every member stands once.
abbrev pub assoc_sets : SortedSets
unfolding distinct score_of with_member without above
assoc_sets = record {
  ZSet = Once;
  no_members = ([], refl);
  zscore = λ s k. score_of s.0 k;
  zcard = λ s. length s.0;
  zadd = λ s x m. (with_member s.0 x m, distinct-with_member s.0 x m s.1);
  zrem = λ s m. (without s.0 m, distinct-without s.0 m s.1);
  zremrangebyscore = λ s t. (above s.0 t, distinct-above s.0 t s.1);
  zscore-empty = λ m. refl;
  zscore-zadd = λ s x m k. score_of-with_member s.0 x m k;
  zscore-zrem = λ s m k. score_of-without s.0 m k;
  zscore-zremrange = λ s t k. score_of-above s.0 t k s.1;
  zcard-empty = refl;
  zcard-zadd = λ s x m. length-with_member s.0 x m s.1;
  zcard-zrem = λ s m. length-without s.0 m s.1;
  zremrange-zadd = λ s x t m. once_if (leb x t) _ _ (above-with_member s.0 x t m);
  zremrange-zrem = λ s t m. once_eq (without-above s.0 t m);
  zremrange-zremrange = λ s u t h. once_eq (above-above s.0 u t h);
  zremrange-empty = λ t. once_eq refl;
  zcard-zremrange-le = λ s t. length-above-le s.0 t;
}
