-- ===== src/Retrieval/Limits.antt =====
-- No configuration makes a search ask for no rows or for more than it may.
use powabase_ai.Prelude.{
  ◌≤◌, ◌≡◌, ap, sym, subst, true, Option, none, some, arith, if◌then◌else◌, Bool-cases, inl, inr,
}
use powabase_ai.Prelude.Int.{ℤ, pos, negsuc}
use powabase_ai.Retrieval.{
  Value, safe_retrieval_top_k, clamped, bounded_row_count, requested_or, resolve_top_k, Correction,
  nothing, corrected, unchanged, same_int, bounded_retrieval_config,
}

-- A limit that a search may be asked for.
abbrev pub IsSafe : Option ℤ → Type 0
IsSafe none = ⊥
IsSafe (some (negsuc n)) = ⊥
IsSafe (some (pos n)) = (1 ≤ n) × (n ≤ safe_retrieval_top_k)

clamped-IsSafe :
    (count : ℤ) (fallback : Option ℤ) → IsSafe fallback → IsSafe (clamped count fallback)
clamped-IsSafe (negsuc n) fallback h = h
clamped-IsSafe (pos n) fallback h = ground (arith, h)

bounded_row_count-IsSafe :
    (count fallback : Option ℤ) → IsSafe fallback → IsSafe (bounded_row_count count fallback)
unfolding bounded_row_count
bounded_row_count-IsSafe none fallback h = h
bounded_row_count-IsSafe (some count) fallback h = clamped-IsSafe count fallback h

-- Whatever the request and the stored configuration have for top_k, a search is asked for 1 to `MAX_TOP_K` / 2
-- rows, if the default of the settings is in these bounds.
resolve_top_k-IsSafe :
    (default : ℤ) (requested stored : Option Value)
    → IsSafe (some default)
    → IsSafe (resolve_top_k default requested stored)
unfolding resolve_top_k
resolve_top_k-IsSafe default requested stored h =
    bounded_row_count-IsSafe (requested_or default requested stored) (some default) h

-- The candidate_count that a search reads from a configuration that has one, corrected or as it is.
abbrev pub effective : Value → Correction → Option ℤ
effective v nothing = v.as_int
effective v (corrected count) = count

abbrev pub IsSafeOrMissing : Option ℤ → Type 0
IsSafeOrMissing none = Unit
IsSafeOrMissing (some count) = IsSafe (some count)

clamped-IsSafeOrMissing : (count : ℤ) → IsSafeOrMissing (clamped count none)
clamped-IsSafeOrMissing (negsuc n) = tt
clamped-IsSafeOrMissing (pos n) = ground arith

bounded_row_count-IsSafeOrMissing :
    (count : Option ℤ) → IsSafeOrMissing (bounded_row_count count none)
unfolding bounded_row_count
bounded_row_count-IsSafeOrMissing none = tt
bounded_row_count-IsSafeOrMissing (some count) = clamped-IsSafeOrMissing count

same_int-eq : (m n : ℤ) → same_int (some m) n ≡ true → m ≡ n
same_int-eq (pos m) (pos n) h = ap pos (ground (arith, h))
same_int-eq (pos m) (negsuc n) h = ground (arith, h)
same_int-eq (negsuc m) (pos n) h = ground (arith, h)
same_int-eq (negsuc m) (negsuc n) h = ap negsuc (ground (arith, h))

unchanged-eq : (v : Value) (b : Option ℤ) → unchanged v b ≡ true → v.as_int ≡ b
unchanged-eq v none h = ground (arith, h)
unchanged-eq v (some n) h = same_as v.as_int n (ground (arith, h))
  where
    same_as : (o : Option ℤ) (n : ℤ) → same_int o n ≡ true → o ≡ some n
    same_as none n h = ground (arith, h)
    same_as (some m) n h = ap some (same_int-eq m n h)

corrected-IsSafeOrMissing :
    (v : Value) (b : Option ℤ)
    → IsSafeOrMissing b
    → IsSafeOrMissing (effective v (if unchanged v b then nothing else corrected b))
corrected-IsSafeOrMissing v b safe = elim (Bool-cases (unchanged v b)) [
  | inl same ↦ rw (same) (subst IsSafeOrMissing (sym (unchanged-eq v b same)) safe)
  | inr other ↦ rw (other) safe
]

-- The candidate count of the configuration that a search then uses is 1 to `MAX_TOP_K` / 2 or left out, whatever
-- is stored.
bounded_retrieval_config-IsSafe :
    (v : Value) → IsSafeOrMissing (effective v (bounded_retrieval_config (some v)))
unfolding bounded_retrieval_config bounded_row_count
bounded_retrieval_config-IsSafe v =
    corrected-IsSafeOrMissing v (bounded_row_count v.as_int none)
      (bounded_row_count-IsSafeOrMissing v.as_int)
