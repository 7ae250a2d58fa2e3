-- ===== src/Citation/Registry/Keys.antt =====
-- Every key that the registry has given names one unit of the run, for good.
use powabase_ai.Prelude.{
  ℕ, zero, suc, ◌+◌, ◌<◌, ◌≡◌, refl, ap, ap₂, sym, ◌∙◌, Option, none, some, List, [], ◌∷◌, ◌++◌,
  arith, length, get_elem?, length-append, ◌==◌, if◌then◌else◌,
}
use mathlib.Core.List.{append_assoc, append-nil}
use powabase_ai.Citation.Registry.{
  CitationUnit, CitationRegistry, register_many, enumerate, citation_map, range,
}

-- The entry of a dictionary with integer keys.
unfoldable pub find {ℓ} : {A : Type ℓ} → ℕ → List (ℕ × A) → Option A
find k [] = none
find k ((j, x) ∷ m) = if j == k then some x else find k m

pub find-enumerate_below :
    {A : Type 0} (start k : ℕ) (xs : List A) → k < start → find k (enumerate start xs) ≡ none
unfolding find enumerate
find-enumerate_below start k [] h = refl
find-enumerate_below start k (x ∷ xs) h =
    ground (arith, find-enumerate_below (suc start) k xs (omega arith))

pub find-enumerate :
    {A : Type 0} (start i : ℕ) (xs : List A)
    → find (start + i) (enumerate start xs) ≡ get_elem? xs i
unfolding find enumerate
find-enumerate start i [] = refl
find-enumerate start zero (x ∷ xs) = ground arith
find-enumerate start (suc i) (x ∷ xs) = ground (
  arith,
  find-enumerate (suc start) i xs,
  ap (λ k. find k (enumerate (suc start) xs)) (shift start i),
)
  where
    shift : (a b : ℕ) → suc a + b ≡ a + suc b
    shift a b = omega arith

get_elem?-append_left :
    {A : Type 0} (xs ys : List A) (i : ℕ) (x : A)
    → get_elem? xs i ≡ some x
    → get_elem? (xs ++ ys) i ≡ some x
get_elem?-append_left [] ys i x h = cc
get_elem?-append_left (y ∷ xs) ys zero x h = h
get_elem?-append_left (y ∷ xs) ys (suc i) x h = get_elem?-append_left xs ys i x h

get_elem?-append_right :
    {A : Type 0} (xs ys : List A) (i : ℕ) → get_elem? (xs ++ ys) (length xs + i) ≡ get_elem? ys i
get_elem?-append_right [] ys i = ap (get_elem? ys) (omega arith)
get_elem?-append_right (x ∷ xs) ys i =
    ap (get_elem? (x ∷ xs ++ ys)) (shift (length xs) i) ∙ get_elem?-append_right xs ys i
  where
    shift : (a b : ℕ) → suc a + b ≡ suc (a + b)
    shift a b = omega arith

get_elem?-range : (n first i : ℕ) → i < n → get_elem? (range first n) i ≡ some (first + i)
unfolding range
get_elem?-range zero first i h = absurd (omega arith)
get_elem?-range (suc n) first zero h = ap some (omega arith)
get_elem?-range (suc n) first (suc i) h =
    get_elem?-range n (suc first) i (omega arith) ∙ ap some (omega arith)

range-append : (m n first : ℕ) → range first (m + n) ≡ range first m ++ range (first + m) n
unfolding range
range-append zero n first = ap₂ range (omega arith) (omega arith)
range-append (suc m) n first =
    ap (range first) (shift m n)
    ∙ ap (λ l. first ∷ l)
        (range-append m n (suc first) ∙ ap (λ k. range (suc first) m ++ range k n) (shift' first m))
  where
    shift : (a b : ℕ) → suc a + b ≡ suc (a + b)
    shift a b = omega arith

    shift' : (a b : ℕ) → suc a + b ≡ a + suc b
    shift' a b = omega arith

length-get_elem? :
    {A : Type 0} (xs : List A) (i : ℕ) (x : A) → get_elem? xs i ≡ some x → i < length xs
length-get_elem? [] i x h = cc
length-get_elem? (y ∷ xs) zero x h = omega arith
length-get_elem? (y ∷ xs) (suc i) x h = omega (arith, length-get_elem? xs i x h)

unfoldable pub flatten : {A : Type 0} → List (List A) → List A
flatten [] = []
flatten (x ∷ xs) = x ++ flatten xs

module _ {Meta : Type 0} where
  -- The batches of the run's tool calls, in the order in which they take the registry's lock.
  unfoldable pub register_all :
      List (List (CitationUnit Meta))
      → CitationRegistry Meta
      → List (List ℕ) × CitationRegistry Meta
  register_all [] r = ([], r)
  register_all (batch ∷ rest) r =
      let (keys, r') = register_many batch r in
      let (more, last) = register_all rest r' in (keys ∷ more, last)

  unfoldable pub unit_at : ℕ → CitationRegistry Meta → Option (CitationUnit Meta)
  unit_at k r = find k (citation_map r)

  unit_at-suc : (i : ℕ) (r : CitationRegistry Meta) → unit_at (1 + i) r ≡ get_elem? r.units i
  unfolding unit_at citation_map
  unit_at-suc i r = find-enumerate 1 i r.units

  unit_at-zero : (r : CitationRegistry Meta) → unit_at 0 r ≡ none
  unfolding unit_at citation_map
  unit_at-zero r = find-enumerate_below 1 0 r.units (omega arith)

  -- Registering more units leaves what the earlier keys name.
  unit_at-register_many :
      (k : ℕ) (u : CitationUnit Meta) (batch : List (CitationUnit Meta)) (r : CitationRegistry Meta)
      → unit_at k r ≡ some u
      → unit_at k (register_many batch r).1 ≡ some u
  unfolding register_many
  unit_at-register_many zero u batch r h = cc (unit_at-zero r)
  unit_at-register_many (suc i) u batch r h =
      ap (λ k. unit_at k (register_many batch r).1) (one i)
      ∙ unit_at-suc i (register_many batch r).1
      ∙ get_elem?-append_left r.units batch i u
          (sym (unit_at-suc i r) ∙ ap (λ k. unit_at k r) (sym (one i)) ∙ h)
    where
      one : (j : ℕ) → suc j ≡ 1 + j
      one j = omega arith

  unit_at-register_all :
      (k : ℕ) (u : CitationUnit Meta) (batches : List (List (CitationUnit Meta)))
      (r : CitationRegistry Meta)
      → unit_at k r ≡ some u
      → unit_at k (register_all batches r).1 ≡ some u
  unfolding register_all
  unit_at-register_all k u [] r h = h
  unit_at-register_all k u (batch ∷ rest) r h =
      unit_at-register_all k u rest (register_many batch r).1 (unit_at-register_many k u batch r h)

  -- The i-th unit of a batch gets the i-th key after those given before, and that key names this
  -- unit after the batch and after every later batch of the run.
  pub register_many-names :
      (batch : List (CitationUnit Meta)) (later : List (List (CitationUnit Meta)))
      (r : CitationRegistry Meta) (i : ℕ) (u : CitationUnit Meta)
      → get_elem? batch i ≡ some u
      → (get_elem? (register_many batch r).0 i ≡ some (length r.units + 1 + i))
        × (unit_at (length r.units + 1 + i) (register_all later (register_many batch r).1).1
            ≡ some u)
  unfolding register_many
  register_many-names batch later r i u h = (
    get_elem?-range (length batch) (length r.units + 1) i (length-get_elem? batch i u h),
    unit_at-register_all (length r.units + 1 + i) u later (register_many batch r).1 (
        ap (λ k. unit_at k (register_many batch r).1) (one (length r.units) i)
        ∙ unit_at-suc (length r.units + i) (register_many batch r).1
        ∙ get_elem?-append_right r.units batch i
        ∙ h),
  )
    where
      one : (a b : ℕ) → a + 1 + b ≡ 1 + (a + b)
      one a b = omega arith

  -- The keys of all batches, in the order of the lock, are the next integers without a gap, so no
  -- key is given twice; the registry then holds the batches' units in that order.
  pub register_all-contiguous :
      (batches : List (List (CitationUnit Meta))) (r : CitationRegistry Meta)
      → (flatten (register_all batches r).0 ≡ range (length r.units + 1) (length (flatten batches)))
        × ((register_all batches r).1.units ≡ r.units ++ flatten batches)
  unfolding register_all register_many flatten range
  register_all-contiguous [] r = (refl, sym (append-nil r.units))
  register_all-contiguous (batch ∷ rest) r =
      let r' : CitationRegistry Meta = (register_many batch r).1 in
      let (keys, held) = register_all-contiguous rest r' in
      (
        ap (λ l. range first (length batch) ++ l)
              (keys
                ∙ ap (λ k. range k (length (flatten rest))) (later (length-append r.units batch)))
            ∙ sym (range-append (length batch) (length (flatten rest)) first)
            ∙ ap (range first) (sym (length-append batch (flatten rest))),
        held ∙ append_assoc r.units batch (flatten rest),
      )
    where
      first : ℕ
      first = length r.units + 1

      later :
          {n : ℕ} → n ≡ length r.units + length batch → n + 1 ≡ length r.units + 1 + length batch
      later h = omega arith
