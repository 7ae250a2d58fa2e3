-- ===== src/ListParams/Parse.antt =====
-- `parse_list_params`: the limits, the search text and the ordering that a request asks for.
use powabase_ai.Prelude.{
  ℕ, ◌≤◌, ◌<◌, ◌≡◌, ◌≢◌, refl, ap, max, min, Bool, true, false, not, ◌&&◌, ◌||◌, Option, none, some,
  List, [], ◌∷◌, String, arith, ◌=s◌, =s_iff, if◌then◌else◌, take, length, length-take, ◌⊎◌, inl,
  inr, elem, Bool-cases,
}
use powabase_ai.Prelude.Int.{ℤ, pos, negsuc, min_ℤ, max_ℤ}

-- A numeric parameter: none if it is not sent, and within it what `int()` makes of the text, none
-- for ValueError.
abbrev pub RawInt : Type 0
RawInt = Option (Option ℤ)

-- `request.args`: the search text is given after `strip()`, as code points, and the order after
-- `lower()`.
pub record Args : Type 0 where
  pub limit : RawInt
  pub offset : RawInt
  pub q : Option (List ℕ)
  pub sort : Option String
  pub order : Option String

pub record ListParams : Type 0 where
  pub limit : Option ℤ
  pub offset : Option ℤ
  pub q : Option (List ℕ)
  pub sort : String
  pub order : String

-- ListParamsError, always with status 400, by the parameter that it names; and the failed assert.
pub data Parsed : Type 0 where
  parsed : ListParams → Parsed
  invalid_sort invalid_order : Parsed
  assertion_failed : Parsed

abbrev pub int_or : RawInt → ℤ → ℤ
int_or none default = default
int_or (some none) default = default
int_or (some (some n)) default = n

-- `args.get(name) or default`
abbrev pub text_or : Option String → String → String
text_or none default = default
text_or (some s) default = if s =s "" then default else s

abbrev pub search_text : Option (List ℕ) → Option (List ℕ)
search_text none = none
search_text (some []) = none
search_text (some (c ∷ rest)) = some (take 200 (c ∷ rest))

abbrev pub is_missing : RawInt → Bool
is_missing none = true
is_missing (some _) = false

unfoldable pub limit_of : RawInt → ℤ
limit_of raw = max_ℤ (pos 1) (min_ℤ (int_or raw (pos 50)) (pos 100))

unfoldable pub offset_of : RawInt → ℤ
offset_of raw = max_ℤ (pos 0) (int_or raw (pos 0))

unfoldable pub parse_list_params : Args → List String → Bool → Parsed
unfolding limit_of offset_of
parse_list_params args sort_allowed default_unpaginated =
    let unpaginated = default_unpaginated && (is_missing args.limit && is_missing args.offset) in
    let sort = text_or args.sort "created_at" in
    let order = text_or args.order "desc" in
    if not (elem "created_at" sort_allowed)
    then assertion_failed
    else if not (elem sort sort_allowed)
    then invalid_sort
    else if not ((order =s "asc") || (order =s "desc"))
    then invalid_order
    else parsed (record {
      limit = if unpaginated then none else some (limit_of args.limit);
      offset = if unpaginated then none else some (offset_of args.offset);
      q = search_text args.q;
      sort = sort;
      order = order;
    })

-- A page size from 1 to 100 and a start of at least 0; or neither, for an unpaginated endpoint whose
-- request sends neither.
abbrev pub PageBounds : Args → Bool → Option ℤ → Option ℤ → Type 0
PageBounds args default_unpaginated limit offset =
    ((limit ≡ none)
      × (offset ≡ none)
      × (args.limit ≡ none)
      × (args.offset ≡ none)
      × (default_unpaginated ≡ true))
    ⊎ ((l : ℕ) × (o : ℕ) × (limit ≡ some (pos l)) × (offset ≡ some (pos o)) × (1 ≤ l) × (l ≤ 100))

abbrev pub SearchBounds : Option (List ℕ) → Type 0
SearchBounds none = Unit
SearchBounds (some q) = (0 < length q) × (length q ≤ 200)

abbrev pub Outcome : Args → List String → Bool → Parsed → Type 0
Outcome args sort_allowed default_unpaginated (parsed p) =
    PageBounds args default_unpaginated p.limit p.offset
    × SearchBounds p.q
    × (elem p.sort sort_allowed ≡ true)
    × ((p.order ≡ "asc") ⊎ (p.order ≡ "desc"))
Outcome args sort_allowed default_unpaginated invalid_sort =
    elem (text_or args.sort "created_at") sort_allowed ≡ false
Outcome args sort_allowed default_unpaginated invalid_order =
    (text_or args.order "desc" ≢ "asc") × (text_or args.order "desc" ≢ "desc")
Outcome args sort_allowed default_unpaginated assertion_failed =
    elem "created_at" sort_allowed ≡ false

clamp_bounds : (z : ℤ) → (n : ℕ) × (max_ℤ (pos 1) (min_ℤ z (pos 100)) ≡ pos n) × (1 ≤ n) × (n ≤ 100)
clamp_bounds (pos n) = (max 1 (min n 100), ground arith, omega arith, omega arith)
clamp_bounds (negsuc n) = (1, refl, omega arith, omega arith)

floor_bounds : (z : ℤ) → (n : ℕ) × (max_ℤ (pos 0) z ≡ pos n)
floor_bounds (pos n) = (n, ground arith)
floor_bounds (negsuc n) = (0, refl)

search_text-SearchBounds : (q : Option (List ℕ)) → SearchBounds (search_text q)
search_text-SearchBounds none = tt
search_text-SearchBounds (some []) = tt
search_text-SearchBounds (some (c ∷ q)) = (omega arith, omega (arith, length-take 199 q))

order_cases :
    (s : String)
    → (((s =s "asc") || (s =s "desc")) ≡ true → (s ≡ "asc") ⊎ (s ≡ "desc"))
      × (((s =s "asc") || (s =s "desc")) ≡ false → (s ≢ "asc") × (s ≢ "desc"))
order_cases s = ground (arith, =s_iff s "asc", =s_iff s "desc")

paged :
    (args : Args) (default_unpaginated : Bool)
    → PageBounds args default_unpaginated
        (some (limit_of args.limit))
        (some (offset_of args.offset))
unfolding limit_of offset_of
paged args default_unpaginated =
    let (l, hl, low, high) = clamp_bounds (int_or args.limit (pos 50)) in
    let (o, ho) = floor_bounds (int_or args.offset (pos 0)) in
    inr (l, o, ap some hl, ap some ho, low, high)

missing_none : (raw : RawInt) → is_missing raw ≡ true → raw ≡ none
missing_none none h = refl
missing_none (some x) h = ground (arith, h)

page-PageBounds :
    (args : Args) (default_unpaginated : Bool)
    → let unpaginated = default_unpaginated && (is_missing args.limit && is_missing args.offset) in
      PageBounds args default_unpaginated
        (if unpaginated then none else some (limit_of args.limit))
        (if unpaginated then none else some (offset_of args.offset))
page-PageBounds args u =
    elim (Bool-cases (u && (is_missing args.limit && is_missing args.offset))) [
      | inl holds ↦ rw (holds) (
          inl (
            refl,
            refl,
            missing_none args.limit (ground (arith, holds)),
            missing_none args.offset (ground (arith, holds)),
            ground (arith, holds),
          ))
      | inr fails ↦ rw (fails) (paged args u)
    ]

-- A request is answered with a page size from 1 to 100 and a start of at least 0, or with neither
-- where the endpoint allows that and the request sends neither; with a search text of 1 to 200
-- characters, if any; with an allowed sort column; and with an order of asc or desc. The error for
-- the sort column is given only for one that is not allowed, the error for the order only for
-- another order, and the assertion fails only where the endpoint does not allow created_at.
parse_list_params-outcome :
    (args : Args) (sort_allowed : List String) (default_unpaginated : Bool)
    → Outcome args sort_allowed default_unpaginated
        (parse_list_params args sort_allowed default_unpaginated)
unfolding parse_list_params
parse_list_params-outcome args sort_allowed default_unpaginated =
    elim (Bool-cases (elem "created_at" sort_allowed)) [
      | inr fails ↦ rw (fails) fails
      | inl holds ↦ elim (Bool-cases (elem (text_or args.sort "created_at") sort_allowed)) [
        | inr bad ↦ rw (holds, bad) bad
        | inl good ↦
            elim (Bool-cases
              ((text_or args.order "desc" =s "asc") || (text_or args.order "desc" =s "desc"))) [
                | inr bad ↦ rw (holds, good, bad) ((order_cases (text_or args.order "desc")).1 bad)
                | inl ok ↦
                    rw (holds, good, ok)
                      (
                        page-PageBounds args default_unpaginated,
                        search_text-SearchBounds args.q,
                        good,
                        (order_cases (text_or args.order "desc")).0 ok,
                      )
              ]
      ]
    ]
