-- ===== src/Redis/Ranged.antt =====
-- Redis sorted sets that are also read by score, over those of `Redis`.
use powabase_ai.Prelude.{
  ℕ, ◌≡◌, refl, Bool, true, false, Option, none, some, List, [], ◌∷◌, String, arith, leb, =s_iff,
  elem, if◌then◌else◌,
}
use powabase_ai.Redis.{SortedSets}
use powabase_ai.Redis.Assoc.{Entries, score_of, distinct, with_member, without, above, assoc_sets}

abbrev pub is_up_to : ℕ → Option ℕ → Bool
is_up_to t none = false
is_up_to t (some x) = leb x t

pub record RangedSets : Type 1 where
  pub sets : SortedSets
  -- ZRANGEBYSCORE key -inf score
  pub zrangebyscore : sets.ZSet → ℕ → List String
  pub elem-zrangebyscore :
      (s : sets.ZSet) (t : ℕ) (m : String)
      → elem m (zrangebyscore s t) ≡ is_up_to t (sets.zscore s m)

-- The members of a list up to a score, in the list's order.
unfoldable pub members_up_to : Entries → ℕ → List String
members_up_to [] t = []
members_up_to ((m, x) ∷ s) t = let rest = members_up_to s t in if leb x t then m ∷ rest else rest

pub elem-members_up_to :
    (s : Entries) (t : ℕ) (m : String)
    → distinct s ≡ true
    → elem m (members_up_to s t) ≡ is_up_to t (score_of s m)
unfolding distinct score_of members_up_to
elem-members_up_to [] t m d = refl
elem-members_up_to ((j, x) ∷ s) t m d =
    ground (arith, elem-members_up_to s t m (ground arith), =s_iff j m, =s_iff m j)

abbrev pub ranged_lists : RangedSets
unfolding distinct score_of with_member without above members_up_to
ranged_lists = record {
  sets = assoc_sets;
  zrangebyscore = λ s t. members_up_to s.0 t;
  elem-zrangebyscore = λ s t m. elem-members_up_to s.0 t m s.1;
}
