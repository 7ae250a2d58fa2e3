-- ===== src/Redis/Ranked.antt =====
-- Redis sorted sets with scores that may be infinite, and the reading of their highest score.
use powabase_ai.Prelude.{
  ℕ, ◌≡◌, refl, Bool, true, false, Option, none, some, List, [], ◌∷◌, String, arith, leb, ◌=s◌,
  =s_iff, Bool-cases, ◌⊎◌, inl, inr, if◌then◌else◌,
}

pub data Score : Type 0 where
  finite : ℕ → Score
  infinite : Score

abbrev pub score_le : Score → Score → Bool
score_le a infinite = true
score_le infinite (finite b) = false
score_le (finite a) (finite b) = leb a b

-- Whether a highest score is there and is no less than `y`.
abbrev pub covers : Option Score → Score → Bool
covers none y = false
covers (some x) y = score_le y x

pub record RankedSets : Type 1 where
  pub ZSet : Type 0
  pub no_members : ZSet
  pub zscore : ZSet → String → Option Score
  pub zadd : ZSet → Score → String → ZSet
  pub zrem : ZSet → String → ZSet
  -- the score of ZREVRANGE key 0 0 WITHSCORES
  pub zrevrange_top : ZSet → Option Score
  pub zscore-empty : (m : String) → zscore no_members m ≡ none
  pub zscore-zadd :
      (s : ZSet) (x : Score) (m k : String)
      → zscore (zadd s x m) k ≡ (if m =s k then some x else zscore s k)
  pub zscore-zrem :
      (s : ZSet) (m k : String) → zscore (zrem s m) k ≡ (if m =s k then none else zscore s k)
  -- the highest score is a member's, and no member's is higher
  pub top_member :
      (s : ZSet) (x : Score) → zrevrange_top s ≡ some x → (m : String) × (zscore s m ≡ some x)
  pub top_highest :
      (s : ZSet) (m : String) (y : Score) → zscore s m ≡ some y → covers (zrevrange_top s) y ≡ true

abbrev pub Entries : Type 0
Entries = List (String × Score)

unfoldable pub score_of : Entries → String → Option Score
score_of [] k = none
score_of ((m, x) ∷ s) k = if m =s k then some x else score_of s k

unfoldable pub without : Entries → String → Entries
without [] k = []
without ((m, x) ∷ s) k = let rest = without s k in if m =s k then rest else (m, x) ∷ rest

pub score_of-without :
    (s : Entries) (m k : String)
    → score_of (without s m) k ≡ (if m =s k then none else score_of s k)
unfolding score_of without
score_of-without [] m k = ground arith
score_of-without ((j, x) ∷ s) m k =
    ground (arith, score_of-without s m k, =s_iff j m, =s_iff j k, =s_iff m k)

unfoldable pub join : Option Score → Option Score → Option Score
join none b = b
join (some a) none = some a
join (some a) (some b) = some (if score_le a b then b else a)

-- The highest score among the members that `walk` names, as `s` has them.
unfoldable pub top_of : Entries → Entries → Option Score
top_of s [] = none
top_of s ((m, x) ∷ walk) = join (score_of s m) (top_of s walk)

join-cases : (a b : Option Score) (x : Score) → join a b ≡ some x → (a ≡ some x) ⊎ (b ≡ some x)
unfolding join
join-cases none b x h = inr h
join-cases (some a) none x h = inl h
join-cases (some a) (some b) x h = ground arith

top_of-member :
    (s walk : Entries) (x : Score) → top_of s walk ≡ some x → (m : String) × (score_of s m ≡ some x)
unfolding top_of
top_of-member s [] x h = cc
top_of-member s ((m, _) ∷ walk) x h = elim (join-cases (score_of s m) (top_of s walk) x h) [
  | inl e ↦ (m, e)
  | inr e ↦ top_of-member s walk x e
]

score_le_refl : (a : Score) → score_le a a ≡ true
score_le_refl (finite a) = ground arith
score_le_refl infinite = refl

covers-join :
    (a b : Option Score) (y : Score)
    → (covers a y ≡ true) ⊎ (covers b y ≡ true)
    → covers (join a b) y ≡ true
unfolding join
covers-join none b y (inl h) = cc
covers-join none b y (inr h) = h
covers-join (some a) none y (inl h) = h
covers-join (some a) none y (inr h) = cc
covers-join (some infinite) (some b) y h = ground arith
covers-join (some (finite a)) (some b) y h = ground arith

top_of-highest :
    (s walk : Entries) (m : String) (y z : Score)
    → score_of walk m ≡ some z
    → score_of s m ≡ some y
    → covers (top_of s walk) y ≡ true
unfolding top_of score_of
top_of-highest s [] m y z h e = cc
top_of-highest s ((j, x) ∷ walk) m y z h e = elim (Bool-cases (j =s m)) [
  | inl same ↦ covers-join (score_of s j) (top_of s walk) y (inl (covers-own same))
  | inr other ↦
      covers-join (score_of s j) (top_of s walk) y
        (inr (top_of-highest s walk m y z (ground arith) e))
]
  where
    covers-own : (j =s m) ≡ true → covers (score_of s j) y ≡ true
    covers-own same = ground (arith, =s_iff j m, score_le_refl y)

pub score_of-with :
    (s : Entries) (x : Score) (m k : String)
    → score_of ((m, x) ∷ s) k ≡ (if m =s k then some x else score_of s k)
unfolding score_of
score_of-with s x m k = refl

pub score_of-nil : (k : String) → score_of [] k ≡ none
unfolding score_of
score_of-nil k = refl

pub top_of-member_self :
    (s : Entries) (x : Score) → top_of s s ≡ some x → (m : String) × (score_of s m ≡ some x)
top_of-member_self s x h = top_of-member s s x h

pub top_of-highest_self :
    (s : Entries) (m : String) (y : Score) → score_of s m ≡ some y → covers (top_of s s) y ≡ true
top_of-highest_self s m y h = top_of-highest s s m y y h h

-- The interface over lists in which a later entry of a member is ignored.
abbrev pub ranked_lists : RankedSets
unfolding score_of without top_of join
ranked_lists = record {
  ZSet = Entries;
  no_members = [];
  zscore = score_of;
  zadd = λ s x m. (m, x) ∷ s;
  zrem = without;
  zrevrange_top = λ s. top_of s s;
  zscore-empty = score_of-nil;
  zscore-zadd = score_of-with;
  zscore-zrem = score_of-without;
  top_member = top_of-member_self;
  top_highest = top_of-highest_self;
}
