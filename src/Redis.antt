-- ===== src/Redis.antt =====
-- What the service relies on of its Redis server, which is not code of the repository: the
-- documented behaviour of the sorted-set commands, as an interface. `Redis.Assoc` meets it.
pub mod Assoc
pub mod Ranked
pub mod Keys
pub mod Ranged
use powabase_ai.Prelude.{
  ℕ, zero, suc, ◌+◌, ◌≤◌, ◌≡◌, Option, none, some, String, leb, ◌=s◌, if◌then◌else◌,
}

-- The elements of one key of type ZSET: each member has one score.
pub record SortedSets : Type 1 where
  pub ZSet : Type 0
  pub no_members : ZSet
  -- ZSCORE key member
  pub zscore : ZSet → String → Option ℕ
  -- ZCARD key
  pub zcard : ZSet → ℕ
  -- ZADD key score member
  pub zadd : ZSet → ℕ → String → ZSet
  -- ZREM key member
  pub zrem : ZSet → String → ZSet
  -- ZREMRANGEBYSCORE key -inf score
  pub zremrangebyscore : ZSet → ℕ → ZSet
  pub zscore-empty : (m : String) → zscore no_members m ≡ none
  pub zscore-zadd :
      (s : ZSet) (x : ℕ) (m k : String)
      → zscore (zadd s x m) k ≡ (if m =s k then some x else zscore s k)
  pub zscore-zrem :
      (s : ZSet) (m k : String) → zscore (zrem s m) k ≡ (if m =s k then none else zscore s k)
  pub zscore-zremrange :
      (s : ZSet) (t : ℕ) (k : String)
      → zscore (zremrangebyscore s t) k
        ≡ elim (zscore s k) [ none ↦ none | some x ↦ if leb x t then none else some x ]
  pub zcard-empty : zcard no_members ≡ 0
  -- a new member counts one, a member that is there keeps the count
  pub zcard-zadd :
      (s : ZSet) (x : ℕ) (m : String)
      → zcard (zadd s x m) ≡ elim (zscore s m) [ none ↦ suc (zcard s) | some _ ↦ zcard s ]
  pub zcard-zrem :
      (s : ZSet) (m : String)
      → zcard s ≡ elim (zscore s m) [ none ↦ zcard (zrem s m) | some _ ↦ suc (zcard (zrem s m)) ]
  -- adding and pruning meet in one way: the member is pruned, or stands in the pruned set
  pub zremrange-zadd :
      (s : ZSet) (x t : ℕ) (m : String)
      → zremrangebyscore (zadd s x m) t
        ≡ (if leb x t then zremrangebyscore (zrem s m) t else zadd (zremrangebyscore s t) x m)
  pub zremrange-zrem :
      (s : ZSet) (t : ℕ) (m : String)
      → zremrangebyscore (zrem s m) t ≡ zrem (zremrangebyscore s t) m
  -- pruning up to `t` after pruning up to an earlier time is pruning up to `t`
  pub zremrange-zremrange :
      (s : ZSet) (u t : ℕ)
      → u ≤ t
      → zremrangebyscore (zremrangebyscore s u) t ≡ zremrangebyscore s t
  pub zremrange-empty : (t : ℕ) → zremrangebyscore no_members t ≡ no_members
  pub zcard-zremrange-le : (s : ZSet) (t : ℕ) → zcard (zremrangebyscore s t) ≤ zcard s
