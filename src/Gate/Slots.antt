-- ===== src/Gate/Slots.antt =====
-- `LargeExtractionGate` of services/extraction_gate.py: a counting semaphore of leases in Redis.
-- The Lua scripts are functions of the Redis key, with times in microseconds (`TIME` of Redis
-- gives seconds and microseconds); the sorted-set commands are those of the parameter.
pub mod Capacity
pub mod Leases
pub mod Heartbeat
use powabase_ai.Prelude.{
  ℕ, ◌+◌, ◌*◌, ◌≤◌, Bool, true, false, Option, none, some, List, [], ◌∷◌, String, leb, ltb,
  if◌then◌else◌,
}
use powabase_ai.Redis.{SortedSets}

abbrev pub second : ℕ
second = 1000000

-- LEASE_SECONDS
abbrev pub lease : ℕ
lease = 300 * second

-- What became of one Redis call: answered, never executed, or executed with the reply lost. The
-- last two raise in the caller.
pub data Link : Type 0 where
  up down cut : Link

pub data Renewal : Type 0 where
  renewed lost error : Renewal

-- What `try_acquire` returns: a slot with a token, a slot without one (the gate could not be
-- asked), or None.
pub data Attempt : Type 0 where
  slot : String → Attempt
  ungated : Attempt
  refused : Attempt

module _ (r : SortedSets) where
  open r use {ZSet, no_members, zscore, zcard, zadd, zrem, zremrangebyscore}

  -- The key's sorted set, and when its EXPIRE removes it whole.
  pub record Slots : Type 0 where
    pub leases : ZSet
    pub deadline : ℕ

  -- What a command at time `now` finds under the key.
  abbrev pub found : ℕ → Slots → ZSet
  found now st = if leb st.deadline now then no_members else st.leases

  -- _ACQUIRE_LUA
  unfoldable pub acquire_script : ℕ → ℕ → String → Slots → Bool × Slots
  acquire_script now max_holders token st =
      let pruned = zremrangebyscore (found now st) now in
      if ltb (zcard pruned) max_holders
      then (true, record { leases = zadd pruned (now + lease) token; deadline = now + lease * 2 })
      else (false, record { leases = pruned; deadline = st.deadline })

  -- the test of the renewing and of the reading script: `expires and tonumber(expires) > now`
  abbrev pub unexpired : ℕ → Option ℕ → Bool
  unexpired now none = false
  unexpired now (some expires) = ltb now expires

  -- _RENEW_LUA
  unfoldable pub renew_script : ℕ → String → Slots → Bool × Slots
  renew_script now token st =
      if unexpired now (zscore (found now st) token)
      then (
        true,
        record { leases = zadd (found now st) (now + lease) token; deadline = now + lease * 2 },
      )
      else (false, st)

  -- _LIVE_LUA
  unfoldable pub live_script : ℕ → String → Slots → Bool
  live_script now token st = unexpired now (zscore (found now st) token)

  -- LargeExtractionGate.try_acquire; the token is `task_id` and a fresh uuid
  unfoldable pub try_acquire : Link → ℕ → ℕ → String → Slots → Attempt × Slots
  unfolding acquire_script
  try_acquire up now max_holders token st =
      let (taken, st') = acquire_script now max_holders token st in
      (if taken then slot token else refused, st')
  try_acquire down now max_holders token st = (ungated, st)
  try_acquire cut now max_holders token st = (ungated, (acquire_script now max_holders token st).1)

  -- LargeExtractionGate.renew
  unfoldable pub renew : Link → ℕ → String → Slots → Renewal × Slots
  unfolding renew_script
  renew up now token st =
      let (ok, st') = renew_script now token st in (if ok then renewed else lost, st')
  renew down now token st = (error, st)
  renew cut now token st = (error, (renew_script now token st).1)

  -- LargeExtractionGate.is_live
  unfoldable pub is_live : Link → ℕ → String → Slots → Bool
  unfolding live_script
  is_live up now token st = live_script now token st
  is_live _ now token st = false

  -- LargeExtractionGate._release
  unfoldable pub release : Link → ℕ → String → Slots → Slots
  release down now token st = st
  release _ now token st = record { leases = zrem (found now st) token; deadline = st.deadline }

  -- One call of the gate by any worker.
  pub data Call : Type 0 where
    acquiring renewing releasing reading : Link → String → Call

  unfoldable pub perform : ℕ → ℕ → Call → Slots → Slots
  perform limit now (acquiring l token) st = (try_acquire l now limit token st).1
  perform limit now (renewing l token) st = (renew l now token st).1
  perform limit now (releasing l token) st = release l now token st
  perform limit now (reading l token) st = st

  -- The calls of all workers, in the order in which Redis serves them, each with its time.
  unfoldable pub serve : ℕ → List (ℕ × Call) → Slots → Slots
  serve limit [] st = st
  serve limit ((now, c) ∷ rest) st = serve limit rest (perform limit now c st)
