-- ===== src/RateLimit.antt =====
-- `RateLimiter` of services/rate_limit.py: a sliding window of calls for each key, in the memory of
-- one process. Times are integers of any unit; the monotonic clock does not go back.
pub mod Window
mod Tests
use powabase_ai.Prelude.{
  ℕ, ◌+◌, Bool, true, false, Option, none, some, List, [], ◌∷◌, ◌++◌, String, leb, ltb, ◌=s◌,
  if◌then◌else◌, keep, length,
}

-- `_requests`, a dictionary of lists of times
pub record Limiter : Type 0 where
  pub max_requests : ℕ
  pub window : ℕ
  pub requests : String → Option (List ℕ)

-- `now - t < self.window`, for a time `t` that is not after `now`
abbrev pub in_window : ℕ → ℕ → ℕ → Bool
in_window window now t = ltb now (t + window)

abbrev pub recorded : Option (List ℕ) → List ℕ
recorded none = []
recorded (some timestamps) = timestamps

abbrev pub entry_of : Option (List ℕ) → List ℕ → Option (List ℕ)
entry_of none timestamps = none
entry_of (some old) [] = none
entry_of (some old) (t ∷ ts) = some old

abbrev pub put : (String → Option (List ℕ)) → String → Option (List ℕ) → String → Option (List ℕ)
put requests key v k = if key =s k then v else requests k

-- RateLimiter.is_allowed, with the reading of the clock
unfoldable pub is_allowed : ℕ → String → Limiter → Bool × Limiter
is_allowed now key r =
    let timestamps = keep (in_window r.window now) (recorded (r.requests key)) in
    -- the entry of a key with nothing in the window is deleted first
    let pruned = put r.requests key (entry_of (r.requests key) timestamps) in
    if leb r.max_requests (length timestamps)
    then (false, record r { requests = put pruned key (some timestamps) })
    else (true, record r { requests = put pruned key (some (timestamps ++ now ∷ [])) })

-- The log has the times at which calls of `key` were allowed.
abbrev pub logged : String → ℕ → String → Bool → List ℕ → List ℕ
logged key now k ok log = if k =s key then (if ok then log ++ now ∷ [] else log) else log

-- The calls of all threads, in the order in which they take the lock.
unfoldable pub allowed_times : String → List (ℕ × String) → Limiter → List ℕ → List ℕ × Limiter
allowed_times key [] r log = (log, r)
allowed_times key ((now, k) ∷ rest) r log =
    let (ok, r') = is_allowed now k r in allowed_times key rest r' (logged key now k ok log)
