-- ===== src/Gate/Slots/Capacity.antt =====
-- At most the configured number of leases is live.
use powabase_ai.Prelude.{InOrder, ℕ, ◌+◌, ◌≤◌, List, [], ◌∷◌, String, arith}
use powabase_ai.Redis.{SortedSets}
use powabase_ai.Gate.Slots

module _ (r : SortedSets) where
  open r use {
    ZSet, no_members, zscore, zcard, zadd, zrem, zremrangebyscore, zcard-zadd, zcard-zrem,
    zremrange-zadd, zremrange-zrem, zremrange-zremrange, zremrange-empty, zcard-zremrange-le,
    zcard-empty, zscore-zremrange,
  }

  -- How many leases run past `now`.
  unfoldable pub live_count : ℕ → Slots.Slots r → ℕ
  live_count now st = zcard (zremrangebyscore (Slots.found r now st) now)

  -- Leases only lapse as time goes on.
  pub live_count-later : (t u : ℕ) (st : Slots.Slots r) → t ≤ u → live_count u st ≤ live_count t st
  unfolding live_count
  live_count-later t u st h = ground (
    arith,
    zcard-zremrange-le (zremrangebyscore st.leases t) u,
    zremrange-zremrange st.leases t u h,
    zcard-zremrange-le no_members u,
    zremrange-empty u,
    zremrange-empty t,
    zcard-empty,
  )

  module _ (limit now : ℕ) (token : String) (st : Slots.Slots r) where
    live_count-acquire :
        live_count now st ≤ limit
        → live_count now (Slots.acquire_script r now limit token st).1 ≤ limit
    unfolding live_count Slots.acquire_script
    live_count-acquire h =
        let z = zremrangebyscore (Slots.found r now st) now in
        ground (
          arith,
          zremrange-zadd z (now + Slots.lease) now token,
          zremrange-zremrange (Slots.found r now st) now now (omega arith),
          zcard-zadd z (now + Slots.lease) token,
          zremrange-empty now,
          zcard-empty,
        )

    live_count-renew : live_count now (Slots.renew_script r now token st).1 ≤ live_count now st
    unfolding live_count Slots.renew_script
    live_count-renew =
        let f = Slots.found r now st in
        ground (
          arith,
          zremrange-zadd f (now + Slots.lease) now token,
          zcard-zadd (zremrangebyscore f now) (now + Slots.lease) token,
          zscore-zremrange f now token,
        )

    live_count-release :
        (l : Slots.Link) → live_count now (Slots.release r l now token st) ≤ live_count now st
    unfolding live_count Slots.release
    live_count-release l =
        let f = Slots.found r now st in
        ground (
          arith,
          zremrange-zrem f now token,
          zcard-zrem (zremrangebyscore f now) token,
          zremrange-empty now,
          zcard-empty,
        )

  live_count-perform :
      (limit now : ℕ) (c : Slots.Call r) (st : Slots.Slots r)
      → live_count now st ≤ limit
      → live_count now (Slots.perform r limit now c st) ≤ limit
  unfolding Slots.perform Slots.try_acquire Slots.renew
  live_count-perform limit now (Slots.acquiring l token) st h =
      ground (arith, live_count-acquire limit now token st h)
  live_count-perform limit now (Slots.renewing l token) st h =
      ground (arith, live_count-renew limit now token st)
  live_count-perform limit now (Slots.releasing l token) st h =
      omega (arith, live_count-release limit now token st l)
  live_count-perform limit now (Slots.reading l token) st h = h

  -- From a key with at most `limit` live leases, whatever calls all workers make and whichever of
  -- them fail, at most `limit` leases are live after the last of them.
  pub live_count-serve :
      (limit t u : ℕ) (calls : List (ℕ × Slots.Call r)) (st : Slots.Slots r)
      → InOrder t calls u
      → live_count t st ≤ limit
      → live_count u (Slots.serve r limit calls st) ≤ limit
  unfolding Slots.serve
  live_count-serve limit t u [] st o h = omega (arith, live_count-later t u st o)
  live_count-serve limit t u ((now, c) ∷ rest) st o h =
      live_count-serve limit now u rest (Slots.perform r limit now c st) o.1
        (live_count-perform limit now c st (omega (arith, live_count-later t now st o.0)))
