-- ===== src/Gate/Slots/Leases.antt =====
-- Leases last as long as they were promised, and a lease that has lapsed is not revived.
use powabase_ai.Prelude.{
  InOrder, InOrder-le, ℕ, ◌+◌, ◌≤◌, ◌<◌, ◌≡◌, Bool, true, false, Option, none, some, List, [], ◌∷◌,
  String, arith, leb, ◌=s◌, =s_iff, =s_refl,
}
use powabase_ai.Redis.{SortedSets}
use powabase_ai.Gate.Slots

-- Whether a call releases this token, or takes a slot by it.
abbrev pub releases : {r : SortedSets} → String → Slots.Call r → Bool
releases token (Slots.releasing l k) = k =s token
releases token _ = false

abbrev pub acquires : {r : SortedSets} → String → Slots.Call r → Bool
acquires token (Slots.acquiring l k) = k =s token
acquires token _ = false

module _ (r : SortedSets) where
  open r use {
    ZSet, no_members, zscore, zcard, zadd, zrem, zremrangebyscore, zscore-zadd, zscore-zrem,
    zscore-zremrange, zscore-empty,
  }

  abbrev NoCall : (Slots.Call r → Bool) → List (ℕ × Slots.Call r) → Type 0
  NoCall p [] = Unit
  NoCall p ((now, c) ∷ rest) = (p c ≡ false) × NoCall p rest

  abbrev lasts : ℕ → Option ℕ → Bool
  lasts until none = false
  lasts until (some expires) = leb until expires

  -- The lease of `token` is good until `until`, and so is the key.
  record Promised (token : String) (until : ℕ) (st : Slots.Slots r) : Type 0 where
    in_time : lasts until (zscore st.leases token) ≡ true
    key_in_time : until ≤ st.deadline

  -- The lease of `token`, if it has one, has lapsed by `now`.
  abbrev lapsed : ℕ → Option ℕ → Bool
  lapsed now none = true
  lapsed now (some expires) = leb expires now

  module _ (limit now until : ℕ) (token : String) (st : Slots.Slots r) (early : now < until) where
    Promised-acquire :
        (k : String)
        → until ≤ now + Slots.lease
        → Promised token until st
        → Promised token until (Slots.acquire_script r now limit k st).1
    unfolding Slots.acquire_script
    Promised-acquire k h p = ground (
      arith,
      zscore-zadd (zremrangebyscore st.leases now) (now + Slots.lease) k token,
      zscore-zremrange st.leases now token,
    )

    Promised-renew :
        (k : String)
        → until ≤ now + Slots.lease
        → Promised token until st
        → Promised token until (Slots.renew_script r now k st).1
    unfolding Slots.renew_script
    Promised-renew k h p = ground (arith, zscore-zadd st.leases (now + Slots.lease) k token)

    Promised-release :
        (l : Slots.Link) (k : String)
        → (k =s token) ≡ false
        → Promised token until st
        → Promised token until (Slots.release r l now k st)
    unfolding Slots.release
    Promised-release l k h p = ground (arith, zscore-zrem st.leases k token)

    Promised-perform :
        (c : Slots.Call r)
        → until ≤ now + Slots.lease
        → releases token c ≡ false
        → Promised token until st
        → Promised token until (Slots.perform r limit now c st)
    unfolding Slots.perform Slots.try_acquire Slots.renew
    Promised-perform (Slots.acquiring Slots.up k) h n p = Promised-acquire k h p
    Promised-perform (Slots.acquiring Slots.down k) h n p = p
    Promised-perform (Slots.acquiring Slots.cut k) h n p = Promised-acquire k h p
    Promised-perform (Slots.renewing Slots.up k) h n p = Promised-renew k h p
    Promised-perform (Slots.renewing Slots.down k) h n p = p
    Promised-perform (Slots.renewing Slots.cut k) h n p = Promised-renew k h p
    Promised-perform (Slots.releasing l k) h n p = Promised-release l k n p
    Promised-perform (Slots.reading l k) h n p = p

  Promised-serve :
      (limit t u until : ℕ) (token : String) (calls : List (ℕ × Slots.Call r)) (st : Slots.Slots r)
      → InOrder t calls u
      → u < until
      → until ≤ t + Slots.lease
      → NoCall (releases token) calls
      → Promised token until st
      → Promised token until (Slots.serve r limit calls st)
  unfolding Slots.serve
  Promised-serve limit t u until token [] st o early h n p = p
  Promised-serve limit t u until token ((now, c) ∷ rest) st o early h n p =
      Promised-serve limit now u until token rest (Slots.perform r limit now c st) o.1 early
        (omega (arith, o.0)) n.1
        (Promised-perform limit now until token st (omega (arith, InOrder-le rest now u o.1)) c
          (omega (arith, o.0)) n.0 p)

  Promised-live :
      (u until : ℕ) (token : String) (st : Slots.Slots r)
      → u < until
      → Promised token until st
      → Slots.is_live r Slots.up u token st ≡ true
  unfolding Slots.is_live
  Promised-live u until token st h p = ground arith

  acquire-Promised :
      (t limit : ℕ) (token k : String) (st : Slots.Slots r)
      → (Slots.try_acquire r Slots.up t limit token st).0 ≡ Slots.slot k
      → Promised token (t + Slots.lease) (Slots.try_acquire r Slots.up t limit token st).1
  unfolding Slots.try_acquire
  acquire-Promised t limit token k st h = ground (
    arith,
    zscore-zadd (zremrangebyscore (Slots.found r t st) t) (t + Slots.lease) token token,
    =s_refl token,
  )

  -- A slot taken at `t` is live at every `u` before its lease ends, whatever calls the workers make
  -- in between, unless one of them releases its token.
  pub try_acquire-lasts :
      (limit t u : ℕ) (token k : String) (calls : List (ℕ × Slots.Call r)) (st : Slots.Slots r)
      → (Slots.try_acquire r Slots.up t limit token st).0 ≡ Slots.slot k
      → InOrder t calls u
      → u < t + Slots.lease
      → NoCall (releases token) calls
      → Slots.is_live r Slots.up u token
          (Slots.serve r limit calls (Slots.try_acquire r Slots.up t limit token st).1)
        ≡ true
  try_acquire-lasts limit t u token k calls st got o early n =
      Promised-live u (t + Slots.lease) token _ early (
        Promised-serve limit t u (t + Slots.lease) token calls _ o early (omega arith) n
          (acquire-Promised t limit token k st got))

  -- What a read at `now` finds of the token's lease has lapsed, or is not there.
  abbrev Lapsed : String → ℕ → Slots.Slots r → Type 0
  Lapsed token now st = lapsed now (zscore (Slots.found r now st) token) ≡ true

  Lapsed-later :
      (t u : ℕ) (token : String) (st : Slots.Slots r)
      → t ≤ u
      → Lapsed token t st
      → Lapsed token u st
  Lapsed-later t u token st h d = ground (arith, zscore-empty token)

  module _ (limit now : ℕ) (token : String) (st : Slots.Slots r) (dead : Lapsed token now st) where
    Lapsed-acquire :
        (k : String)
        → (k =s token) ≡ false
        → Lapsed token now (Slots.acquire_script r now limit k st).1
    unfolding Slots.acquire_script
    Lapsed-acquire k h =
        let f = Slots.found r now st in
        ground (
          arith,
          zscore-zadd (zremrangebyscore f now) (now + Slots.lease) k token,
          zscore-zremrange f now token,
          zscore-empty token,
        )

    Lapsed-renew : (k : String) → Lapsed token now (Slots.renew_script r now k st).1
    unfolding Slots.renew_script
    Lapsed-renew k =
        let f = Slots.found r now st in
        ground (arith, zscore-zadd f (now + Slots.lease) k token, =s_iff k token)

    Lapsed-release : (l : Slots.Link) (k : String) → Lapsed token now (Slots.release r l now k st)
    unfolding Slots.release
    Lapsed-release l k =
        let f = Slots.found r now st in ground (arith, zscore-zrem f k token, zscore-empty token)

    Lapsed-perform :
        (c : Slots.Call r)
        → acquires token c ≡ false
        → Lapsed token now (Slots.perform r limit now c st)
    unfolding Slots.perform Slots.try_acquire Slots.renew
    Lapsed-perform (Slots.acquiring Slots.up k) n = Lapsed-acquire k n
    Lapsed-perform (Slots.acquiring Slots.down k) n = dead
    Lapsed-perform (Slots.acquiring Slots.cut k) n = Lapsed-acquire k n
    Lapsed-perform (Slots.renewing Slots.up k) n = Lapsed-renew k
    Lapsed-perform (Slots.renewing Slots.down k) n = dead
    Lapsed-perform (Slots.renewing Slots.cut k) n = Lapsed-renew k
    Lapsed-perform (Slots.releasing l k) n = Lapsed-release l k
    Lapsed-perform (Slots.reading l k) n = dead

  Lapsed-serve :
      (limit t u : ℕ) (token : String) (calls : List (ℕ × Slots.Call r)) (st : Slots.Slots r)
      → InOrder t calls u
      → NoCall (acquires token) calls
      → Lapsed token t st
      → Lapsed token u (Slots.serve r limit calls st)
  unfolding Slots.serve
  Lapsed-serve limit t u token [] st o n d = Lapsed-later t u token st o d
  Lapsed-serve limit t u token ((now, c) ∷ rest) st o n d =
      Lapsed-serve limit now u token rest (Slots.perform r limit now c st) o.1 n.1
        (Lapsed-perform limit now token st (Lapsed-later t now token st o.0 d) c n.0)

  -- A token that a reading at `t` finds dead is found dead, and its renewal answered with LOST, at
  -- every later time `u`, whatever calls are made in between, unless one takes a slot by the token.
  pub lapsed_for_good :
      (limit t u : ℕ) (token : String) (calls : List (ℕ × Slots.Call r)) (st : Slots.Slots r)
      → Slots.is_live r Slots.up t token st ≡ false
      → InOrder t calls u
      → NoCall (acquires token) calls
      → (Slots.is_live r Slots.up u token (Slots.serve r limit calls st) ≡ false)
        × ((Slots.renew r Slots.up u token (Slots.serve r limit calls st)).0 ≡ Slots.lost)
  unfolding Slots.is_live Slots.renew
  lapsed_for_good limit t u token calls st dead o n =
      ground (arith, Lapsed-serve limit t u token calls st o n (ground arith))
