-- ===== src/Gate/Slots/Heartbeat.antt =====
-- `LargeExtractionSlot._renew_until_released` of services/extraction_gate.py: the thread that
-- renews a slot's lease, and the cap on how long it does.
use powabase_ai.Prelude.{
  ℕ, ◌+◌, ◌-◌, ◌*◌, ◌<◌, ◌≡◌, Bool, true, false, List, [], ◌∷◌, arith, leb, if◌then◌else◌, All,
  ◌++◌, ◌⊎◌,
}
use powabase_ai.Gate.Slots.{Renewal, lost, lease, second}

-- max_hold_seconds, in microseconds, of the task time limit in seconds. Where Python's difference
-- is negative this one is 0: either way the first waking gives up.
unfoldable pub max_hold : ℕ → ℕ
max_hold time_limit = time_limit * second - lease - 60 * second

-- One return of `self._stop.wait(RENEW_SECONDS)`: whether the slot was released, the monotonic
-- clock, and what the gate answers if it is asked.
pub record Waking : Type 0 where
  pub stopped : Bool
  pub clock : ℕ
  pub answer : Renewal

abbrev is_lost : Renewal → Bool
is_lost lost = true
is_lost _ = false

-- The clock values at which the thread asks for a renewal, for the wakings of its life.
unfoldable pub renewals : ℕ → List Waking → List ℕ
renewals give_up_at [] = []
renewals give_up_at (w ∷ rest) =
    let later = renewals give_up_at rest in
    if w.stopped
    then []
    else if leb give_up_at w.clock
    then []
    else if is_lost w.answer
    then w.clock ∷ []
    else w.clock ∷ later

-- `_renew_until_released` from its start
unfoldable pub renew_until_released : ℕ → ℕ → List Waking → List ℕ
unfolding max_hold renewals
renew_until_released time_limit start = renewals (start + max_hold time_limit)

renewals_before : (g : ℕ) (ws : List Waking) → All (λ t. t < g) (renewals g ws)
unfolding renewals
renewals_before g [] = tt
renewals_before g (w ∷ rest) = ground (arith, renewals_before g rest)

All-weaken : (p q : ℕ → Type 0) (xs : List ℕ) → ((x : ℕ) → p x → q x) → All p xs → All q xs
All-weaken p q [] h a = tt
All-weaken p q (x ∷ xs) h a = (h x a.0, All-weaken p q xs h a.1)

-- With a task time limit of over six minutes, a lease that the thread asks for ends a minute or
-- more before the time limit counted from the start of the thread, whatever the gate answers.
renew_until_released-within :
    (time_limit start : ℕ) (ws : List Waking)
    → 360 < time_limit
    → All
        (λ t. t + lease + 60 * second < start + time_limit * second)
        (renew_until_released time_limit start ws)
unfolding renew_until_released
renew_until_released-within time_limit start ws h =
    All-weaken _ _ _ (λ t b. omega arith) (renewals_before (start + max_hold time_limit) ws)

-- A renewal answered with LOST, or a release, is the last thing that the thread acts on.
renewals_stop :
    (g : ℕ) (before after : List Waking) (w : Waking)
    → (w.stopped ≡ true) ⊎ (w.answer ≡ lost)
    → renewals g (before ++ w ∷ after) ≡ renewals g (before ++ w ∷ [])
unfolding renewals
renewals_stop g [] after w h = ground arith
renewals_stop g (v ∷ before) after w h = ground (arith, renewals_stop g before after w h)
