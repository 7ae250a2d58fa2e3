-- ===== src/RateLimit/Tests.antt =====
-- A limiter of two calls in ten units of time.
use powabase_ai.Prelude.{ℕ, ◌≤◌, ◌≡◌, refl, false, none, List, [], ◌∷◌, String, arith, keep, length}
use powabase_ai.RateLimit.{Limiter, in_window, is_allowed, allowed_times}
use powabase_ai.RateLimit.Window.{allowed_times-window}

abbrev fresh : Limiter
fresh = record { max_requests = 2; window = 10; requests = λ k. none }

abbrev calls : List (ℕ × String)
calls = (1, "u") ∷ (2, "v") ∷ (3, "u") ∷ (4, "u") ∷ (11, "u") ∷ []

allowed_at : (allowed_times "u" calls fresh []).0 ≡ 1 ∷ 3 ∷ 11 ∷ []
unfolding allowed_times is_allowed
allowed_at = refl

allowed_times-window_example :
    let (log, r') = allowed_times "u" calls fresh [] in
    (length (keep (in_window 10 12) log) ≤ 2)
    × ((is_allowed 12 "u" r').0 ≡ false → length (keep (in_window 10 12) log) ≡ 2)
allowed_times-window_example = allowed_times-window "u" 0 12 calls fresh refl (omega arith)
