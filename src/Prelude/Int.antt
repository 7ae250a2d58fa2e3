-- ===== src/Prelude/Int.antt =====
-- Signed integers over the native numbers.
use Prim.Native.Nat.{ℕ}
use mathlib.Core.Bool.{Bool, true, false}
use powabase_ai.Prelude.Tests.{leb, if◌then◌else◌}

-- `negsuc n` is -(n + 1).
pub data ℤ : Type 0 where
  pos : ℕ → ℤ
  negsuc : ℕ → ℤ

infix 50 ◌≤?ℤ◌
abbrev pub ◌≤?ℤ◌ : ℤ → ℤ → Bool
pos a ≤?ℤ pos b = leb a b
pos a ≤?ℤ negsuc b = false
negsuc a ≤?ℤ pos b = true
negsuc a ≤?ℤ negsuc b = leb b a

abbrev pub min_ℤ : ℤ → ℤ → ℤ
min_ℤ a b = if b ≤?ℤ a then b else a

abbrev pub max_ℤ : ℤ → ℤ → ℤ
max_ℤ a b = if a ≤?ℤ b then b else a
