-- ===== src/Prelude/Text.antt =====
-- Whole texts compared, and texts as lists of code points where the program walks them.
use Prim.Native.Nat.{ℕ}
use Prim.Native.Char.{code}
use Prim.Native.String.{String}
use mathlib.Core.Path.{◌≡◌}
use mathlib.Core.Logic.{◌↔◌}
use mathlib.Core.Bool.{Bool, true}
use mathlib.Core.List.{List, [], ◌∷◌}
use text.Mathlib.Text.{◌==◌ as text_eq}
use text.Mathlib.TextEquality.{eq_iff}
use text.Mathlib.TextPositions.{eq_refl}
use powabase_ai.Prelude.Lists.{any}

-- Equality of two native texts.
infix 50 ◌=s◌
abbrev pub ◌=s◌ : String → String → Bool
a =s b = text_eq a b

pub =s_iff : (a b : String) → ((a =s b) ≡ true) ↔ (a ≡ b)
=s_iff a b = eq_iff a b

pub =s_refl : (a : String) → (a =s a) ≡ true
=s_refl a = eq_refl a

-- `k in names`
abbrev pub elem : String → List String → Bool
elem k names = any (λ j. j =s k) names

abbrev pub codes : String → List ℕ
codes String.[] = []
codes (String.◌∷◌ c s) = code c ∷ codes s
