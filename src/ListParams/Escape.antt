-- ===== src/ListParams/Escape.antt =====
-- `escape_like`, and the LIKE patterns of Postgres with its default escape character.
use powabase_ai.Prelude.{
  ℕ, ◌≡◌, refl, Bool, true, false, List, [], ◌∷◌, ◌++◌, map, arith, ◌==◌, if◌then◌else◌,
}

abbrev pub backslash : ℕ
backslash = 92

abbrev pub percent : ℕ
percent = 37

abbrev pub underscore : ℕ
underscore = 95

-- s.replace(old, new) for an `old` of one character
unfoldable pub replace : ℕ → List ℕ → List ℕ → List ℕ
replace old new [] = []
replace old new (c ∷ s) = let rest = replace old new s in if c == old then new ++ rest else c ∷ rest

unfoldable pub escape_like : List ℕ → List ℕ
unfolding replace
escape_like s =
    replace underscore (backslash ∷ underscore ∷ []) (
      replace percent (backslash ∷ percent ∷ []) (replace backslash (backslash ∷ backslash ∷ []) s))

-- What a pattern is made of: a character that matches itself, `_` and `%`.
pub data Token : Type 0 where
  literal : ℕ → Token
  any_one any_many : Token

-- `escaped` says that the character before was an escaping backslash.
unfoldable pub tokens_from : Bool → List ℕ → List Token
tokens_from escaped [] = []
tokens_from true (c ∷ s) = literal c ∷ tokens_from false s
tokens_from false (c ∷ s) =
    let escaping = tokens_from true s in
    let plain = tokens_from false s in
    if c == backslash
    then escaping
    else if c == percent
    then any_many ∷ plain
    else if c == underscore
    then any_one ∷ plain
    else literal c ∷ plain

unfoldable pub like_tokens : List ℕ → List Token
unfolding tokens_from
like_tokens = tokens_from false

-- The pattern that `escape_like` makes of a text stands for the text itself: as Postgres reads it,
-- every character of the text is a literal and nothing is a wildcard.
pub like_tokens-escape_like : (s : List ℕ) → like_tokens (escape_like s) ≡ map literal s
unfolding like_tokens escape_like
like_tokens-escape_like [] = refl
like_tokens-escape_like (c ∷ s) = ground (arith, like_tokens-escape_like s)
