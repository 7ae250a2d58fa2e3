-- ===== src/ListParams/Tests.antt =====
-- List requests at concrete arguments.
use powabase_ai.Prelude.{◌≡◌, refl, true, none, some, List, [], ◌∷◌, String}
use powabase_ai.Prelude.Int.{pos, negsuc}
use powabase_ai.ListParams.Escape.{literal, escape_like, like_tokens, like_tokens-escape_like}
use powabase_ai.ListParams.Parse.{Args, parsed, parse_list_params}

abbrev request : Args
request = record {
  limit = some (some (pos 500));
  offset = some (some (negsuc 4));
  q = some [];
  sort = none;
  order = some "asc";
}

abbrev columns : List String
columns = "name" ∷ "created_at" ∷ []

answer :
    parse_list_params request columns true
    ≡ parsed (record {
      limit = some (pos 100);
      offset = some (pos 0);
      q = none;
      sort = "created_at";
      order = "asc";
    })
unfolding parse_list_params
answer = refl

-- "5%_\"
like_tokens-escape_like_example :
    like_tokens (escape_like (53 ∷ 37 ∷ 95 ∷ 92 ∷ []))
    ≡ literal 53 ∷ literal 37 ∷ literal 95 ∷ literal 92 ∷ []
like_tokens-escape_like_example = like_tokens-escape_like (53 ∷ 37 ∷ 95 ∷ 92 ∷ [])
