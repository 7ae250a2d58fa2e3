-- ===== src/Auth/Tests.antt =====
-- Requests of the service role and of an end user, with a small library: a uuid is as many letters
-- as its number, and one more.
use powabase_ai.Prelude.{
  ℕ, zero, suc, ◌≡◌, refl, ap, Bool, true, false, Option, none, some, List, [], ◌∷◌, String, ◌=s◌,
  if◌then◌else◌, ◌≢◌, arith, =s_iff,
}
use powabase_ai.Auth.{
  missing, is_true, Decoded, Library, pass, Caller, get_token_from_header, require_service_role,
  require_user_auth, claims, refused, invalid, invalid_audience,
}
use powabase_ai.Auth.Privilege.{require_service_role-key}
use powabase_ai.Auth.ToolCaller.{RunBody}

letters : String → ℕ
letters String.[] = 0
letters (String.◌∷◌ c s) = suc (letters s)

letters_text : ℕ → String
letters_text zero = "u"
letters_text (suc n) = String.◌∷◌ "u" (letters_text n)

read_letters : String → Option ℕ
read_letters String.[] = none
read_letters (String.◌∷◌ c s) = some (letters s)

letters-letters_text : (n : ℕ) → letters (letters_text n) ≡ suc n
unfolding letters letters_text
letters-letters_text zero = refl
letters-letters_text (suc n) = ap suc (letters-letters_text n)

read_letters-letters_text : (n : ℕ) → read_letters (letters_text n) ≡ some n
unfolding read_letters letters_text letters
read_letters-letters_text zero = refl
read_letters-letters_text (suc n) = ap some (letters-letters_text n)

read_letters_empty : read_letters "" ≡ none
unfolding read_letters
read_letters_empty = refl

-- The user's token claims to be the service role.
token_claims : Bool → String → String → Decoded
token_claims audience token secret =
    if token =s "ann"
    then claims (record { sub = some "uuu"; service_flag = is_true; role = none; exp = some 9 })
    else if token =s "key"
    then (if audience
        then refused invalid_audience
        else claims (record { sub = none; service_flag = missing; role = none; exp = none }))
    else refused invalid

abbrev lib : Library
unfolding token_claims read_letters letters_text
lib = record {
  decode = token_claims;
  parse_uuid = read_letters;
  uuid_text = letters_text;
  lower = λ s. s;
  parse-uuid_text = read_letters-letters_text;
  parse_empty = read_letters_empty;
}

abbrev service_caller : Caller
service_caller = record {
  is_service_role = true;
  user_id = none;
  user_role = "authenticated";
  payload = record { sub = none; service_flag = is_true; role = none; exp = none };
}

abbrev ann_caller : Caller
ann_caller = record {
  is_service_role = false;
  user_id = some "uuu";
  user_role = "authenticated";
  payload = record { sub = some "uuu"; service_flag = missing; role = none; exp = some 9 };
}

abbrev service_header : List String
service_header = "bearer" ∷ "key" ∷ []

abbrev ann_header : List String
ann_header = "bearer" ∷ "ann" ∷ []

service_passes :
    require_service_role lib (some "jwt") (some "key") service_header ≡ pass service_caller
unfolding require_service_role token_claims read_letters letters_text letters
service_passes = refl

ann_passes : require_user_auth lib (some "jwt") (some "key") ann_header ≡ pass ann_caller
unfolding require_user_auth token_claims read_letters letters_text letters
ann_passes = refl

require_service_role-key_example :
    (get_token_from_header (λ s. s) service_header ≡ some "key")
    × (require_user_auth lib (some "jwt") (some "key") service_header ≡ pass service_caller)
unfolding token_claims read_letters letters_text
require_service_role-key_example =
    require_service_role-key lib (some "jwt") (some "key") service_header service_caller
      service_passes

ann_other : get_token_from_header (λ s. s) ann_header ≢ some "key"
unfolding get_token_from_header
ann_other h = ground (arith, =s_iff "ann" "key")

abbrev body : RunBody
body = record {
  knowledge_bases = false;
  runtime_knowledge_bases = false;
  context_handler_id = false;
  context_items = false ∷ true ∷ [];
}
