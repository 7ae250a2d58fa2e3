-- ===== src/Session/Tests.antt =====
-- Sessions at concrete tables; the uuids are a text for each number.
use powabase_ai.Prelude.{
  ℕ, ◌≡◌, refl, true, false, ◌&&◌, Option, none, some, [], ◌∷◌, String, ◌=s◌, if◌then◌else◌,
}
use powabase_ai.Database.{UniqueTable, list_table, row_with, rows_without}
use powabase_ai.Session.{
  SessionRow, session_key, bound, not_accessible, same_uuid, bound_row, end_user_existing_session,
  bind_end_user_session, get_or_create_session, session_accessible_to,
}
use powabase_ai.Session.Access.{
  Holds, get_or_create_session-session_accessible_to, get_or_create_session-Holds,
}
use powabase_ai.Session.Isolation.{bind_end_user_session-race}

abbrev uuids : String → Option ℕ
uuids s =
    if s =s "ann"
    then some 1
    else if s =s "bob"
    then some 2
    else if s =s "agent"
    then some 3
    else none

abbrev db : UniqueTable SessionRow session_key
db = list_table session_key

abbrev ann_row : SessionRow
ann_row = record {
  id = "r1";
  session_id = "s1";
  owner_ref = "agent";
  user_id = some "ann";
  metadata = "";
}

abbrev table : db.Table
unfolding row_with
table = ann_row ∷ []

bob_refused :
    get_or_create_session uuids db (λ t. t) "r9" "s9" "agent" (some "s1") none "" (some "bob") table
    ≡ (not_accessible, table)
unfolding get_or_create_session end_user_existing_session same_uuid row_with rows_without
bob_refused = refl

get_or_create_session-session_accessible_to_example :
    get_or_create_session uuids db (λ t. t) "r9" "s9" "agent" (some "s1") none "" (some "bob") table
    ≡ (
      if session_accessible_to uuids db "s1" (some "bob") "agent" table
          then bound_row uuids (db.select table "s1") "s1"
          else not_accessible,
      table,
    )
get_or_create_session-session_accessible_to_example =
    get_or_create_session-session_accessible_to uuids db (λ t. t) "r9" "s9" "agent" "s1" "" "bob"
      none (some "s1") table refl

get_or_create_session-Holds_example :
    Holds uuids db
      (get_or_create_session uuids db (λ t. t) "r9" "s9" "agent" none none "" (some "bob") table).1
      "r9"
      "s9"
      "bob"
      "agent"
unfolding get_or_create_session bind_end_user_session row_with rows_without
get_or_create_session-Holds_example =
    get_or_create_session-Holds uuids db (λ t. t) "r9" "s9" "agent" "" "bob" none none "r9" "s9"
      true table refl refl refl

bind_end_user_session-race_example :
    let first = bind_end_user_session uuids db (λ t. t) "r2" "agent" "s2" "ann" "" table in
    let second = bind_end_user_session uuids db (λ t. t) "r3" "agent" "s2" "bob" "" first.1 in
    (first.0 ≡ bound "r2" "s2" true)
    × (second.0 ≡ (
        if same_uuid uuids (some "ann") (some "bob")
          && same_uuid uuids (some "agent") (some "agent")
        then bound "r2" "s2" false
        else not_accessible))
    × (second.1 ≡ first.1)
unfolding row_with rows_without
bind_end_user_session-race_example =
    bind_end_user_session-race uuids db (λ t. t) "r2" "r3" "s2" "ann" "bob" "agent" "agent" "" ""
      table refl
