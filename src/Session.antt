-- ===== src/Session.antt =====
-- services/session.py and the session functions of services/orchestration.py: which stored session
-- a run continues, and for whom.
pub mod Access
pub mod Isolation
mod Tests
use powabase_ai.Prelude.{
  ℕ, Bool, true, false, not, ◌&&◌, ◌||◌, Option, none, some, String, ◌=s◌, ◌==◌, ltb, if◌then◌else◌,
}
use powabase_ai.Database.{UniqueTable}

-- A row of ai.agent_sessions or ai.orchestration_sessions, by the columns that decide access;
-- `owner_ref` is the agent's or the orchestration's id.
pub record SessionRow : Type 0 where
  pub id : String
  pub session_id : String
  pub owner_ref : String
  pub user_id : Option String
  pub metadata : String

abbrev pub session_key : SessionRow → String
session_key row = row.session_id

-- A JSON value, as far as `session_id_error` looks at it.
pub data GivenId : Type 0 where
  absent not_text : GivenId
  text : String → ℕ → GivenId

pub data IdError : Type 0 where
  not_a_string too_long : IdError

abbrev pub max_session_id_length : ℕ
max_session_id_length = 255

-- session_id_error; a text comes with its length
unfoldable pub session_id_error : GivenId → Option IdError
session_id_error absent = none
session_id_error not_text = some not_a_string
session_id_error (text s length) = if ltb max_session_id_length length then some too_long else none

-- What a get-or-create function returns: the row's id, the session id and whether it is new; or
-- the exceptions SessionNotAccessible and (from a plain INSERT of a taken id) IntegrityError.
pub data Outcome : Type 0 where
  bound : String → String → Bool → Outcome
  not_accessible : Outcome
  integrity_error : Outcome

-- `if session_id:`
abbrev pub named : Option String → Option String
named none = none
named (some s) = if s =s "" then none else some s

-- `parse_uuid` is `uuid.UUID(...)`, none where it raises ValueError.
module _ (parse_uuid : String → Option ℕ) where
  abbrev pub both_equal : Option ℕ → Option ℕ → Bool
  both_equal (some a) (some b) = a == b
  both_equal _ _ = false

  unfoldable pub same_uuid : Option String → Option String → Bool
  same_uuid (some a) (some b) = both_equal (parse_uuid a) (parse_uuid b)
  same_uuid _ _ = false

  -- the test of the two readers: the row is there, the user's own, and of this agent
  abbrev pub is_theirs : Option SessionRow → String → String → Bool
  is_theirs none end_user_id owner_ref = false
  is_theirs (some row) end_user_id owner_ref =
      same_uuid row.user_id (some end_user_id) && same_uuid (some row.owner_ref) (some owner_ref)

  abbrev pub bound_row : Option SessionRow → String → Outcome
  bound_row none session_id = not_accessible
  bound_row (some row) session_id = bound row.id session_id false

  module _ (db : UniqueTable SessionRow session_key) where
    open db use {Table, select, insert}

    -- _end_user_existing_session
    unfoldable pub end_user_existing_session : String → String → String → Table → Outcome
    end_user_existing_session owner_ref session_id end_user_id t =
        let existing = select t session_id in
        if is_theirs existing end_user_id owner_ref
        then bound_row existing session_id
        else not_accessible

    -- INSERT ... ON CONFLICT (session_id) DO NOTHING RETURNING id
    abbrev pub insert_or_nothing : SessionRow → Table → Bool × Table
    insert_or_nothing row t = elim (select t row.session_id) [
      | none ↦ (true, insert t row)
      | some _ ↦ (false, t)
    ]

    -- _bind_end_user_session. `between` is what other transactions do between its two statements.
    unfoldable pub bind_end_user_session :
        (Table → Table) → String → String → String → String → String → Table → Outcome × Table
    unfolding end_user_existing_session
    bind_end_user_session between new_id owner_ref session_id end_user_id metadata t =
        let row : SessionRow = record {
          id = new_id;
          session_id = session_id;
          owner_ref = owner_ref;
          user_id = some end_user_id;
          metadata = metadata;
        } in
        let (inserted, t') = insert_or_nothing row t in
        if inserted
        then (bound new_id session_id true, t')
        else (end_user_existing_session owner_ref session_id end_user_id (between t'), between t')

    -- A new row by a plain INSERT, which fails on a taken id.
    abbrev pub create_session :
        String → String → String → Option String → String → Table → Outcome × Table
    create_session new_id owner_ref new_session_id user_id metadata t =
        elim (select t new_session_id) [
          | none ↦ (
            bound new_id new_session_id true,
            insert t (record {
              id = new_id;
              session_id = new_session_id;
              owner_ref = owner_ref;
              user_id = user_id;
              metadata = metadata;
            }),
          )
          | some _ ↦ (integrity_error, t)
        ]

    -- the service role's row of `WHERE session_id = ... AND agent_id = ...`
    abbrev pub of_owner : Option SessionRow → String → Option SessionRow
    of_owner none owner_ref = none
    of_owner (some row) owner_ref =
        if same_uuid (some row.owner_ref) (some owner_ref) then some row else none

    -- get_or_create_session; `new_id` and `fresh` are the uuids that it makes
    unfoldable pub get_or_create_session :
        (Table → Table)
        → String
        → String
        → String
        → Option String
        → Option String
        → String
        → Option String
        → Table
        → Outcome × Table
    unfolding end_user_existing_session bind_end_user_session
    get_or_create_session between new_id fresh agent_id session_id user_id metadata end_user_id t =
        elim end_user_id [
          | some u ↦ elim (named session_id) [
            | some s ↦ (end_user_existing_session agent_id s u t, t)
            | none ↦ bind_end_user_session between new_id agent_id fresh u metadata t
          ]
          | none ↦ elim (named session_id) [
            | none ↦ create_session new_id agent_id fresh user_id metadata t
            | some s ↦ elim (of_owner (select t s) agent_id) [
              | some row ↦ (bound row.id row.session_id false, t)
              | none ↦ create_session new_id agent_id s user_id metadata t
            ]
          ]
        ]

    -- get_or_create_orchestration_session: the service role's lookup is by session id alone
    unfoldable pub get_or_create_orchestration_session :
        (Table → Table)
        → String
        → String
        → String
        → Option String
        → Option String
        → Option String
        → Table
        → Outcome × Table
    unfolding end_user_existing_session bind_end_user_session
    get_or_create_orchestration_session between new_id fresh orchestration_id session_id user_id
          end_user_id t =
        elim end_user_id [
          | some u ↦ elim (named session_id) [
            | some s ↦ (end_user_existing_session orchestration_id s u t, t)
            | none ↦ bind_end_user_session between new_id orchestration_id fresh u "" t
          ]
          | none ↦ elim (named session_id) [
            | none ↦ create_session new_id orchestration_id fresh user_id "" t
            | some s ↦ elim (select t s) [
              | some row ↦ (bound row.id row.session_id false, t)
              | none ↦ create_session new_id orchestration_id s user_id "" t
            ]
          ]
        ]

    -- session_accessible_to
    unfoldable pub session_accessible_to : String → Option String → String → Table → Bool
    session_accessible_to session_id user_id agent_id t = elim (select t session_id) [
      | none ↦ false
      | some row ↦ same_uuid row.user_id user_id && same_uuid (some row.owner_ref) (some agent_id)
    ]
