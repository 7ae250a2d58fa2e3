-- ===== src/Session/Isolation.antt =====
-- Concurrent binds of one session id, the rows that a call leaves alone, and the orchestrations'
-- twin of the get-or-create function.
use powabase_ai.Prelude.{
  ℕ, ◌≡◌, refl, Bool, true, false, ◌&&◌, Option, none, some, String, arith, =s_iff, =s_refl,
  if◌then◌else◌,
}
use powabase_ai.Database.{UniqueTable}
use powabase_ai.Session.Access.{Holds, get_or_create_session-Holds}
use powabase_ai.Session.{
  SessionRow, session_key, bound, not_accessible, integrity_error, named, same_uuid,
  end_user_existing_session, bind_end_user_session, get_or_create_session,
  get_or_create_orchestration_session, create_session,
}

module _ (parse_uuid : String → Option ℕ) (db : UniqueTable SessionRow session_key) where
  open db use {Table, select, insert, select-insert, key-select}

  abbrev stay : Table → Table
  stay t = t

  -- Two runs bind one free session id, one after the other: the first inserts its row, and the
  -- second inserts nothing, gets the first's row if it is of the same user and agent, and is refused
  -- otherwise.
  pub bind_end_user_session-race :
      (between : Table → Table) (id id' s u v a b metadata metadata' : String) (t : Table)
      → select t s ≡ none
      → let first = bind_end_user_session parse_uuid db between id a s u metadata t in
        let second = bind_end_user_session parse_uuid db stay id' b s v metadata' first.1 in
        (first.0 ≡ bound id s true)
        × (second.0 ≡ (
            if same_uuid parse_uuid (some u) (some v) && same_uuid parse_uuid (some a) (some b)
            then bound id s false
            else not_accessible))
        × (second.1 ≡ first.1)
  unfolding bind_end_user_session end_user_existing_session
  bind_end_user_session-race between id id' s u v a b metadata metadata' t free =
      let row : SessionRow = record {
        id = id;
        session_id = s;
        owner_ref = a;
        user_id = some u;
        metadata = metadata;
      } in
      (
        ground arith,
        ground (arith, select-insert t row s free, =s_refl s),
        ground (arith, select-insert t row s free, =s_refl s),
      )

  insert_keeps :
      (t : Table) (row old : SessionRow) (k : String)
      → select t row.session_id ≡ none
      → select t k ≡ some old
      → select (insert t row) k ≡ some old
  insert_keeps t row old k free h =
      ground (arith, select-insert t row k free, =s_iff row.session_id k)

  module _ (t : Table) (old : SessionRow) (k : String) (there : select t k ≡ some old) where
    create_session-keeps :
        (new_id owner_ref s : String) (user_id : Option String) (metadata : String)
        → select (create_session parse_uuid db new_id owner_ref s user_id metadata t).1 k ≡ some old
    create_session-keeps new_id owner_ref s user_id metadata =
        let row : SessionRow = record {
          id = new_id;
          session_id = s;
          owner_ref = owner_ref;
          user_id = user_id;
          metadata = metadata;
        } in
        ground (arith, insert_keeps t row old k)

    bind_end_user_session-keeps :
        (new_id owner_ref s u metadata : String)
        → select (bind_end_user_session parse_uuid db stay new_id owner_ref s u metadata t).1 k
          ≡ some old
    unfolding bind_end_user_session
    bind_end_user_session-keeps new_id owner_ref s u metadata =
        let row : SessionRow = record {
          id = new_id;
          session_id = s;
          owner_ref = owner_ref;
          user_id = some u;
          metadata = metadata;
        } in
        ground (arith, insert_keeps t row old k)

  -- No call changes or removes a session that is there, whoever calls, whatever is named and
  -- whether it succeeds, if no other transaction runs in between; neither does the orchestrations'
  -- twin.
  get_or_create_session-keeps :
      (new_id fresh owner_ref metadata k : String) (given user_id end_user_id : Option String)
      (t : Table) (old : SessionRow)
      → select t k ≡ some old
      → (select
            (get_or_create_session parse_uuid db stay new_id fresh owner_ref given user_id metadata
              end_user_id t).1
            k
          ≡ some old)
        × (select
              (get_or_create_orchestration_session parse_uuid db stay new_id fresh owner_ref given
                user_id end_user_id t).1
              k
            ≡ some old)
  unfolding get_or_create_session get_or_create_orchestration_session
  get_or_create_session-keeps new_id fresh a metadata k given user_id (some u) t old h = (
    ground (arith, bind_end_user_session-keeps t old k h new_id a fresh u metadata),
    ground (arith, bind_end_user_session-keeps t old k h new_id a fresh u ""),
  )
  get_or_create_session-keeps new_id fresh a metadata k given user_id none t old h =
      go (named given) refl
    where
      go :
          (o : Option String)
          → named given ≡ o
          → (select
                (get_or_create_session parse_uuid db stay new_id fresh a given user_id metadata none
                  t).1
                k
              ≡ some old)
            × (select
                  (get_or_create_orchestration_session parse_uuid db stay new_id fresh a given
                    user_id none t).1
                  k
                ≡ some old)
      go none e = (
        ground (arith, create_session-keeps t old k h new_id a fresh user_id metadata),
        ground (arith, create_session-keeps t old k h new_id a fresh user_id ""),
      )
      go (some g) e = (
        ground (arith, create_session-keeps t old k h new_id a g user_id metadata),
        ground (arith, create_session-keeps t old k h new_id a g user_id ""),
      )

  -- The service role names a session that is there: the agents' function returns it if it is of
  -- the agent and fails with IntegrityError otherwise; the orchestrations' function returns it
  -- whichever orchestration it is of. The table is unchanged.
  get_or_create_session-taken :
      (between : Table → Table) (new_id fresh owner_ref metadata s : String)
      (given user_id : Option String) (t : Table) (row : SessionRow)
      → named given ≡ some s
      → select t s ≡ some row
      → (get_or_create_session parse_uuid db between new_id fresh owner_ref given user_id metadata
            none t
          ≡ (
            if same_uuid parse_uuid (some row.owner_ref) (some owner_ref)
                then bound row.id s false
                else integrity_error,
            t,
          ))
        × (get_or_create_orchestration_session parse_uuid db between new_id fresh owner_ref given
              user_id none t
            ≡ (bound row.id s false, t))
  unfolding get_or_create_session get_or_create_orchestration_session
  get_or_create_session-taken between new_id fresh owner_ref metadata s given user_id t row e h =
      (ground (arith, key-select t s row h), ground (arith, key-select t s row h))

  -- An end user whose run is bound to an orchestration's session holds it, as with an agent's.
  get_or_create_orchestration_session-Holds :
      (between : Table → Table) (new_id fresh orchestration_id u : String) {n k : ℕ}
      (given user_id : Option String) (id s : String) (new : Bool) (t : Table)
      → parse_uuid u ≡ some n
      → parse_uuid orchestration_id ≡ some k
      → let after =
          get_or_create_orchestration_session parse_uuid db between new_id fresh orchestration_id
            given user_id
            (some u)
            t in
        after.0 ≡ bound id s new → Holds parse_uuid db after.1 id s u orchestration_id
  unfolding get_or_create_orchestration_session get_or_create_session
  get_or_create_orchestration_session-Holds between new_id fresh o u given user_id id s new t hu
        ho =
      get_or_create_session-Holds parse_uuid db between new_id fresh o "" u given user_id id s new t
        hu ho
