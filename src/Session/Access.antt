-- ===== src/Session/Access.antt =====
-- Who may continue which session, and what the get-or-create functions leave alone.
use powabase_ai.Prelude.{
  ℕ, ◌≡◌, refl, ap, ◌∙◌, Option-cases, Bool, true, Option, none, some, String, arith, =s_refl,
  if◌then◌else◌, inl, inr,
}
use powabase_ai.Database.{UniqueTable}
use powabase_ai.Session.{
  SessionRow, session_key, bound, not_accessible, named, same_uuid, is_theirs, bound_row,
  end_user_existing_session, bind_end_user_session, get_or_create_session, session_accessible_to,
  both_equal,
}

module _ (parse_uuid : String → Option ℕ) (db : UniqueTable SessionRow session_key) where
  open db use {Table, select, insert, select-insert, key-select}

  -- An end user who names a session gets it exactly when the route's check passes, as the row that
  -- is there, and is refused otherwise; the table is unchanged either way.
  pub get_or_create_session-session_accessible_to :
      (between : Table → Table) (new_id fresh agent_id s metadata u : String)
      (user_id given : Option String) (t : Table)
      → named given ≡ some s
      → get_or_create_session parse_uuid db between new_id fresh agent_id given user_id metadata
          (some u)
          t
        ≡ (
          if session_accessible_to parse_uuid db s (some u) agent_id t
              then bound_row parse_uuid (select t s) s
              else not_accessible,
          t,
        )
  unfolding get_or_create_session session_accessible_to
  get_or_create_session-session_accessible_to between new_id fresh agent_id s metadata u user_id
        given t h =
      ground arith

  -- What a bound end user holds: the row under the session id is theirs and of this agent.
  pub record Holds (t : Table) (id session_id u owner_ref : String) : Type 0 where
    pub row : SessionRow
    pub stored : select t session_id ≡ some row
    pub is_row : row.id ≡ id
    pub theirs : is_theirs parse_uuid (some row) u owner_ref ≡ true

  both_equal_self : (o : Option ℕ) (n : ℕ) → o ≡ some n → both_equal parse_uuid o o ≡ true
  both_equal_self none n h = cc
  both_equal_self (some m) n h = ground arith

  module _ (u owner_ref : String) {n k : ℕ} (is_user : parse_uuid u ≡ some n)
      (is_owner : parse_uuid owner_ref ≡ some k) where
    of_existing :
        (t : Table) (s id s' : String) (new : Bool) (o : Option SessionRow)
        → select t s ≡ o
        → (if is_theirs parse_uuid o u owner_ref then bound_row parse_uuid o s else not_accessible)
          ≡ bound id s' new
        → Holds t id s' u owner_ref
    of_existing t s id s' new none e h = cc
    of_existing t s id s' new (some row) e h = record {
      row = row;
      stored = ap (select t) (ground arith) ∙ e;
      is_row = ground arith;
      theirs = ground arith;
    }

    Holds-existing :
        (t : Table) (s id s' : String) (new : Bool)
        → end_user_existing_session parse_uuid db owner_ref s u t ≡ bound id s' new
        → Holds t id s' u owner_ref
    unfolding end_user_existing_session
    Holds-existing t s id s' new h = of_existing t s id s' new (select t s) refl h

    module _ (between : Table → Table) (new_id s metadata : String) (t : Table) where
      abbrev new_row : SessionRow
      new_row = record {
        id = new_id;
        session_id = s;
        owner_ref = owner_ref;
        user_id = some u;
        metadata = metadata;
      }

      bind_free :
          select t s ≡ none
          → bind_end_user_session parse_uuid db between new_id owner_ref s u metadata t
            ≡ (bound new_id s true, insert t new_row)
      unfolding bind_end_user_session
      bind_free e = ground arith

      bind_taken :
          (r : SessionRow)
          → select t s ≡ some r
          → bind_end_user_session parse_uuid db between new_id owner_ref s u metadata t
            ≡ (end_user_existing_session parse_uuid db owner_ref s u (between t), between t)
      unfolding bind_end_user_session
      bind_taken r e = ground arith

      new_row_theirs : is_theirs parse_uuid (some new_row) u owner_ref ≡ true
      unfolding same_uuid
      new_row_theirs = ground (
        arith,
        both_equal_self (parse_uuid u) n is_user,
        both_equal_self (parse_uuid owner_ref) k is_owner,
      )

      Holds-new :
          (id s' : String) (new : Bool)
          → select t s ≡ none
          → bound new_id s true ≡ bound id s' new
          → Holds (insert t new_row) id s' u owner_ref
      Holds-new id s' new e h = record {
        row = new_row;
        stored =
            ap (select (insert t new_row)) (bound_id h)
            ∙ ground (arith, select-insert t new_row s e, =s_refl s);
        is_row = ground arith;
        theirs = new_row_theirs;
      }
        where
          bound_id : bound new_id s true ≡ bound id s' new → s' ≡ s
          bound_id h = ground arith

      Holds-bind :
          (id s' : String) (new : Bool)
          → let after =
              bind_end_user_session parse_uuid db between new_id owner_ref s u metadata t in
            after.0 ≡ bound id s' new → Holds after.1 id s' u owner_ref
      Holds-bind id s' new h = elim (Option-cases (select t s)) [
        | inl free ↦ rw (bind_free free) (Holds-new id s' new free (rw (bind_free free) at h))
        | inr (r, taken) ↦
            rw (bind_taken r taken)
              (Holds-existing (between t) s id s' new (rw (bind_taken r taken) at h))
      ]

  module _ (between : Table → Table) (new_id fresh agent_id metadata u : String)
      (given user_id : Option String) (t : Table) where
    get_or_create_unnamed :
        named given ≡ none
        → get_or_create_session parse_uuid db between new_id fresh agent_id given user_id metadata
            (some u)
            t
          ≡ bind_end_user_session parse_uuid db between new_id agent_id fresh u metadata t
    unfolding get_or_create_session
    get_or_create_unnamed h = ground arith

    get_or_create_named :
        (g : String)
        → named given ≡ some g
        → get_or_create_session parse_uuid db between new_id fresh agent_id given user_id metadata
            (some u)
            t
          ≡ (end_user_existing_session parse_uuid db agent_id g u t, t)
    unfolding get_or_create_session
    get_or_create_named g h = ground arith

  -- An end user whose run is bound to an agent's session holds it: the row stored under the
  -- returned session id has the returned id, their user id and the agent's id, whatever other
  -- transactions do while the session is bound. The ids of user and agent are uuids.
  pub get_or_create_session-Holds :
      (between : Table → Table) (new_id fresh agent_id metadata u : String) {n k : ℕ}
      (given user_id : Option String) (id s : String) (new : Bool) (t : Table)
      → parse_uuid u ≡ some n
      → parse_uuid agent_id ≡ some k
      → let after =
          get_or_create_session parse_uuid db between new_id fresh agent_id given user_id metadata
            (some u)
            t in
        after.0 ≡ bound id s new → Holds after.1 id s u agent_id
  get_or_create_session-Holds between new_id fresh agent_id metadata u given user_id id s new t hu
        ha h =
      elim (Option-cases (named given)) [
        | inl e ↦
            let q =
              get_or_create_unnamed between new_id fresh agent_id metadata u given user_id t e in
            rw q (Holds-bind u agent_id hu ha between new_id fresh metadata t id s new (rw q at h))
        | inr (g, e) ↦
            let q =
              get_or_create_named between new_id fresh agent_id metadata u given user_id t g e in
            rw q (Holds-existing u agent_id hu ha t g id s new (rw q at h))
      ]
