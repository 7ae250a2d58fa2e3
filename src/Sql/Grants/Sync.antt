-- ===== src/Sql/Grants/Sync.antt =====
-- What a login holds after a sync, and after one that fails.
use powabase_ai.Prelude.{
  ℕ, zero, suc, ◌≡◌, ap, ◌∙◌, Bool, true, false, not, ◌&&◌, ◌||◌, List, [], ◌∷◌, String, arith,
  ◌=s◌, =s_iff, ◌==◌, if◌then◌else◌, elem, any, inl, inr, ◌⊎◌,
}
use powabase_ai.Sql.Query.{Tables, is_permitted}
use powabase_ai.Sql.Grants.{
  Privilege, Grant, on_table, Grants, is_protected_schema, is_select, Desired, add_key, add_names,
  add_tables, desired_grants, Relations, target_grants, Role, held, Attempt, completes, fails_first,
  fails_second, revoke_extra, grant_missing, sync_once, Synced, done, sync_agent_role,
  sync_configured, is_nonempty,
}

module _ (schema name : String) (p : Privilege) where
  add_names-privileges :
      (privileges : Privilege → Bool) (s : String) (names : List String) (d : Desired)
      → (add_names privileges s names d).privileges schema name p
        ≡ (d.privileges schema name p || (((s =s schema) && elem name names) && privileges p))
  unfolding add_names
  add_names-privileges privileges s [] d = ground arith
  add_names-privileges privileges s (n ∷ names) d =
      ground (arith, add_names-privileges privileges s names (add_key privileges s n d))

  schema_added :
      (hidden : Bool) (privileges : Privilege → Bool) (s : String) (names : List String)
      (d : Desired)
      → (if hidden then d else add_names privileges s names d).privileges schema name p ≡ (
          d.privileges schema name p
          || ((not hidden && ((s =s schema) && elem name names)) && privileges p))
  schema_added true privileges s names d = ground arith
  schema_added false privileges s names d =
      ground (arith, add_names-privileges privileges s names d)

  same_protection :
      (s : String) → (s =s schema) ≡ true → is_protected_schema s ≡ is_protected_schema schema
  same_protection s h = ap is_protected_schema ((=s_iff s schema).0 h)

  add_tables-privileges :
      (privileges : Privilege → Bool) (tables : Tables) (d : Desired)
      → (add_tables privileges tables d).privileges schema name p ≡ (
          d.privileges schema name p
          || ((not (is_protected_schema schema) && is_permitted tables schema name)
              && privileges p))
  unfolding add_tables
  add_tables-privileges privileges [] d = ground arith
  add_tables-privileges privileges ((s, names) ∷ tables) d =
      add_tables-privileges privileges tables
        (if is_protected_schema s then d else add_names privileges s names d)
      ∙ ground (arith, schema_added (is_protected_schema s) privileges s names d, same_protection s)

  -- what the configured tables give
  abbrev pub configured_privilege : Tables → Tables → Bool
  configured_privilege read_tables write_tables =
      not (is_protected_schema schema)
      && ((is_select p && is_permitted read_tables schema name)
          || is_permitted write_tables schema name)

  desired_grants-privileges :
      (read_tables write_tables : Tables)
      → (desired_grants read_tables write_tables).privileges schema name p
        ≡ configured_privilege read_tables write_tables
  unfolding desired_grants
  desired_grants-privileges read_tables write_tables = ground (
    arith,
    add_tables-privileges (λ q. true) write_tables
        (add_tables is_select read_tables (record { keys = []; privileges = λ s n q. false })),
    add_tables-privileges is_select read_tables (record { keys = []; privileges = λ s n q. false }),
  )

module _ (want : Grants) where
  -- nothing is new, unless everything that is held is wanted
  abbrev pub Within : Role → Role → Type 0
  Within before after =
      ((g : Grant) → held after g ≡ true → held before g ≡ true)
      ⊎ ((g : Grant) → held after g ≡ true → want g ≡ true)

  Within-revoke_extra :
      (role after : Role) → Within (revoke_extra want role) after → Within role after
  unfolding revoke_extra
  Within-revoke_extra role after (inl old) = inl (λ g k. ground (arith, old g k))
  Within-revoke_extra role after (inr wanted) = inr wanted

  Within-if :
      (b : Bool) (role : Role) (x y : Synced × Role)
      → Within role x.1
      → Within role y.1
      → Within role (if b then x else y).1
  Within-if true role x y hx hy = hx
  Within-if false role x y hx hy = hy

  sync_once-Within :
      (configured : Bool) (stays : Bool × Bool) (last : Bool) (again : Role → Synced × Role)
      → ((r : Role) → Within r (again r).1)
      → (a : Attempt) (role : Role)
      → Within role (sync_once configured stays want last again a role).1
  unfolding sync_once grant_missing revoke_extra
  sync_once-Within configured stays last again h completes role = inr (λ g k. ground (arith, k))
  sync_once-Within configured stays last again h (fails_first retryable) role =
      Within-if (retryable && not last) role _ _ (h role) (inl (λ g k. k))
  sync_once-Within configured stays last again h (fails_second retryable) role =
      Within-if (not (configured && stays.0)) role _ _ (inl (λ g k. absurd (ground (arith, k)))) (
        Within-if (retryable && not last) role _ _
          (Within-revoke_extra role (again (revoke_extra want role)).1 (h (revoke_extra want role)))
          (Within-revoke_extra role (revoke_extra want role) (inl (λ g k. k))))

  sync_agent_role-Within :
      (configured : Bool) (stays : Bool × Bool) (left : ℕ) (attempt : ℕ → Attempt) (role : Role)
      → Within role (sync_agent_role configured stays want left attempt role).1
  unfolding sync_agent_role
  sync_agent_role-Within configured stays zero attempt role = inl (λ g h. h)
  sync_agent_role-Within configured stays (suc left) attempt role =
      sync_once-Within configured stays (left == 0) _
        (sync_agent_role-Within configured stays left attempt) (attempt left) role

module _ (want : Grants) where
  sync_once-done :
      (last : Bool) (again : Role → Synced × Role)
      → ((r : Role) → (again r).0 ≡ done → (g : Grant) → held (again r).1 g ≡ want g)
      → (a : Attempt) (role : Role) → (sync_once true (true, true) want last again a role).0 ≡ done
      → (g : Grant) → held (sync_once true (true, true) want last again a role).1 g ≡ want g
  unfolding sync_once
  sync_once-done last again h completes role k g = ground arith
  sync_once-done last again h (fails_first retryable) role k g =
      ground (arith, k, λ (e : (again role).0 ≡ done). h role e g)
  sync_once-done last again h (fails_second retryable) role k g =
      ground (
        arith,
        k,
        λ (e : (again (revoke_extra want role)).0 ≡ done). h (revoke_extra want role) e g,
      )

  sync_agent_role-done :
      (left : ℕ) (attempt : ℕ → Attempt) (role : Role)
      → (sync_agent_role true (true, true) want left attempt role).0 ≡ done
      → (g : Grant) → held (sync_agent_role true (true, true) want left attempt role).1 g ≡ want g
  unfolding sync_agent_role
  sync_agent_role-done zero attempt role h g = absurd (ground (arith, h))
  sync_agent_role-done (suc left) attempt role h g =
      sync_once-done (left == 0) _ (sync_agent_role-done left attempt) (attempt left) role h g

abbrev pub has_tables : Tables → Tables → Bool
has_tables read_tables write_tables =
    any (λ e. is_nonempty e.1) read_tables || any (λ e. is_nonempty e.1) write_tables

module _ (rel : Relations) (read_tables write_tables : Tables) (attempt : ℕ → Attempt)
    (role : Role) where
  -- A sync that succeeds, whatever it met before, leaves the login with a privilege on a table
  -- exactly if the table is readable, is in no protected schema, and is configured to be written,
  -- or to be read with the privilege SELECT. Some table is configured, and the agent stays.
  pub sync_configured-privileges :
      has_tables read_tables write_tables ≡ true
      → (sync_configured rel (true, true) read_tables write_tables attempt role).0 ≡ done
      → (schema name : String) (p : Privilege)
      → held
          (sync_configured rel (true, true) read_tables write_tables attempt role).1
          (on_table schema name p)
        ≡ (rel.readable_relation schema name
            && configured_privilege schema name p read_tables write_tables)
  unfolding sync_configured target_grants
  sync_configured-privileges some_table ok schema name p =
      rw (some_table, ← desired_grants-privileges schema name p read_tables write_tables)
        (sync_agent_role-done (target_grants rel (desired_grants read_tables write_tables)) 3
          attempt role (rw (some_table) at ok) (on_table schema name p))

  -- Grants come only after the revocations: however a sync ends, at whichever attempt and in
  -- whichever transaction it fails, and also where the agent is gone, either the login holds nothing
  -- that it did not hold before, or everything that it holds is wanted. No end leaves it with a new
  -- grant beside one that should have been revoked.
  pub sync_configured-Within :
      (stays : Bool × Bool)
      → Within
          (target_grants rel (desired_grants read_tables write_tables))
          role
          (sync_configured rel stays read_tables write_tables attempt role).1
  unfolding sync_configured
  sync_configured-Within stays =
      sync_agent_role-Within (target_grants rel (desired_grants read_tables write_tables))
        (has_tables read_tables write_tables) stays 3 attempt role
