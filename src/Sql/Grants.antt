-- ===== src/Sql/Grants.antt =====
-- The privileges of an agent's login: `_desired_grants`, `_target_grants` and `sync_agent_role` of
-- services/agent_sql.py. A set of grants is its membership test.
pub mod Sync
use powabase_ai.Prelude.{
  ℕ, zero, suc, Bool, true, false, not, ◌&&◌, ◌||◌, Option, none, some, List, [], ◌∷◌, ◌++◌, String,
  ◌=s◌, ◌==◌, codes, elem, any, if◌then◌else◌,
}
use powabase_ai.Sql.Lists.{protected_schemas}
use powabase_ai.Sql.Query.{Tables}

pub data Privilege : Type 0 where
  select insert update delete : Privilege

pub data Grant : Type 0 where
  on_table : String → String → Privilege → Grant
  on_sequence : String → String → Grant
  usage : String → Grant

abbrev pub Grants : Type 0
Grants = Grant → Bool

-- `text.startswith(prefix)`
abbrev pub starts_with : List ℕ → List ℕ → Bool
starts_with text [] = true
starts_with [] (c ∷ prefix) = false
starts_with (d ∷ text) (c ∷ prefix) = (d == c) && starts_with text prefix

unfoldable pub is_protected_schema : String → Bool
is_protected_schema schema =
    elem schema protected_schemas || starts_with (codes schema) (codes "pg_")

abbrev pub is_select : Privilege → Bool
is_select select = true
is_select _ = false

-- The dict of _desired_grants: its keys, and the privileges under each.
pub record Desired : Type 0 where
  pub keys : List (String × String)
  pub privileges : String → String → Privilege → Bool

abbrev pub same_table : String × String → String → String → Bool
same_table (s, n) schema name = (s =s schema) && (n =s name)

abbrev pub add_key : (Privilege → Bool) → String → String → Desired → Desired
add_key privileges schema name d = record {
  keys = (schema, name) ∷ d.keys;
  privileges = λ s n p. d.privileges s n p || (same_table (schema, name) s n && privileges p);
}

unfoldable pub add_names : (Privilege → Bool) → String → List String → Desired → Desired
add_names privileges schema [] d = d
add_names privileges schema (name ∷ names) d =
    add_names privileges schema names (add_key privileges schema name d)

unfoldable pub add_tables : (Privilege → Bool) → Tables → Desired → Desired
unfolding add_names
add_tables privileges [] d = d
add_tables privileges ((schema, names) ∷ tables) d =
    add_tables privileges tables
      (if is_protected_schema schema then d else add_names privileges schema names d)

-- _desired_grants
unfoldable pub desired_grants : Tables → Tables → Desired
unfolding add_tables
desired_grants read_tables write_tables =
    add_tables (λ p. true) write_tables
      (add_tables is_select read_tables (record { keys = []; privileges = λ s n p. false }))

abbrev pub is_nonempty : List String → Bool
is_nonempty [] = false
is_nonempty (_ ∷ _) = true

-- The relations as _target_grants reads them: the readable ones, and the sequences that a table's
-- columns draw from.
pub record Relations : Type 0 where
  pub readable_relation : String → String → Bool
  pub sequences_of : String → String → List (String × String)

module _ (rel : Relations) where
  abbrev pub wants_sequence : Desired → String → String → Bool
  wants_sequence d schema name =
      any
        (λ k.
          rel.readable_relation k.0 k.1
          && (d.privileges k.0 k.1 insert
              && any (λ q. same_table q schema name) (rel.sequences_of k.0 k.1)))
        d.keys

  abbrev pub wants_schema : Desired → String → Bool
  wants_schema d schema =
      any (λ k. rel.readable_relation k.0 k.1 && (k.0 =s schema)) d.keys
      || any
          (λ k.
            rel.readable_relation k.0 k.1
            && (d.privileges k.0 k.1 insert && any (λ q. q.0 =s schema) (rel.sequences_of k.0 k.1)))
          d.keys

  -- _target_grants
  unfoldable pub target_grants : Desired → Grants
  target_grants d (on_table schema name p) =
      rel.readable_relation schema name && d.privileges schema name p
  target_grants d (on_sequence schema name) = wants_sequence d schema name
  target_grants d (usage schema) = wants_schema d schema

-- The login, with what it holds; none if there is none.
abbrev pub Role : Type 0
Role = Option Grants

abbrev pub held : Role → Grants
held none = λ g. false
held (some grants) = grants

-- How far one `_sync_once` gets: to its end, or an error in its first or its second transaction,
-- with whether its SQLSTATE is one of _RETRYABLE_SQLSTATES.
pub data Attempt : Type 0 where
  completes : Attempt
  fails_first fails_second : Bool → Attempt

-- the first transaction: makes the login and revokes
unfoldable pub revoke_extra : Grants → Role → Role
revoke_extra want role = some (λ g. held role g && want g)

-- the second one
unfoldable pub grant_missing : Grants → Role → Role
grant_missing want role = some (λ g. held role g || want g)

-- What became of the call.
pub data Synced : Type 0 where
  done raised : Synced

-- One attempt: `stays` is whether the agent exists in each transaction, `last` whether it is the
-- third, and `again` the attempts after it. No other transaction changes the role.
unfoldable pub sync_once :
    Bool → Bool × Bool → Grants → Bool → (Role → Synced × Role) → Attempt → Role → Synced × Role
unfolding revoke_extra grant_missing
sync_once configured stays want last again completes role = (
  done,
  if (configured && stays.0) && stays.1 then grant_missing want (revoke_extra want role) else none,
)
sync_once configured stays want last again (fails_first retryable) role =
    if retryable && not last then again role else (raised, role)
sync_once configured stays want last again (fails_second retryable) role =
    if not (configured && stays.0)
    then (done, none)
    else if retryable && not last
    then again (revoke_extra want role)
    else (raised, revoke_extra want role)

-- sync_agent_role with this many attempts left
unfoldable pub sync_agent_role :
    Bool → Bool × Bool → Grants → ℕ → (ℕ → Attempt) → Role → Synced × Role
unfolding sync_once
sync_agent_role configured stays want zero attempt role = (raised, role)
sync_agent_role configured stays want (suc left) attempt role =
    sync_once configured stays want (left == 0)
      (λ r. sync_agent_role configured stays want left attempt r) (attempt left) role

-- the three attempts of `for attempt in range(3)`, of the configured tables
unfoldable pub sync_configured :
    Relations → Bool × Bool → Tables → Tables → (ℕ → Attempt) → Role → Synced × Role
unfolding desired_grants target_grants
sync_configured rel stays read_tables write_tables attempt role =
    sync_agent_role
      (any (λ e. is_nonempty e.1) read_tables || any (λ e. is_nonempty e.1) write_tables) stays
      (target_grants rel (desired_grants read_tables write_tables)) 3 attempt role
