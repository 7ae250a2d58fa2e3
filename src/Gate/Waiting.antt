-- ===== src/Gate/Waiting.antt =====
-- `WaitingExtractions` of services/extraction_gate.py: the deliveries that wait in a worker, and
-- those that nobody has refreshed. Times are microseconds of the Redis clock.
use powabase_ai.Prelude.{
  ℕ, ◌+◌, ◌-◌, ◌*◌, Bool, true, false, not, Option, none, some, List, [], ◌∷◌, String, leb, ◌==◌,
  if◌then◌else◌,
}
use powabase_ai.Redis.Ranged.{RangedSets}
use powabase_ai.Redis.Keys.{StringKeys, set_nx}
use powabase_ai.Gate.Slots.{Link, up, down, cut, second}

-- WAITING_STALE_SECONDS
abbrev pub stale_after : ℕ
stale_after = 600 * second

-- What is needed to send a delivery again: its size, as far as it is known, and its retries; the
-- other arguments of the task never change.
pub record Dispatch : Type 0 where
  pub source_size : Option ℕ
  pub retries : ℕ

pub record WaitRecord : Type 0 where
  pub source_id : String
  pub dispatch : Dispatch

module _ (ranged : RangedSets) (keys : StringKeys WaitRecord) (marks : StringKeys Bool) where
  open ranged use {sets, zrangebyscore}
  open sets use {ZSet, no_members, zadd, zrem, zcard}
  open keys use {Store, get, set, delete}

  -- The index with the time at which its EXPIRE removes it, the record of each task, and the mark
  -- of the sweep, one key of its store.
  pub record Waiting : Type 0 where
    pub index : ZSet
    pub deadline : ℕ
    pub records : Store
    pub sweep : marks.Store

  abbrev pub index_at : ℕ → Waiting → ZSet
  index_at now st = if leb st.deadline now then no_members else st.index

  -- WaitingExtractions.touch; the pipeline is one transaction
  unfoldable pub touch : Link → ℕ → ℕ → String → String → Dispatch → Waiting → Waiting
  touch down ttl now task source_id dispatch st = st
  touch _ ttl now task source_id dispatch st = record st {
    index = zadd (index_at now st) now task;
    deadline = now + ttl;
    records = set st.records now ttl task (record { source_id = source_id; dispatch = dispatch });
  }

  -- WaitingExtractions.clear
  unfoldable pub clear : Link → ℕ → String → Waiting → Waiting
  clear down now task st = st
  clear _ now task st = record st {
    index = zrem (index_at now st) task;
    records = delete st.records task;
  }

  -- WaitingExtractions.get, where None also stands for a call that raised
  unfoldable pub get_waiting : Link → ℕ → String → Waiting → Option WaitRecord
  get_waiting up now task st = get st.records now task
  get_waiting _ now task st = none

  -- the loop of `stale`; each task has the link of its `get` and of its `zrem`. A `zrem` that raises
  -- ends the whole call, which answers [].
  unfoldable pub stale_records :
      (String → Link × Link)
      → ℕ
      → List String
      → Waiting
      → Option (List (String × WaitRecord)) × Waiting
  unfolding get_waiting
  stale_records link now [] st = (some [], st)
  stale_records link now (task ∷ tasks) st =
      let present = stale_records link now tasks st in
      let forgotten =
        stale_records link now tasks (record st { index = zrem (index_at now st) task }) in
      elim (get_waiting (link task).0 now task st) [
        | some rec ↦
            (elim present.0 [ none ↦ none | some found ↦ some ((task, rec) ∷ found) ], present.1)
        | none ↦ elim (link task).1 [
          | up ↦ forgotten
          | down ↦ (none, st)
          | cut ↦ (none, record st { index = zrem (index_at now st) task })
        ]
      ]

  abbrev pub or_nothing : {A : Type 0} → Option (List A) → List A
  or_nothing none = []
  or_nothing (some xs) = xs

  -- WaitingExtractions.stale; the clock is past `older_than`
  unfoldable pub stale :
      Link → (String → Link × Link) → ℕ → ℕ → Waiting → List (String × WaitRecord) × Waiting
  unfolding stale_records
  stale up link now older_than st =
      let (found, st') =
        stale_records link now (zrangebyscore (index_at now st) (now - older_than)) st in
      (or_nothing found, st')
  stale _ link now older_than st = ([], st)

  -- WaitingExtractions.any_waiting
  unfoldable pub any_waiting : Link → ℕ → Waiting → Bool
  any_waiting up now st = not (zcard (index_at now st) == 0)
  any_waiting _ now st = false

  -- WaitingExtractions.claim_sweep
  unfoldable pub claim_sweep : Link → ℕ → ℕ → Waiting → Bool × Waiting
  claim_sweep down interval now st = (false, st)
  claim_sweep up interval now st =
      let (won, sweep') = set_nx marks st.sweep now interval "sweep" true in
      (won, record st { sweep = sweep' })
  claim_sweep cut interval now st =
      (false, record st { sweep = (set_nx marks st.sweep now interval "sweep" true).1 })
