-- ===== src/Extraction/Task/State.antt =====
-- What a delivery of `extract_source` in tasks/extraction.py works on, what it asks of others, and
-- what its environment does.
use powabase_ai.Prelude.{
  ℕ, ◌+◌, Bool, true, false, not, ◌&&◌, Option, none, some, List, [], ◌∷◌, ◌++◌, String, ltb, ◌=s◌,
  if◌then◌else◌,
}
use powabase_ai.Redis.{SortedSets}
use powabase_ai.Redis.Ranked.{RankedSets}
use powabase_ai.Redis.Ranged.{RangedSets}
use powabase_ai.Redis.Keys.{StringKeys}
use powabase_ai.Gate.Slots.{Link, Slots, is_live}
use powabase_ai.Gate.Attempts.{AttemptRecord, PreviousAttempt, plausible_cause, Attempts}
use powabase_ai.Gate.Waiting.{Dispatch, WaitRecord, Waiting}
use powabase_ai.Extraction.{Table, Marker, Result, Charge}

-- MAX_EXTRACTION_INTERRUPTIONS
abbrev pub max_interruptions : ℕ
max_interruptions = 2

-- MAX_UNATTRIBUTED_INTERRUPTIONS
abbrev pub max_unattributed : ℕ
max_unattributed = 5

-- max_retries of the task
abbrev pub max_retries : ℕ
max_retries = 3

-- The Redis commands that the gate's three classes use.
pub record Server : Type 1 where
  pub slot_sets : SortedSets
  pub ranked : RankedSets
  pub attempt_keys : StringKeys AttemptRecord
  pub ranged : RangedSets
  pub wait_keys : StringKeys WaitRecord
  pub mark_keys : StringKeys Bool

-- What a task asks of others: to run the extraction, to send a message again, to charge, and to run
-- the next sweep.
pub data Call : Type 0 where
  running_extraction : String → Call
  sending : String → Dispatch → Call
  charging : Charge → Call
  scheduling_sweep : Call

-- What the size lookup of the storage gives.
pub data Lookup : Type 0 where
  reported : Option ℕ → Lookup
  lookup_storage_error lookup_raised : String → Lookup

-- What becomes of `run_extraction`; the worker may be killed in it.
pub data Body : Type 0 where
  produced : Result → Body
  soft_time_limit extraction_superseded worker_killed : Body
  storage_error raised : String → Body

pub data Answer : Type 0 where
  not_found cancelled_answer already_extracted superseded deferred interrupted : Answer
  timed_out_answer retrying error success died : Answer

abbrev pub has_died : Answer → Bool
has_died died = true
has_died _ = false

-- `_count_interruption`: what of the marker is this task's
abbrev pub counts_of : String → Option Marker → ℕ × ℕ
counts_of task none = (0, 0)
counts_of task (some m) = if m.task =s task then (m.interruptions, m.unattributed) else (0, 0)

abbrev pub was_bystander : Option PreviousAttempt → Bool
was_bystander none = false
was_bystander (some p) = not (plausible_cause p)

abbrev pub count_one : ℕ × ℕ → Option PreviousAttempt → ℕ × ℕ
count_one (count, other) prev =
    if was_bystander prev then (count, other + 1) else (count + 1, other)

-- whether the source is failed now, and how many interruptions the message names
abbrev pub is_spent : ℕ × ℕ → Option PreviousAttempt → Bool
is_spent (count, other) prev =
    if was_bystander prev
    then not (ltb other max_unattributed)
    else not (ltb count max_interruptions)

abbrev pub named_count : ℕ × ℕ → Option PreviousAttempt → ℕ
named_count (count, other) prev = if was_bystander prev then other else count

abbrev pub marker_of : String → ℕ × ℕ → Marker
marker_of task (count, other) = record { interruptions = count; unattributed = other; task = task }

module _ (server : Server) where
  open server use {slot_sets, ranked, attempt_keys, ranged, wait_keys, mark_keys}

  pub record World : Type 0 where
    pub sources : Table
    pub slots : Slots slot_sets
    pub attempts : Attempts ranked attempt_keys
    pub waiting : Waiting ranged wait_keys mark_keys
    pub calls : List Call

  -- What one delivery meets: the settings, its token and its worker's incarnation, the links and the
  -- times of its calls of Redis, the size lookup, what others do after the row is read and during
  -- the body, and the body's end.
  pub record Env : Type 0 where
    pub threshold : ℕ
    pub max_holders : ℕ
    pub time_limit : ℕ
    pub token : String
    pub incarnation : String
    pub clearing : Link
    pub reading : Link
    pub asking : Link
    pub acquiring : Link
    pub beginning : Link
    pub touching : Link
    pub ending : Link
    pub releasing : Link
    pub cleared_at : ℕ
    pub started_at : ℕ
    pub touched_at : ℕ
    pub ended_at : ℕ
    -- what get_storage raises, if it does
    pub no_storage : Option String
    pub size_lookup : Lookup
    pub meanwhile : World → World
    pub during : World → World
    pub body : Body

  abbrev pub call : Call → World → World
  call c w = record w { calls = w.calls ++ c ∷ [] }

  abbrev pub with_sources : Table → World → World
  with_sources t w = record w { sources = t }

  -- `previous.slot_token and is_live(previous.slot_token)`
  abbrev pub token_is_live : Link → ℕ → Option String → Slots slot_sets → Bool
  token_is_live link now none st = false
  token_is_live link now (some token) st = not (token =s "") && is_live slot_sets link now token st

  abbrev pub is_live_attempt : Link → ℕ → PreviousAttempt → Slots slot_sets → Bool
  is_live_attempt link now p st = token_is_live link now p.slot_token st
