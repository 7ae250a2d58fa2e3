-- ===== src/Extraction/Recovery.antt =====
-- `recover_stranded_extractions` of tasks/extraction.py: the sweep that sends lost deliveries again.
-- All its calls of Redis are made at one time.
use powabase_ai.Prelude.{
  ℕ, suc, ◌*◌, Bool, true, false, ◌&&◌, Option, none, some, List, [], ◌∷◌, String, ◌=s◌,
  if◌then◌else◌,
}
use powabase_ai.Gate.Slots.{second, Link}
use powabase_ai.Gate.Attempts.{record_ttl, previous}
use powabase_ai.Gate.Waiting.{
  WaitRecord, stale_after, touch, clear, stale, any_waiting, claim_sweep,
}
use powabase_ai.Extraction.{Table, Source, Status, pending, extracting, owns}
use powabase_ai.Extraction.Task.{Server, World, call, sending, scheduling_sweep, is_live_attempt}

abbrev is_waiting_status : Option Status → Bool
is_waiting_status (some pending) = true
is_waiting_status (some extracting) = true
is_waiting_status _ = false

-- whether the source is still the task's, and not finished
abbrev pub is_wanted : String → Option Source → Bool
is_wanted task none = false
is_wanted task (some r) = owns task r.celery_task_id && is_waiting_status r.extraction_status

-- `get_source(source_id) if source_id else None`
abbrev pub source_of : Table → String → Option Source
source_of sources id = if id =s "" then none else sources id

-- The links of a sweep's calls, those for one task by its id.
pub record SweepEnv : Type 0 where
  pub now : ℕ
  pub time_limit : ℕ
  pub listing : Link
  pub entries : String → Link × Link
  pub clearing : String → Link
  pub reading : String → Link
  pub asking : String → Link
  pub touching : String → Link
  pub counting : Link
  pub claiming : Link

module _ (server : Server) (env : SweepEnv) where
  open server use {slot_sets, ranked, attempt_keys, ranged, wait_keys, mark_keys}

  -- `previous` is of a run that holds a live slot
  abbrev pub is_held : String → World server → Bool
  is_held task w = elim (previous ranked attempt_keys (env.reading task) env.now task w.attempts) [
    | none ↦ false
    | some p ↦ is_live_attempt server (env.asking task) env.now p w.slots
  ]

  abbrev pub resent : String → WaitRecord → World server → World server
  resent task rec w = call server (sending task rec.dispatch) (record w {
    waiting =
        touch ranged wait_keys mark_keys (env.touching task) (record_ttl env.time_limit * second)
          env.now task rec.source_id rec.dispatch w.waiting;
  })

  abbrev pub forgotten : String → World server → World server
  forgotten task w = record w {
    waiting = clear ranged wait_keys mark_keys (env.clearing task) env.now task w.waiting;
  }

  -- the loop's body: whether it recovered the task
  unfoldable pub recover_one : String → WaitRecord → World server → Bool × World server
  recover_one task rec w =
      if is_wanted task (source_of w.sources rec.source_id)
      then (if is_held task w then (false, w) else (true, resent task rec w))
      else (false, forgotten task w)

  unfoldable pub recover_all : List (String × WaitRecord) → World server → ℕ × World server
  unfolding recover_one
  recover_all [] w = (0, w)
  recover_all ((task, rec) ∷ waits) w =
      let (one, w') = recover_one task rec w in
      let (n, w'') = recover_all waits w' in (if one then suc n else n, w'')

  -- schedule_stranded_extraction_recovery
  unfoldable pub schedule_stranded_extraction_recovery : World server → World server
  schedule_stranded_extraction_recovery w =
      let (won, waiting') =
        claim_sweep ranged wait_keys mark_keys env.claiming stale_after env.now w.waiting in
      if won
      then call server scheduling_sweep (record w { waiting = waiting' })
      else record w { waiting = waiting' }

  -- recover_stranded_extractions
  unfoldable pub recover_stranded_extractions : World server → ℕ × World server
  unfolding recover_all schedule_stranded_extraction_recovery
  recover_stranded_extractions w =
      let (found, waiting') =
        stale ranged wait_keys mark_keys env.listing env.entries env.now stale_after w.waiting in
      let (n, w') = recover_all found (record w { waiting = waiting' }) in
      (
        n,
        if any_waiting ranged wait_keys mark_keys env.counting env.now w'.waiting
            then schedule_stranded_extraction_recovery w'
            else w',
      )
