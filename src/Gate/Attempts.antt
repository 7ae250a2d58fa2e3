-- ===== src/Gate/Attempts.antt =====
-- `ExtractionAttempts` and `PreviousAttempt` of services/extraction_gate.py: which extractions
-- were in flight in each worker process, kept in Redis for a redelivered task to read.
pub mod Charged
use powabase_ai.Prelude.{
  ℕ, ◌+◌, ◌-◌, ◌*◌, ◌^◌, ◌≡◌, Bool, true, false, Option, none, some, List, [], ◌∷◌, String, leb,
  ◌=s◌, if◌then◌else◌,
}
use powabase_ai.Redis.Ranked.{RankedSets, Score, finite, infinite}
use powabase_ai.Redis.Keys.{StringKeys}
use powabase_ai.Gate.Slots.{Link, up, down, cut}

-- The JSON record of one attempt.
pub record AttemptRecord : Type 0 where
  pub incarnation : String
  pub size : Option ℕ
  pub slot_token : Option String

pub record PreviousAttempt : Type 0 where
  pub slot_token : Option String
  pub size : Option ℕ
  pub largest_in_flight : Option ℕ

-- PreviousAttempt.plausible_cause
unfoldable pub plausible_cause : PreviousAttempt → Bool
plausible_cause p = elim p.size [
  | none ↦ true
  | some size ↦ elim p.largest_in_flight [ none ↦ true | some largest ↦ leb largest size ]
]

-- the score of a file: `float("inf") if size is None else size`
abbrev pub score_of_size : Option ℕ → Score
score_of_size none = infinite
score_of_size (some size) = finite size

-- sys.maxsize
abbrev pub maxsize : ℕ
maxsize = 2 ^ 63 - 1

abbrev pub largest_of : Option Score → Option ℕ
largest_of none = none
largest_of (some infinite) = some maxsize
largest_of (some (finite n)) = some n

-- _record_ttl_seconds, of the task time limit in seconds
unfoldable pub record_ttl : ℕ → ℕ
record_ttl time_limit = 2 * time_limit + 3600

module _ (z : RankedSets) (keys : StringKeys AttemptRecord) where
  open z use {ZSet, no_members, zadd, zrem, zrevrange_top}
  open keys use {Store, get, set, delete}

  -- The Redis keys that the class writes: one sorted set for each incarnation, with the time at
  -- which its EXPIRE removes it, and one string for each task.
  pub record Attempts : Type 0 where
    pub in_flight : String → ZSet
    pub deadline : String → ℕ
    pub records : Store

  abbrev pub in_flight_at : Attempts → ℕ → String → ZSet
  in_flight_at st now inc = if leb (st.deadline inc) now then no_members else st.in_flight inc

  abbrev pub update : {A : Type 0} → (String → A) → String → A → String → A
  update f k v j = if k =s j then v else f j

  -- The pipeline of `begin`, one transaction.
  unfoldable pub begin_pipeline :
      ℕ → ℕ → String → String → Option ℕ → Option String → Attempts → Attempts
  begin_pipeline ttl now inc task size token st = record {
    in_flight = update st.in_flight inc (zadd (in_flight_at st now inc) (score_of_size size) task);
    deadline = update st.deadline inc (now + ttl);
    records =
        set st.records now ttl task (record { incarnation = inc; size = size; slot_token = token });
  }

  -- ExtractionAttempts.begin
  unfoldable pub begin :
      Link → ℕ → ℕ → String → String → Option ℕ → Option String → Attempts → Attempts
  unfolding begin_pipeline
  begin down ttl now inc task size token st = st
  begin _ ttl now inc task size token st = begin_pipeline ttl now inc task size token st

  -- ExtractionAttempts.end
  unfoldable pub end : Link → ℕ → String → String → Attempts → Attempts
  end down now inc task st = st
  end _ now inc task st = record {
    in_flight = update st.in_flight inc (zrem (in_flight_at st now inc) task);
    deadline = st.deadline;
    records = delete st.records task;
  }

  abbrev pub read_previous : Attempts → ℕ → Option AttemptRecord → Option PreviousAttempt
  read_previous st now none = none
  read_previous st now (some rec) = some (record {
    slot_token = rec.slot_token;
    size = rec.size;
    largest_in_flight = largest_of (zrevrange_top (in_flight_at st now rec.incarnation));
  })

  -- ExtractionAttempts.previous
  unfoldable pub previous : Link → ℕ → String → Attempts → Option PreviousAttempt
  previous up now task st = read_previous st now (get st.records now task)
  previous _ now task st = none
