-- ===== src/Gate/Attempts/Charged.antt =====
-- When a worker is killed, at least one of the extractions that it was running is charged, and one
-- that is not charged had a larger file beside it.
use powabase_ai.Prelude.{
  InOrder, ℕ, ◌+◌, ◌<◌, ◌≡◌, refl, ap, true, false, Option, none, some, List, [], ◌∷◌, String,
  arith, ◌=s◌, =s_refl, Bool-cases, lt→leb, inl, inr,
}
use powabase_ai.Redis.Ranked.{RankedSets, Score, covers, score_le}
use powabase_ai.Redis.Keys.{StringKeys}
use powabase_ai.Gate.Slots.{Link, up, down, cut}
use powabase_ai.Gate.Attempts

-- What one worker process writes: an extraction began or ended.
pub data Work : Type 0 where
  began : Link → String → Option ℕ → Option String → Work
  ended : Link → String → Work

abbrev Recorded : String → Score → Option Attempts.AttemptRecord → Type 0
Recorded inc x none = ⊥
Recorded inc x (some rec) = (rec.incarnation ≡ inc) × (Attempts.score_of_size rec.size ≡ x)

module _ (z : RankedSets) (keys : StringKeys Attempts.AttemptRecord) (ttl : ℕ) (inc : String) where
  open z use {
    ZSet, no_members, zscore, zadd, zrem, zrevrange_top, zscore-zadd, zscore-zrem, zscore-empty,
    top_member, top_highest,
  }
  open keys use {get, set, delete, get-set, get-delete}

  unfoldable pub note : ℕ → Work → Attempts.Attempts z keys → Attempts.Attempts z keys
  note now (began l task size token) st = Attempts.begin z keys l ttl now inc task size token st
  note now (ended l task) st = Attempts.end z keys l now inc task st

  -- the writes of the process, in order
  unfoldable pub notes : List (ℕ × Work) → Attempts.Attempts z keys → Attempts.Attempts z keys
  notes [] st = st
  notes ((now, w) ∷ rest) st = notes rest (note now w st)

  -- Every extraction in flight has its record, readable at `u`.
  record AllRecorded (u : ℕ) (st : Attempts.Attempts z keys) : Type 0 where
    at :
        (task : String) (x : Score)
        → zscore (st.in_flight inc) task ≡ some x
        → Recorded inc x (get st.records u task)

  module _ (u now : ℕ) (fresh : u < now + ttl) (st : Attempts.Attempts z keys)
      (all : AllRecorded u st) where
    AllRecorded-found :
        (task : String) (x : Score)
        → zscore (Attempts.in_flight_at z keys st now inc) task ≡ some x
        → Recorded inc x (get st.records u task)
    AllRecorded-found task x h = ground (arith, all.at task x, zscore-empty task)

    removed :
        (task k : String) (x : Score)
        → zscore
            (Attempts.update z keys st.in_flight inc
              (zrem (Attempts.in_flight_at z keys st now inc) task)
              inc)
            k
          ≡ some x
        → Recorded inc x (get (delete st.records task) u k)
    removed task k x h =
        let gone = zscore-zrem (Attempts.in_flight_at z keys st now inc) task k in
        elim (Bool-cases (task =s k)) [
          | inl same ↦ ground (arith, gone, =s_refl inc)
          | inr other ↦
              rw (get-delete, other) (AllRecorded-found k x (ground (arith, gone, =s_refl inc)))
        ]

    begin-Recorded :
        (task : String) (size : Option ℕ) (token : Option String) (k : String) (x : Score)
        → let st' = Attempts.begin_pipeline z keys ttl now inc task size token st in
          zscore (st'.in_flight inc) k ≡ some x → Recorded inc x (get st'.records u k)
    unfolding Attempts.begin_pipeline
    begin-Recorded task size token k x h =
        let f = Attempts.in_flight_at z keys st now inc in
        let added = zscore-zadd f (Attempts.score_of_size size) task k in
        elim (Bool-cases (task =s k)) [
          | inl same ↦
              rw (get-set, same, lt→leb (now + ttl) u fresh)
                (refl, ground (arith, added, =s_refl inc))
          | inr other ↦
              rw (get-set, other) (AllRecorded-found k x (ground (arith, added, =s_refl inc)))
        ]

    end-Recorded :
        (l : Link) (task k : String) (x : Score)
        → let st' = Attempts.end z keys l now inc task st in
          zscore (st'.in_flight inc) k ≡ some x → Recorded inc x (get st'.records u k)
    unfolding Attempts.end
    end-Recorded down task k x h = all.at k x h
    end-Recorded up task k x h = removed task k x h
    end-Recorded cut task k x h = removed task k x h

    AllRecorded-note : (w : Work) → AllRecorded u (note now w st)
    unfolding note Attempts.begin
    AllRecorded-note (began up task size token) = record { at = begin-Recorded task size token }
    AllRecorded-note (began down task size token) = all
    AllRecorded-note (began cut task size token) = record { at = begin-Recorded task size token }
    AllRecorded-note (ended l task) = record { at = end-Recorded l task }

  AllRecorded-notes :
      (t u : ℕ) (works : List (ℕ × Work)) (st : Attempts.Attempts z keys)
      → InOrder t works u
      → u < t + ttl
      → AllRecorded u st
      → AllRecorded u (notes works st)
  unfolding notes
  AllRecorded-notes t u [] st o fresh all = all
  AllRecorded-notes t u ((now, w) ∷ rest) st o fresh all =
      AllRecorded-notes now u rest (note now w st) o.1 (omega (arith, o.0))
        (AllRecorded-note u now (omega (arith, o.0)) st all w)

  abbrev pub IsCharged : ℕ → Attempts.Attempts z keys → String → Type 0
  IsCharged u st task =
      (p : Attempts.PreviousAttempt) × (Attempts.previous z keys up u task st ≡ some p)
      × (Attempts.plausible_cause p ≡ true)

  IsCharged-of_record :
      (u : ℕ) (st : Attempts.Attempts z keys) (task : String) (x : Score)
      (o : Option Attempts.AttemptRecord)
      → get st.records u task ≡ o
      → zrevrange_top (Attempts.in_flight_at z keys st u inc) ≡ some x
      → Recorded inc x o
      → IsCharged u st task
  unfolding Attempts.previous Attempts.plausible_cause
  IsCharged-of_record u st task x none e top r = absurd r
  IsCharged-of_record u st task x (some rec) e top r = (
    record {
      slot_token = rec.slot_token;
      size = rec.size;
      largest_in_flight = Attempts.largest_of (some x);
    },
    rw e (ground arith),
    ground arith,
  )

  IsCharged-of_top :
      (u : ℕ) (st : Attempts.Attempts z keys)
      → AllRecorded u st
      → (o : Option Score) (y : Score) → zrevrange_top (Attempts.in_flight_at z keys st u inc) ≡ o
      → covers o y ≡ true
      → (culprit : String) × IsCharged u st culprit
  IsCharged-of_top u st all none y top h = cc
  IsCharged-of_top u st all (some x) y top h =
      let (m, here) = top_member (Attempts.in_flight_at z keys st u inc) x top in
      (
        m,
        IsCharged-of_record u st m x (get st.records u m) refl top
            (ground (arith, all.at m x, zscore-empty m)),
      )

  -- A worker process writes what it runs, from nothing and within the records' lifetime, whichever
  -- of its writes fail. While any extraction of it is in flight, at least one task is charged.
  pub some_task-IsCharged :
      (t u : ℕ) (works : List (ℕ × Work)) (st : Attempts.Attempts z keys) (task : String)
      (y : Score)
      → st.in_flight inc ≡ no_members
      → InOrder t works u
      → u < t + ttl
      → zscore (Attempts.in_flight_at z keys (notes works st) u inc) task ≡ some y
      → (culprit : String) × IsCharged u (notes works st) culprit
  some_task-IsCharged t u works st task y start o fresh h =
      let all =
        AllRecorded-notes t u works st o fresh
          (record { at = λ k x e. absurd (none_of_start k x e) }) in
      IsCharged-of_top u (notes works st) all _ y refl
        (top_highest (Attempts.in_flight_at z keys (notes works st) u inc) task y h)
    where
      none_of_start : (k : String) (x : Score) → zscore (st.in_flight inc) k ≡ some x → ⊥
      none_of_start k x e = cc (zscore-empty k, ap (λ s. zscore s k) start)

  -- What an uncharged task leaves in Redis: its record, and a larger file in flight beside it.
  pub record Bystander (u : ℕ) (st : Attempts.Attempts z keys) (task : String) : Type 0 where
    rec : Attempts.AttemptRecord
    is_record : get st.records u task ≡ some rec
    other : String
    score : Score
    beside : zscore (Attempts.in_flight_at z keys st u rec.incarnation) other ≡ some score
    larger : score_le score (Attempts.score_of_size rec.size) ≡ false

  -- A task whose previous attempt is read and not charged was a bystander: its record is there, and
  -- beside it in flight in its worker is a file that is larger than its own.
  uncharged-Bystander :
      (u : ℕ) (st : Attempts.Attempts z keys) (task : String) (p : Attempts.PreviousAttempt)
      → Attempts.previous z keys up u task st ≡ some p
      → Attempts.plausible_cause p ≡ false
      → Bystander u st task
  unfolding Attempts.previous Attempts.plausible_cause
  uncharged-Bystander u st task p h no_cause = go (get st.records u task) refl
    where
      with_top :
          (rec : Attempts.AttemptRecord)
          → get st.records u task ≡ some rec
          → (o : Option Score)
          → zrevrange_top (Attempts.in_flight_at z keys st u rec.incarnation) ≡ o
          → Bystander u st task
      with_top rec e none top = absurd (ground arith)
      with_top rec e (some x) top =
          let (m, here) = top_member (Attempts.in_flight_at z keys st u rec.incarnation) x top in
          record {
            rec = rec;
            is_record = e;
            other = m;
            score = x;
            beside = here;
            larger = ground arith;
          }

      go : (o : Option Attempts.AttemptRecord) → get st.records u task ≡ o → Bystander u st task
      go none e = absurd (ground arith)
      go (some rec) e = with_top rec e _ refl
