-- ===== src/Extraction/Resent/Listed.antt =====
-- What `WaitingExtractions.stale` of services/extraction_gate.py lists when Redis answers.
use powabase_ai.Prelude.{
  ℕ, ◌≡◌, refl, Bool, true, false, none, some, List, [], ◌∷◌, String, ◌=s◌, =s_iff, arith, elem,
  Has, Option-cases, inl, inr, Bool-cases,
}
use powabase_ai.Redis.Ranged.{RangedSets}
use powabase_ai.Redis.Keys.{StringKeys}
use powabase_ai.Gate.Slots.{Link, up}
use powabase_ai.Gate.Waiting.{WaitRecord, Waiting, index_at, stale_records, get_waiting}

module _ (ranged : RangedSets) (keys : StringKeys WaitRecord) (marks : StringKeys Bool)
    (link : String → Link × Link) (now : ℕ) (all_up : (t : String) → link t ≡ (up, up))
    (task : String) (rec : WaitRecord) where
  abbrev without_task : String → Waiting ranged keys marks → Waiting ranged keys marks
  without_task t st = record st { index = ranged.sets.zrem (index_at ranged keys marks now st) t }

  module _ (t : String) (tasks : List String) (st : Waiting ranged keys marks) where
    stale_step_missing :
        keys.get st.records now t ≡ none
        → stale_records ranged keys marks link now (t ∷ tasks) st
          ≡ stale_records ranged keys marks link now tasks (without_task t st)
    unfolding stale_records get_waiting
    stale_step_missing missing = ground (arith, all_up t, missing)

    stale_step_found :
        (r : WaitRecord) (l : List (String × WaitRecord))
        → keys.get st.records now t ≡ some r
        → (stale_records ranged keys marks link now tasks st).0 ≡ some l
        → (stale_records ranged keys marks link now (t ∷ tasks) st).0 ≡ some ((t, r) ∷ l)
    unfolding stale_records get_waiting
    stale_step_found r l found rest = ground (arith, all_up t, found, rest)

  stale_records_answers :
      (tasks : List String) (st : Waiting ranged keys marks)
      → (l : List (String × WaitRecord)) × ((stale_records ranged keys marks link now tasks st).0
          ≡ some l)
  unfolding stale_records
  stale_records_answers [] st = ([], refl)
  stale_records_answers (t ∷ tasks) st = elim (Option-cases (keys.get st.records now t)) [
    | inl missing ↦
        rw (stale_step_missing t tasks st missing) (stale_records_answers tasks (without_task t st))
    | inr (r, found) ↦
        let (l, rest) = stale_records_answers tasks st in
        ((t, r) ∷ l, stale_step_found t tasks st r l found rest)
  ]

  found_is :
      (t : String) (r : WaitRecord) (st : Waiting ranged keys marks)
      → t ≡ task
      → keys.get st.records now task ≡ some rec
      → keys.get st.records now t ≡ some r
      → ◌≡◌ {A = String × WaitRecord} (t, r) (task, rec)
  found_is t r st same h found = ground (arith, same, h, found)

  not_missing :
      (t : String) (st : Waiting ranged keys marks)
      → keys.get st.records now task ≡ some rec
      → keys.get st.records now t ≡ none
      → (t =s task) ≡ false
  not_missing t st h missing = ground (arith, =s_iff t task, h, missing)

  pub stale_records-Has :
      (tasks : List String) (st : Waiting ranged keys marks)
      → elem task tasks ≡ true
      → keys.get st.records now task ≡ some rec
      → (l : List (String × WaitRecord)) × ((stale_records ranged keys marks link now tasks st).0
          ≡ some l)
        × Has (task, rec) l
  stale_records-Has [] st e h = absurd (ground (arith, e))
  stale_records-Has (t ∷ tasks) st e h = elim (Option-cases (keys.get st.records now t)) [
    | inl missing ↦ rw (stale_step_missing t tasks st missing) (
        stale_records-Has tasks (without_task t st) (ground (arith, e, not_missing t st h missing))
          h)
    | inr (r, found) ↦ elim (Bool-cases (t =s task)) [
      | inl same ↦
          let (l, rest) = stale_records_answers tasks st in
          (
            (t, r) ∷ l,
            stale_step_found t tasks st r l found rest,
            inl (found_is t r st ((=s_iff t task).0 same) h found),
          )
      | inr other ↦
          let (l, rest, has) = stale_records-Has tasks st (ground (arith, e, other)) h in
          ((t, r) ∷ l, stale_step_found t tasks st r l found rest, inr has)
    ]
  ]
