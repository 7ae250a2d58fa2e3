-- ===== src/Extraction/Credit.antt =====
-- What a source row allows a task of tasks/extraction.py: the runs that it may still begin.
use powabase_ai.Prelude.{
  ℕ, suc, ◌+◌, ◌-◌, ◌≤◌, ◌≡◌, refl, sym, ap, ◌∙◌, Bool, true, false, ◌&&◌, Option, none, some,
  String, arith, =s_refl, if◌then◌else◌, ◌⊎◌, inl, inr, Bool-cases,
}
use powabase_ai.Gate.Attempts.{PreviousAttempt}
use powabase_ai.Gate.Waiting.{Dispatch}
use powabase_ai.Extraction.{
  Message, Table, Source, Marker, pending, is_extracting, owns, may_write, matching, rewritten,
  update_row, claim_source, update_source_status, record_extraction_interruption,
}
use powabase_ai.Extraction.Task.{
  max_retries, Answer, deferred, retrying, died, counts_of, count_one, is_spent, was_bystander,
  marker_of,
}

-- the interruptions that a marker still allows
abbrev pub spare_of : ℕ × ℕ → ℕ
spare_of (count, other) = (1 - count) + (4 - other)

abbrev pub spare : String → Option Marker → ℕ
spare task m = spare_of (counts_of task m)

abbrev pub is_running : String → Source → Bool
is_running task r = is_extracting r.extraction_status && owns task r.celery_task_id

-- the runs that the task may still begin of a row, its retries aside
abbrev pub credit : String → Option Source → ℕ
credit task none = 0
credit task (some r) =
    if may_write task r
    then (if is_running task r then spare task r.marker else suc (spare task r.marker))
    else 0

abbrev pub left : Dispatch → ℕ
left msg = max_retries - msg.retries

-- the answers that end the task: it is not sent again
abbrev pub ends : Answer → Bool
ends retrying = false
ends deferred = false
ends died = false
ends _ = true

-- the retries that are left after an answer
abbrev pub left_after : Answer → Dispatch → ℕ
left_after retrying msg = max_retries - (msg.retries + 1)
left_after _ msg = left msg

-- the runs that may follow an answer
abbrev pub rest : Answer → Dispatch → ℕ → ℕ
rest a msg c = if ends a then 0 else c + left_after a msg

count_one-spare :
    (counts : ℕ × ℕ) (prev : Option PreviousAttempt)
    → is_spent (count_one counts prev) prev ≡ false
    → suc (spare_of (count_one counts prev)) ≡ spare_of counts
count_one-spare (count, other) prev h = elim (Bool-cases (was_bystander prev)) [
  | inl by ↦ ground (arith, by, h)
  | inr by ↦ ground (arith, by, h)
]

counts_of-marker_of :
    (task : String) (counts : ℕ × ℕ) → counts_of task (some (marker_of task counts)) ≡ counts
counts_of-marker_of task (count, other) = rw (=s_refl task) refl

module _ (id task : String) where
  update_row-wrote :
      (p : Source → Bool) (f : Source → Source) (t : Table)
      → (update_row id p f t).0 ≡ matching p (t id)
  unfolding update_row
  update_row-wrote p f t = elim (Bool-cases (matching p (t id))) [
    | inl found ↦ rw (found) refl
    | inr missing ↦ rw (missing) refl
  ]

  update_row-at :
      (p : Source → Bool) (f : Source → Source) (t : Table)
      → (update_row id p f t).1 id ≡ (if matching p (t id) then rewritten f (t id) else t id)
  unfolding update_row
  update_row-at p f t = elim (Bool-cases (matching p (t id))) [
    | inl found ↦ rw (found, =s_refl id) refl
    | inr missing ↦ rw (missing) refl
  ]

  -- the runs that a claim of this row may begin, its own one too
  abbrev pub startable : Option Source → ℕ
  startable none = 0
  startable (some r) = if may_write task r then suc (spare task r.marker) else 0

  claimed_row :
      (row : Option Source) (f : Source → Source)
      → ((r : Source) → (is_running task (f r) ≡ true) × ((f r).marker ≡ r.marker))
      → matching (may_write task) row ≡ true
      → suc (credit task (if matching (may_write task) row then rewritten f row else row))
        ≤ startable row
  claimed_row none f h ok = absurd (ground (arith, ok))
  claimed_row (some r) f h ok = ground (arith, h r, ok)

  pub lost_row : (row : Option Source) → matching (may_write task) row ≡ false → credit task row ≡ 0
  lost_row none h = refl
  lost_row (some r) h = ground (arith, h)

  -- the row as it was read, or one that is not the task's any more
  abbrev pub SameOrLost : Source → Option Source → Type 0
  SameOrLost r row = (row ≡ some r) ⊎ (matching (may_write task) row ≡ false)

  pub fresh_row :
      (r : Source) (row : Option Source)
      → SameOrLost r row
      → is_running task r ≡ false
      → startable row ≤ credit task row
  fresh_row r none h still = omega arith
  fresh_row r (some q) (inl same) still = ground (arith, same, still)
  fresh_row r (some q) (inr lost) still = ground (arith, lost)

  pub interrupted_row :
      (r : Source) (row : Option Source) (prev : Option PreviousAttempt)
      → SameOrLost r row
      → is_running task r ≡ true
      → is_spent (count_one (counts_of task r.marker) prev) prev ≡ false
      → startable (
          rewritten
            (λ q. record q {
              marker = some (marker_of task (count_one (counts_of task r.marker) prev));
            })
            row)
        ≤ credit task row
  interrupted_row r none prev h still more = omega arith
  interrupted_row r (some q) prev (inr lost) still more = ground (arith, lost)
  interrupted_row r (some q) prev (inl same) still more =
      rw
        (
          ap {B = Source} (λ (o : Option Source). elim o [ none ↦ r | some x ↦ x ]) same,
          counts_of-marker_of,
          count_one-spare (counts_of task r.marker) prev more,
        )
        (ground (arith, still))

  pending_row :
      (row : Option Source) (f : Source → Source)
      → ((r : Source) → (is_running task (f r) ≡ false) × ((f r).marker ≡ r.marker))
      → credit task (if matching (may_write task) row then rewritten f row else row)
        ≤ suc (credit task row)
  pending_row none f h = omega arith
  pending_row (some r) f h = ground (arith, h r)

  pub claimed_credit :
      (t : Table)
      → (claim_source id task t).0 ≡ true
      → suc (credit task ((claim_source id task t).1 id)) ≤ startable (t id)
  unfolding claim_source
  claimed_credit t ok = rw (update_row-at) (
      claimed_row (t id) _ (λ r. (=s_refl task, refl))
        (sym (update_row-wrote (may_write task) _ t) ∙ ok))

  pub pending_credit :
      (message : Message) (t : Table)
      → credit task ((update_source_status id pending message task none t).1 id)
        ≤ suc (credit task (t id))
  unfolding update_source_status
  pending_credit message t = rw (update_row-at) (pending_row (t id) _ (λ r. (refl, refl)))

  pub interruption_row :
      (m : Marker) (t : Table)
      → record_extraction_interruption id m t id
        ≡ rewritten (λ r. record r { marker = some m }) (t id)
  unfolding record_extraction_interruption
  interruption_row m t = rw (update_row-at) (go (t id))
    where
      go :
          (row : Option Source)
          → (if matching (λ r. true) row
              then rewritten (λ r. record r { marker = some m }) row
              else row)
            ≡ rewritten (λ r. record r { marker = some m }) row
      go none = refl
      go (some r) = refl
