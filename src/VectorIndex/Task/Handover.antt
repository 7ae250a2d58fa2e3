-- ===== src/VectorIndex/Task/Handover.antt =====
-- What the waiter of a knowledge base in tasks/indexing.py owes to the dispatches it superseded.
use powabase_ai.Prelude.{
  ℕ, ◌+◌, ◌≡◌, refl, sym, ◌∙◌, subst, Bool, true, false, Option, none, some, String, arith, =s_refl,
  ◌⊎◌, if◌then◌else◌, Bool-cases, inl, inr,
}
use powabase_ai.VectorIndex.Ensure.{
  Outcome, outcome, outcome_waits_for_the_table, outcome_needs_another_attempt,
}
use powabase_ai.VectorIndex.Task.{
  Message, Marks, World, Answer, returned, Env, claim_taken, claim_waiter, release_waiter,
  is_retrying, finally, busy_answer, on_busy, on_unrepaired, on_exception, run, ensure_task,
}

-- the marker is this task's, and a dispatch is pending
abbrev pub IsOwing : String → Marks → Type 0
IsOwing id marks = (marks.waiter ≡ some id) × (marks.pending ≡ true)

-- What others do leaves the marker to the task, and a dispatch pending that is.
abbrev pub StaysOwing : String → (Marks → Marks) → Type 0
StaysOwing id f = (marks : Marks) → IsOwing id marks → IsOwing id (f marks)

some-elim :
    {A : Type 0} (o : Option String) (x : A) (f : String → A) (t : String)
    → o ≡ some t
    → elim o [ none ↦ x | some u ↦ f u ] ≡ f t
some-elim o x f t h = rw (h) refl

module _ (id : String) (env : Env) (m : Message) (redis : env.redis_answers ≡ true)
    (takes : env.broker_takes ≡ true)
    (superseding : (marks : Marks) → marks.waiter ≡ some id → IsOwing id (env.during marks))
    (while_set : StaysOwing id env.after_set) (while_over : StaysOwing id env.before_release) where
  -- the marker is given back and the task sent once more
  abbrev HandsOver : ℕ → Answer × World → Type 0
  HandsOver sent x =
      x.1 ≡ record { marks = record { waiter = none; pending = false }; sent_again = sent + 1 }

  release_waiter-hands_over :
      (w : World)
      → IsOwing id w.marks
      → release_waiter id env w ≡ record {
        marks = record { waiter = none; pending = false };
        sent_again = w.sent_again + 1;
      }
  unfolding release_waiter
  release_waiter-hands_over w (mine, owed) = rw (redis, mine, owed, takes, =s_refl id) refl

  finally-HandsOver :
      (a : Answer) (w : World)
      → IsOwing id w.marks
      → HandsOver w.sent_again (finally id env m false a w)
  finally-HandsOver a w owing =
      release_waiter-hands_over (record w { marks = env.before_release w.marks })
        (while_over w.marks owing)

  -- the task finds its own marker in the way of the SET, and then reads it
  claim_waiter-own :
      (marks : Marks) → IsOwing id marks → claim_waiter id env marks ≡ (id, env.after_set marks)
  unfolding claim_waiter
  claim_waiter-own marks owing = rw (redis) (
      some-elim marks.waiter _ (λ t. claim_taken id env (env.after_set marks)) id owing.0
      ∙ some-elim (env.after_set marks).waiter _ (λ t. (t, env.after_set marks)) id
          (while_set marks owing).0)

  on_busy-own :
      (o : Outcome) (marks : Marks)
      → IsOwing id marks
      → on_busy id env m o marks ≡ (busy_answer id env m o, env.after_set marks)
  unfolding on_busy
  on_busy-own o marks owing = rw (claim_waiter-own marks owing, =s_refl id) refl

  HandsOver-if :
      (sent : ℕ) (b : Bool) (x y : Answer × World)
      → (b ≡ true → HandsOver sent x)
      → (b ≡ false → HandsOver sent y)
      → HandsOver sent (if b then x else y)
  HandsOver-if sent true x y hx hy = hx refl
  HandsOver-if sent false x y hx hy = hy refl

  run_busy :
      (w : World)
      → w.marks.waiter ≡ some id
      → env.pass.raised ≡ false
      → outcome_waits_for_the_table (outcome env.pass.report) ≡ true
      → let a = busy_answer id env m (outcome env.pass.report) in
        run id env m w
        ≡ finally id env m
            (is_retrying id env m a)
            a
            (record w { marks = env.after_set (env.during w.marks) })
  unfolding run
  run_busy w mine quiet busy =
      rw
        (
          quiet,
          busy,
          on_busy-own (outcome env.pass.report) (env.during w.marks) (superseding w.marks mine),
        )
        refl

  run_free :
      (w : World)
      → w.marks.waiter ≡ some id
      → (env.pass.raised ≡ true) ⊎ (outcome_waits_for_the_table (outcome env.pass.report) ≡ false)
      → HandsOver w.sent_again (run id env m w)
  unfolding run
  run_free w mine ends =
      let o = outcome env.pass.report in
      let w' : World = record w { marks = env.during w.marks } in
      let owing = superseding w.marks mine in
      HandsOver-if w.sent_again env.pass.raised _ _
        (λ raised. finally-HandsOver (on_exception id env m) w' owing)
        (λ quiet.
          HandsOver-if w.sent_again (outcome_waits_for_the_table o) _ _
            (λ waits. absurd (ground (arith, ends, quiet, waits)))
            (λ free.
              HandsOver-if w.sent_again (outcome_needs_another_attempt o) _ _
                (λ again. finally-HandsOver (on_unrepaired id env m o) w' owing)
                (λ over. finally-HandsOver (returned o) w' owing)))

  -- a waiter that gives up on a busy table, or whose message is not taken
  finally_gives_up :
      (a : Answer) (w : World)
      → IsOwing id w.marks
      → is_retrying id env m a ≡ false
      → HandsOver w.sent_again (finally id env m (is_retrying id env m a) a w)
  finally_gives_up a w owing over = rw (over) (finally-HandsOver a w owing)

  run_gives_up :
      (w : World)
      → w.marks.waiter ≡ some id
      → env.pass.raised ≡ false
      → outcome_waits_for_the_table (outcome env.pass.report) ≡ true
      → is_retrying id env m (run id env m w).0 ≡ false
      → HandsOver w.sent_again (run id env m w)
  run_gives_up w mine quiet busy over =
      let same = run_busy w mine quiet busy in
      subst (λ x. HandsOver w.sent_again x) (sym same)
        (finally_gives_up (busy_answer id env m (outcome env.pass.report))
          (record w { marks = env.after_set (env.during w.marks) })
          (while_set (env.during w.marks) (superseding w.marks mine))
          (subst (λ x. is_retrying id env m x.0 ≡ false) same over))

  -- the task does not come back to wait for the table
  abbrev pub IsOver : Answer → Type 0
  IsOver a =
      (env.pass.raised ≡ true)
      ⊎ ((outcome_waits_for_the_table (outcome env.pass.report) ≡ false)
          ⊎ (is_retrying id env m a ≡ false))

  run-HandsOver :
      (w : World)
      → w.marks.waiter ≡ some id
      → IsOver (run id env m w).0
      → HandsOver w.sent_again (run id env m w)
  run-HandsOver w mine (inl raised) = run_free w mine (inl raised)
  run-HandsOver w mine (inr (inl free)) = run_free w mine (inr free)
  run-HandsOver w mine (inr (inr over)) = elim (Bool-cases env.pass.raised) [
    | inl raised ↦ run_free w mine (inl raised)
    | inr quiet ↦ elim (Bool-cases (outcome_waits_for_the_table (outcome env.pass.report))) [
      | inl busy ↦ run_gives_up w mine quiet busy over
      | inr free ↦ run_free w mine (inr free)
    ]
  ]

  ensure_task-own : (w : World) → w.marks.waiter ≡ some id → ensure_task id env m w ≡ run id env m w
  unfolding ensure_task
  ensure_task-own w mine = rw (redis, mine, =s_refl id) refl

  -- A waiter that a dispatch relied on while it reconciled, and that does not come back to wait for
  -- the table, gives the marker back, clears the pending dispatch and sends the task once more: with
  -- any outcome, with an exception, and where it gives up on a busy table or no message is left to
  -- it. Redis and the broker answer, and nobody takes the marker or the pending dispatch away.
  pub ensure_task-hands_over :
      (w : World)
      → w.marks.waiter ≡ some id
      → IsOver (ensure_task id env m w).0
      → (ensure_task id env m w).1 ≡ record {
        marks = record { waiter = none; pending = false };
        sent_again = w.sent_again + 1;
      }
  ensure_task-hands_over w mine over =
      let same = ensure_task-own w mine in
      subst (λ x. HandsOver w.sent_again x) (sym same)
        (run-HandsOver w mine (subst (λ x. IsOver x.0) same over))
