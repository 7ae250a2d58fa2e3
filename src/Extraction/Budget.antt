-- ===== src/Extraction/Budget.antt =====
-- How often a task runs the extraction of a source, with its retries and kills in the extraction.
use powabase_ai.Prelude.{
  ℕ, ◌+◌, ◌≤◌, ◌≡◌, Bool-cases, inl, inr, List, [], ◌∷◌, String, arith, All, if◌then◌else◌, Option,
  none, some,
}
use powabase_ai.Gate.Waiting.{Dispatch}
use powabase_ai.Extraction.{Dispatched, Source}
use powabase_ai.Extraction.Task.{Server, World, Env, Answer, retrying, extract_source}
use powabase_ai.Extraction.Credit.{credit, left, ends, left_after, rest}
use powabase_ai.Extraction.Steps.{runs_in, Elsewhere, others_allowance, extract_source-Within}

-- The message that is delivered next: a retry counts one more.
abbrev pub next_message : Answer → Dispatch → Dispatch
next_message retrying msg = record msg { retries = msg.retries + 1 }
next_message _ msg = msg

next_left : (a : Answer) (msg : Dispatch) → left (next_message a msg) ≡ left_after a msg
next_left a msg = ground arith

module _ (server : Server) (id task : String) (args : Dispatched) where
  -- The deliveries of a task until one ends it: a message that the task sends again, and one that
  -- the broker hands back after its worker was killed, is delivered again. Before each delivery
  -- others may act.
  unfoldable pub deliveries :
      List ((World server → World server) × Env server) → Dispatch → World server → World server
  deliveries [] msg w = w
  deliveries ((others, env) ∷ later) msg w =
      let (a, w') = extract_source server id task args env msg (others w) in
      let next = deliveries later (next_message a msg) w' in if ends a then w' else next

  -- What others do leaves the source alone, or takes it from the task.
  abbrev pub OthersElsewhere : (World server → World server) × Env server → Type 0
  OthersElsewhere (others, env) =
      Elsewhere id task server others
      × (Elsewhere id task server env.meanwhile × Elsewhere id task server env.during)

  continued :
      (msg : Dispatch) (a : Answer) (w end : World server) (b : ℕ)
      → runs_in w.calls + rest a msg (credit task (w.sources id)) ≤ b
      → runs_in end.calls
        ≤ runs_in w.calls + (credit task (w.sources id) + left (next_message a msg))
      → runs_in (if ends a then w else end).calls ≤ b
  continued msg a w end b h k = elim (Bool-cases (ends a)) [
    | inl over ↦ rw (over) (omega (arith, h))
    | inr more ↦ rw (more) (ground (arith, more, next_left a msg, h, k))
  ]

  deliveries-allowance :
      (history : List ((World server → World server) × Env server)) (msg : Dispatch)
      (w : World server)
      → All OthersElsewhere history
      → runs_in (deliveries history msg w).calls
        ≤ runs_in w.calls + (credit task (w.sources id) + left msg)
  unfolding deliveries
  deliveries-allowance [] msg w h = omega arith
  deliveries-allowance ((others, env) ∷ later) msg w h =
      let x = extract_source server id task args env msg (others w) in
      let step = extract_source-Within id task server args env msg h.0.1.1 h.0.1.0 (others w) in
      let before = others_allowance id task server args env msg others w h.0.0 in
      let after = deliveries-allowance later (next_message x.0 msg) x.1 h.1 in
      continued msg x.0 x.1 (deliveries later (next_message x.0 msg) x.1)
        (runs_in w.calls + (credit task (w.sources id) + left msg)) (omega (arith, step, before))
        after

  credit-le : (row : Option Source) → credit task row ≤ 6
  credit-le none = omega arith
  credit-le (some r) = ground arith

  -- The deliveries of one task run the extraction at most nine times: once, once again after an
  -- interruption that the task is charged with, four times after those beside a larger file, and
  -- three times as a retry. Each delivery after the first is of the message that the one before it
  -- sent, or of its own message again if the worker was killed in the extraction. A message that a
  -- sweep sends, with an older count of retries, is not among them. Others leave the source alone or
  -- take it from the task.
  pub runs_in-deliveries :
      (history : List ((World server → World server) × Env server)) (msg : Dispatch)
      (w : World server)
      → All OthersElsewhere history
      → runs_in (deliveries history msg w).calls ≤ runs_in w.calls + 9
  runs_in-deliveries history msg w h =
      omega (arith, deliveries-allowance history msg w h, credit-le (w.sources id))
