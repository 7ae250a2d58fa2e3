-- ===== src/Extraction/Lost.antt =====
-- A delivery of tasks/extraction.py whose message is lost with its worker, and the sweep after it.
use powabase_ai.Prelude.{◌+◌, ◌*◌, ◌≤◌, ◌<◌, ◌≡◌, ◌∙◌, true, false, String, [], arith, Has}
use powabase_ai.Gate.Slots.{up, second}
use powabase_ai.Gate.Attempts.{record_ttl}
use powabase_ai.Gate.Waiting.{Dispatch, index_at, stale_after}
use powabase_ai.Extraction.{Dispatched}
use powabase_ai.Extraction.Task.{Server, World, Env, extract_source, sending}
use powabase_ai.Extraction.Recovery.{
  SweepEnv, is_wanted, source_of, is_held, recover_stranded_extractions,
}
use powabase_ai.Extraction.Resent.{recover_stranded_extractions-sends}
use powabase_ai.Extraction.Waits.{is_sent_again, extract_source-Waits}

-- the world, with no calls made yet
abbrev pub uncalled : (server : Server) → World server → World server
uncalled server w = record w { calls = [] }

module _ (server : Server) (id task : String) (args : Dispatched) (env : Env server)
    (msg : Dispatch) (sweep : SweepEnv) where
  abbrev pub index_of : World server → server.ranged.sets.ZSet
  index_of w = index_at server.ranged server.wait_keys server.mark_keys sweep.now w.waiting

  -- A delivery that waits for a slot, for another run or for a retry, with the record of its wait
  -- written, is not lost with the worker that holds its message: a sweep later than
  -- WAITING_STALE_SECONDS after that, within the record's life, with its reads answered and the
  -- record as it was, sends the task again, with the same count of retries, if the source is still
  -- the task's and unfinished and no run of the task holds a live slot.
  pub extract_source-recover_stranded_extractions :
      (w v : World server)
      → is_sent_again (extract_source server id task args env msg w).0 ≡ true
      → env.touching ≡ up
      → env.touched_at + stale_after ≤ sweep.now
      → sweep.now < env.touched_at + record_ttl env.time_limit * second
      → let w' = (extract_source server id task args env msg w).1 in
        server.wait_keys.get v.waiting.records sweep.now task
          ≡ server.wait_keys.get w'.waiting.records sweep.now task
        → server.ranged.sets.zscore (index_of v) task ≡ server.ranged.sets.zscore (index_of w') task
        → sweep.listing ≡ up
        → ((t : String) → sweep.entries t ≡ (up, up))
        → is_wanted task (source_of v.sources id) ≡ true
        → is_held server sweep task v ≡ false
        → (d : Dispatch) × (d.retries ≡ msg.retries)
          × Has
              (sending task d)
              (recover_stranded_extractions server sweep (uncalled server v)).1.calls
  extract_source-recover_stranded_extractions w v again is_up late early same_record same_index
        listing entries wanted unheld =
      let h = extract_source-Waits server id task args env msg is_up w again in
      (
        h.wait.dispatch,
        h.same_retries,
        recover_stranded_extractions-sends server sweep task h.wait (uncalled server v) listing
            entries
            (record {
              touched_at = env.touched_at;
              indexed = same_index ∙ h.indexed sweep.now early;
              unrefreshed = ground (arith, late);
              recorded = same_record ∙ h.recorded sweep.now early;
            })
            (record { wanted = rw (h.of_source) wanted; unheld = unheld }),
      )
