-- ===== src/Extraction/Resent.antt =====
-- A lost delivery is sent again by the sweep of tasks/extraction.py.
mod Listed
use powabase_ai.Prelude.{
  ℕ, ◌-◌, ◌≡◌, refl, ap, ◌∙◌, Bool, true, false, none, some, List, [], ◌∷◌, String, ◌=s◌, =s_iff,
  arith, leb, elem, if◌then◌else◌, Has, Has-append_left, Has-append_right, Option-cases, inl, inr,
  Bool-cases,
}
use powabase_ai.Redis.Ranged.{RangedSets, is_up_to}
use powabase_ai.Redis.Keys.{StringKeys}
use powabase_ai.Gate.Slots.{Link, up}
use powabase_ai.Gate.Waiting.{
  WaitRecord, Waiting, index_at, stale_after, stale_records, stale, get_waiting, any_waiting,
  claim_sweep,
}
use powabase_ai.Extraction.Task.{Server, World, Call, sending, scheduling_sweep}
use powabase_ai.Extraction.Recovery.{
  SweepEnv, is_wanted, source_of, is_held, resent, recover_one, recover_all,
  schedule_stranded_extraction_recovery, recover_stranded_extractions,
}
use powabase_ai.Extraction.Resent.Listed.{stale_records-Has}

module _ (server : Server) (env : SweepEnv) where
  module _ (x : Call) where
    if_keeps :
        (c : Bool) (a b : Bool × World server)
        → Has x a.1.calls
        → Has x b.1.calls
        → Has x (if c then a else b).1.calls
    if_keeps true a b ha hb = ha
    if_keeps false a b ha hb = hb

    recover_one-keeps :
        (t : String) (r : WaitRecord) (w : World server)
        → Has x w.calls
        → Has x (recover_one server env t r w).1.calls
    unfolding recover_one
    recover_one-keeps t r w h =
        if_keeps (is_wanted t (source_of w.sources r.source_id)) _ _
          (if_keeps (is_held server env t w) (false, w) (true, resent server env t r w) h
            (Has-append_left x w.calls (sending t r.dispatch ∷ []) h))
          h

    recover_all-keeps :
        (l : List (String × WaitRecord)) (w : World server)
        → Has x w.calls
        → Has x (recover_all server env l w).1.calls
    unfolding recover_all
    recover_all-keeps [] w h = h
    recover_all-keeps ((t, r) ∷ l) w h =
        recover_all-keeps l (recover_one server env t r w).1 (recover_one-keeps t r w h)

  -- what the loop's decision on a task reads is left alone by the loop
  abbrev Alike : World server → World server → Type 0
  Alike w v = (v.sources ≡ w.sources) × (v.attempts ≡ w.attempts) × (v.slots ≡ w.slots)

  recover_one-Alike :
      (t : String) (r : WaitRecord) (w : World server) → Alike w (recover_one server env t r w).1
  unfolding recover_one
  recover_one-Alike t r w =
      if_alike (is_wanted t (source_of w.sources r.source_id)) _ _
        (if_alike (is_held server env t w) (false, w) (true, resent server env t r w)
          (refl, refl, refl) (refl, refl, refl))
        (refl, refl, refl)
    where
      if_alike :
          (c : Bool) (a b : Bool × World server)
          → Alike w a.1
          → Alike w b.1
          → Alike w (if c then a else b).1
      if_alike true a b ha hb = ha
      if_alike false a b ha hb = hb

  module _ (task : String) (rec : WaitRecord) where
    -- the source is the task's and not finished, and no run of the task holds a live slot
    pub record Stranded (w : World server) : Type 0 where
      pub wanted : is_wanted task (source_of w.sources rec.source_id) ≡ true
      pub unheld : is_held server env task w ≡ false

    Stranded-Alike : (w v : World server) → Alike w v → Stranded w → Stranded v
    Stranded-Alike w v alike s = record {
      wanted = rw (alike.0) s.wanted;
      unheld = rw (alike.1, alike.2) s.unheld;
    }

    recover_one-sends :
        (w : World server)
        → Stranded w
        → Has (sending task rec.dispatch) (recover_one server env task rec w).1.calls
    unfolding recover_one
    recover_one-sends w s =
        rw (s.wanted, s.unheld)
          (Has-append_right (sending task rec.dispatch) w.calls (sending task rec.dispatch ∷ [])
            (inl refl))

    recover_all-sends :
        (l : List (String × WaitRecord)) (w : World server)
        → Has (task, rec) l
        → Stranded w
        → Has (sending task rec.dispatch) (recover_all server env l w).1.calls
    unfolding recover_all
    recover_all-sends [] w h s = absurd h
    recover_all-sends ((t, r) ∷ l) w (inl same) s =
        recover_all-keeps (sending task rec.dispatch) l (recover_one server env t r w).1 (
          rw
            (ap (λ (e : String × WaitRecord). e.0) same, ap (λ (e : String × WaitRecord). e.1) same)
            (recover_one-sends w s))
    recover_all-sends ((t, r) ∷ l) w (inr later) s =
        recover_all-sends l (recover_one server env t r w).1 later
          (Stranded-Alike w (recover_one server env t r w).1 (recover_one-Alike t r w) s)

    -- the wait that a delivery recorded and that nobody has refreshed
    pub record Overdue (w : World server) : Type 0 where
      pub touched_at : ℕ
      pub indexed :
          server.ranged.sets.zscore
            (index_at server.ranged server.wait_keys server.mark_keys env.now w.waiting)
            task
          ≡ some touched_at
      pub unrefreshed : leb touched_at (env.now - stale_after) ≡ true
      pub recorded : server.wait_keys.get w.waiting.records env.now task ≡ some rec

    listed :
        (w : World server)
        → env.listing ≡ up
        → ((t : String) → env.entries t ≡ (up, up))
        → Overdue w
        → Has
            (task, rec)
            (stale server.ranged server.wait_keys server.mark_keys env.listing env.entries env.now
              stale_after w.waiting).0
    unfolding stale
    listed w is_up all_up o =
        let (l, found, has) =
          stale_records-Has server.ranged server.wait_keys server.mark_keys env.entries env.now
            all_up task rec
            (server.ranged.zrangebyscore
              (index_at server.ranged server.wait_keys server.mark_keys env.now w.waiting)
              (env.now - stale_after))
            w.waiting
            (server.ranged.elem-zrangebyscore _ (env.now - stale_after) task
              ∙ ap (is_up_to (env.now - stale_after)) o.indexed
              ∙ o.unrefreshed)
            o.recorded in
        rw (is_up, found) has

    if_kept :
        (c : Bool) (x : Call) (a b : World server)
        → Has x a.calls
        → Has x b.calls
        → Has x (if c then a else b).calls
    if_kept true x a b ha hb = ha
    if_kept false x a b ha hb = hb

    schedule-keeps :
        (x : Call) (w : World server)
        → Has x w.calls
        → Has x (schedule_stranded_extraction_recovery server env w).calls
    unfolding schedule_stranded_extraction_recovery
    schedule-keeps x w h =
        if_kept
          (claim_sweep server.ranged server.wait_keys server.mark_keys env.claiming stale_after
            env.now w.waiting).0
          x _ _ (Has-append_left x w.calls (scheduling_sweep ∷ []) h) h

    pub recover_stranded_extractions-sends :
        (w : World server)
        → env.listing ≡ up
        → ((t : String) → env.entries t ≡ (up, up))
        → Overdue w
        → Stranded w
        → Has (sending task rec.dispatch) (recover_stranded_extractions server env w).1.calls
    unfolding recover_stranded_extractions
    recover_stranded_extractions-sends w is_up all_up o s =
        let (found, waiting') =
          stale server.ranged server.wait_keys server.mark_keys env.listing env.entries env.now
            stale_after w.waiting in
        let w' = (recover_all server env found (record w { waiting = waiting' })).1 in
        let sent =
          recover_all-sends found (record w { waiting = waiting' }) (listed w is_up all_up o)
            (Stranded-Alike w (record w { waiting = waiting' }) (refl, refl, refl) s) in
        if_kept
          (any_waiting server.ranged server.wait_keys server.mark_keys env.counting env.now
            w'.waiting)
          (sending task rec.dispatch) (schedule_stranded_extraction_recovery server env w') w'
          (schedule-keeps (sending task rec.dispatch) w' sent) sent
