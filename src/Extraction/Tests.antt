-- ===== src/Extraction/Tests.antt =====
-- Runs of the extraction task, and the theorems at concrete inputs.
use powabase_ai.Prelude.{ℕ, ◌*◌, ◌≤◌, ◌≡◌, refl, true, false, none, some, [], ◌∷◌, arith, inl, Has}
use powabase_ai.Redis.Assoc.{assoc_sets, score_of, distinct, with_member, without, above}
use powabase_ai.Redis.Ranked
use powabase_ai.Redis.Ranked.{ranked_lists}
use powabase_ai.Redis.Ranged.{ranged_lists, members_up_to}
use powabase_ai.Redis.Keys.{list_keys, value_at, dropped}
use powabase_ai.Gate.Slots
use powabase_ai.Gate.Attempts
use powabase_ai.Gate.Attempts.{record_ttl}
use powabase_ai.Gate.Slots.{up, second}
use powabase_ai.Gate.Waiting.{Dispatch}
use powabase_ai.Extraction.{Source, Result, source_is_owned_by, Dispatched, pending}
use powabase_ai.Extraction.Ownership.{end_of_body-lost}
use powabase_ai.Extraction.Task.{
  end_of_body, Server, World, Env, Body, worker_killed, produced, reported, sending, extract_source,
}
use powabase_ai.Extraction.Steps.{runs_in, Elsewhere}
use powabase_ai.Extraction.Budget.{deliveries, runs_in-deliveries}
use powabase_ai.Extraction.Recovery.{
  SweepEnv, is_wanted, source_of, is_held, recover_stranded_extractions,
}
use powabase_ai.Extraction.Waits.{is_sent_again}
use powabase_ai.Extraction.Lost.{uncalled, extract_source-recover_stranded_extractions}

abbrev server : Server
server = record {
  slot_sets = assoc_sets;
  ranked = ranked_lists;
  attempt_keys = list_keys;
  ranged = ranged_lists;
  wait_keys = list_keys;
  mark_keys = list_keys;
}

abbrev queued : Source
queued = record {
  extraction_status = some pending;
  celery_task_id = some "task";
  marker = none;
  error_message = none;
  error_code = none;
}

abbrev start : World server
start = record {
  sources = λ id. some queued;
  slots = record { leases = server.slot_sets.no_members; deadline = 0 };
  attempts = record {
    in_flight = λ inc. server.ranked.no_members;
    deadline = λ inc. 0;
    records = server.attempt_keys.no_keys;
  };
  waiting = record {
    index = server.ranged.sets.no_members;
    deadline = 0;
    records = server.wait_keys.no_keys;
    sweep = server.mark_keys.no_keys;
  };
  calls = [];
}

abbrev env : ℕ → Body → Env server
env max_holders body = record {
  threshold = 1000;
  max_holders = max_holders;
  time_limit = 21600;
  token = "task:1";
  incarnation = "worker";
  clearing = up;
  reading = up;
  asking = up;
  acquiring = up;
  beginning = up;
  touching = up;
  ending = up;
  releasing = up;
  cleared_at = 10;
  started_at = 11;
  touched_at = 12;
  ended_at = 13;
  no_storage = none;
  size_lookup = reported none;
  meanwhile = λ w. w;
  during = λ w. w;
  body = body;
}

abbrev upload : Dispatched
upload = record { extraction_model = none; reextract_seed = none }

abbrev message : Dispatch
message = record { source_size = none; retries = 0 }

abbrev killed : (World server → World server) × Env server
killed = (λ w. w, env 1 worker_killed)

left_alone : Elsewhere "s" "task" server (λ w. w)
left_alone w = (inl refl, refl)

runs_in-deliveries_example :
    runs_in
      (deliveries server "s" "task" upload (killed ∷ killed ∷ killed ∷ []) message start).calls
    ≤ 9
runs_in-deliveries_example =
    runs_in-deliveries server "s" "task" upload (killed ∷ killed ∷ killed ∷ []) message start (
      (left_alone, (left_alone, left_alone)),
      ((left_alone, (left_alone, left_alone)), ((left_alone, (left_alone, left_alone)), tt)),
    )

abbrev sweep : SweepEnv
sweep = record {
  now = 700 * second;
  time_limit = 21600;
  listing = up;
  entries = λ t. (up, up);
  clearing = λ t. up;
  reading = λ t. up;
  asking = λ t. up;
  touching = λ t. up;
  counting = up;
  claiming = up;
}

-- no slot is given, so the delivery waits
abbrev waiting_world : World server
waiting_world = (extract_source server "s" "task" upload (env 0 worker_killed) message start).1

waits :
    is_sent_again (extract_source server "s" "task" upload (env 0 worker_killed) message start).0
    ≡ true
unfolding extract_source Slots.try_acquire distinct score_of with_member without above value_at
    dropped Ranked.score_of Ranked.without Ranked.top_of Ranked.join members_up_to
waits = refl

wanted : is_wanted "task" (source_of waiting_world.sources "s") ≡ true
unfolding extract_source Slots.try_acquire distinct score_of with_member without above value_at
    dropped Ranked.score_of Ranked.without Ranked.top_of Ranked.join members_up_to
wanted = refl

unheld : is_held server sweep "task" waiting_world ≡ false
unfolding extract_source Slots.try_acquire distinct score_of with_member without above value_at
    dropped Ranked.score_of Ranked.without Ranked.top_of Ranked.join members_up_to Attempts.previous
unheld = refl

extract_source-recover_stranded_extractions_example :
    (d : Dispatch) × (d.retries ≡ 0)
    × Has
        (sending "task" d)
        (recover_stranded_extractions server sweep (uncalled server waiting_world)).1.calls
unfolding record_ttl
extract_source-recover_stranded_extractions_example =
    extract_source-recover_stranded_extractions server "s" "task" upload (env 0 worker_killed)
      message sweep start waiting_world waits refl (omega arith) (omega arith) refl refl refl
      (λ t. refl) wanted unheld

-- a re-extract has given the source to another task
abbrev taken : World server
taken = record start { sources = λ id. some (record queued { celery_task_id = some "other" }) }

abbrev scan : Result
scan = record {
  method = "mistral_ocr";
  requested_method = false;
  page_count = 12;
  char_count = 9000;
  page_images_incomplete = false;
}

taken_lost : source_is_owned_by "s" "task" taken.sources ≡ false
unfolding source_is_owned_by
taken_lost = refl

end_of_body-lost_example :
    (end_of_body server "s" "task" upload (env 1 worker_killed) message (produced scan) taken).1
    ≡ taken
end_of_body-lost_example =
    end_of_body-lost "s" "task" server upload (env 1 worker_killed) message taken taken_lost
      (produced scan)
