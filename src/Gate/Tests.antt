-- ===== src/Gate/Tests.antt =====
-- The gate at concrete calls.
use powabase_ai.Prelude.{
  ℕ, ◌*◌, ◌≤◌, ◌≡◌, refl, true, false, none, some, List, [], ◌∷◌, String, arith,
}
use powabase_ai.Redis.Assoc.{assoc_sets, distinct, score_of, with_member, without, above}
use powabase_ai.Redis.Ranked
use powabase_ai.Redis.Ranked.{ranked_lists, finite}
use powabase_ai.Redis.Keys.{list_keys, value_at, dropped}
use powabase_ai.Gate.Slots
use powabase_ai.Gate.Slots.{up, down, cut, slot, refused, lost, renewed, lease, second}
use powabase_ai.Gate.Slots.Capacity.{live_count, live_count-serve}
use powabase_ai.Gate.Slots.Leases.{try_acquire-lasts, lapsed_for_good}
use powabase_ai.Gate.Slots.Heartbeat.{Waking}
use powabase_ai.Gate.Attempts
use powabase_ai.Gate.Attempts.Charged.{
  Work, began, ended, note, notes, IsCharged, some_task-IsCharged,
}

abbrev no_slots : Slots.Slots assoc_sets
no_slots = record { leases = assoc_sets.no_members; deadline = 0 }

abbrev calls : List (ℕ × Slots.Call assoc_sets)
calls =
    (0, Slots.acquiring up "a:1")
    ∷ (5, Slots.acquiring up "b:2")
    ∷ (6, Slots.renewing cut "a:1")
    ∷ (7, Slots.releasing down "a:1")
    ∷ []

live_count-serve_example : live_count assoc_sets 8 (Slots.serve assoc_sets 1 calls no_slots) ≤ 1
unfolding live_count distinct score_of with_member without above
live_count-serve_example =
    live_count-serve assoc_sets 1 0 8 calls no_slots (omega arith) (omega arith)

second_holder_refused :
    (Slots.try_acquire assoc_sets up 5 1 "b:2" (Slots.serve assoc_sets 1 calls no_slots)).0
    ≡ refused
unfolding Slots.try_acquire Slots.serve Slots.perform Slots.renew Slots.release distinct score_of
    with_member without above
second_holder_refused = refl

abbrev others : List (ℕ × Slots.Call assoc_sets)
others = (20, Slots.acquiring up "b:2") ∷ (21, Slots.releasing up "b:2") ∷ []

try_acquire-lasts_example :
    Slots.is_live assoc_sets up 299000000 "a:1"
      (Slots.serve assoc_sets 1 others (Slots.try_acquire assoc_sets up 10 1 "a:1" no_slots).1)
    ≡ true
unfolding Slots.try_acquire distinct score_of with_member without above
try_acquire-lasts_example =
    try_acquire-lasts assoc_sets 1 10 299000000 "a:1" "a:1" others no_slots refl (omega arith)
      (omega arith) (refl, (refl, tt))

lapsed_for_good_example :
    (Slots.is_live assoc_sets up 30 "a:1" (Slots.serve assoc_sets 1 others no_slots) ≡ false)
    × ((Slots.renew assoc_sets up 30 "a:1" (Slots.serve assoc_sets 1 others no_slots)).0 ≡ lost)
unfolding Slots.is_live distinct score_of with_member without above
lapsed_for_good_example =
    lapsed_for_good assoc_sets 1 10 30 "a:1" others no_slots refl (omega arith) (refl, (refl, tt))

abbrev wakings : List Waking
wakings =
    record { stopped = false; clock = 60 * second; answer = renewed }
    ∷ record { stopped = false; clock = 120 * second; answer = lost }
    ∷ []

abbrev Held : Type 0
Held = Attempts.Attempts ranked_lists list_keys

abbrev nothing : Held
nothing = record {
  in_flight = λ inc. ranked_lists.no_members;
  deadline = λ inc. 0;
  records = list_keys.no_keys;
}

abbrev works : List (ℕ × Work)
works =
    (3, began up "t1" (some 100) (some "t1:x"))
    ∷ (4, began up "t2" (some 70) none)
    ∷ (5, ended up "t1")
    ∷ (6, began up "t3" (some 20) none)
    ∷ []

abbrev killed : Held
killed = notes ranked_lists list_keys 1000 "w" works nothing

some_task-IsCharged_example :
    (culprit : String) × IsCharged ranked_lists list_keys 1000 "w" 9 killed culprit
unfolding notes note Attempts.begin Attempts.end Ranked.score_of Ranked.without value_at dropped
    Ranked.top_of Ranked.join
some_task-IsCharged_example =
    some_task-IsCharged ranked_lists list_keys 1000 "w" 0 9 works nothing "t3" (finite 20) refl
      (omega arith) (omega arith) refl
