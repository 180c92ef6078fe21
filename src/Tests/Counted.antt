-- ===== src/Tests/Counted.antt =====
-- The counter and the adapter on the sample road.
use traffic_lane_counter.Prelude.{
  ℕ, ◌+◌, ◌%◌, ◌<◌, ◌≤◌, ◌≡◌, refl, ◌≢◌, ◌↔◌, ◌⊎◌, inl, inr, Bool, true, false, Option, none, some,
  List, [], ◌∷◌, map, arith, nat_eq,
}
use traffic_lane_counter.Prelude.Dict.{lookup}
use traffic_lane_counter.Tracks
use traffic_lane_counter.Tracks.{Track, TrackState, LaneStateManager, new_manager}
use traffic_lane_counter.Counting.{
  effective_lane, countable, LineCounter, forward, new_counter, is_member, update,
}
use traffic_lane_counter.Counting.Once.{
  run, key, counted_after, AllDistinct, AreNew, run-AllDistinct,
}
use traffic_lane_counter.Counting.Totals.{count_at, matching, count_at-run}
use traffic_lane_counter.Counting.Reached.{update_counts}
use traffic_lane_counter.Counting.Motion.{IsBounded}
use traffic_lane_counter.Tracker.{Adapter, Detection, new_adapter}
use traffic_lane_counter.Tests.Samples.{
  line, car_at, assigner, empty_manager, empty_counter, after_two,
}

abbrev two_frames : List (ℕ × LaneStateManager ℕ)
two_frames = (1, after_two) ∷ (2, Tracks.update line after_two 2 (car_at 7 15 ∷ []) assigner) ∷ []

run-AllDistinct_example :
    AllDistinct (map key (run line empty_counter two_frames).1)
    × AreNew (map key (run line empty_counter two_frames).1) empty_counter.counted
    × ((run line empty_counter two_frames).0.counted
        ≡ counted_after (run line empty_counter two_frames).1 empty_counter.counted)
run-AllDistinct_example = run-AllDistinct line empty_counter two_frames

count_at-run_example :
    count_at "left" "car" forward (run line empty_counter two_frames).0.counts
    ≡ count_at "left" "car" forward empty_counter.counts
      + matching "left" "car" forward (run line empty_counter two_frames).1
count_at-run_example = count_at-run line empty_counter two_frames "left" "car" forward

empty_counter-IsBounded : IsBounded line empty_counter
unfolding new_counter
empty_counter-IsBounded = record { histories = tt }

abbrev adapter : Adapter ℕ (Unit {0})
adapter = new_adapter tt true (some 2)

abbrev raising : Adapter ℕ (Unit {0})
raising = new_adapter tt true none

abbrev first_answer : List (Track ℕ) × List (Detection ℕ)
first_answer =
    (car_at 7 5 ∷ [], record { class_name = "car"; confidence = 1; bbox = (car_at 7 5).bbox } ∷ [])

-- The state of the car after its second frame.
abbrev car_state : TrackState ℕ
car_state = record {
  track_id = 7;
  class_name = "car";
  confidence = 1;
  bbox = some (car_at 7 5).bbox;
  first_seen_frame = 0;
  last_seen_frame = 1;
  raw_history = "left" ∷ "left" ∷ [];
  stable_lane = some "left";
  consecutive_unknown_count = 0;
}

abbrev one_car : LaneStateManager ℕ
one_car = record empty_manager { track_states = (7, car_state) ∷ [] }

update_counts_example : is_member (7, "left") (update line empty_counter 1 one_car).0.counted ≡ true
unfolding lookup effective_lane countable new_counter traffic_lane_counter.Prelude.ℕ_discrete
    traffic_lane_counter.Prelude.str_dec
update_counts_example =
    update_counts line empty_counter 1 one_car 7 car_state "left" refl (refl, omega arith, refl)

-- A counter that has followed the car.
abbrev watching : LineCounter ℕ
watching = record empty_counter { anchors = (7, (5, 5) ∷ []) ∷ [] }
