-- ===== src/Tests/Tracking.antt =====
-- Lanes, track states and occupancy on the sample road.
use traffic_lane_counter.Prelude.{
  ℕ, zero, suc, ◌+◌, ◌≤◌, ◌<◌, ◌≡◌, refl, ◌↔◌, ◌⊎◌, inl, inr, Bool, true, false, Option, none, some,
  List, [], ◌∷◌, String, ◌==◌, nat_eq, string_eq, if◌then◌else◌, ltb, arith, All,
}
use traffic_lane_counter.Prelude.Dict.{lookup, Distinct}
use traffic_lane_counter.Lanes.{assign_lane}
use traffic_lane_counter.Lanes.Order.{Assigned, IsRawLane, assign_lane-Assigned}
use traffic_lane_counter.Occupancy.{new_engine, compute_occupancy}
use traffic_lane_counter.Occupancy.Totals.{is_configured, occupants, lookup-compute_occupancy}
use traffic_lane_counter.Tracks.{TrackState, new_manager, settle, new_track, seen, update}
use traffic_lane_counter.Tracks.Vote.{vote}
use traffic_lane_counter.Tracks.Majority.{IsPlurality, vote-eq-some_iff}
use traffic_lane_counter.Tracks.Smoothing.{Settled, settle-Settled}
use traffic_lane_counter.Tracks.Invariant.{IsValid, update-IsValid}
use traffic_lane_counter.Tracks.Timeout.{unseen, lookup-update_cases}
use traffic_lane_counter.Tracks.Log.{IsLog, stable_in, events-update}
use traffic_lane_counter.Tests.Samples.{
  line, two_lanes, box_at, car_at, assigner, empty_manager, after_two,
}

empty-IsValid : IsValid (IsRawLane assigner) 0 empty_manager
unfolding new_manager
empty-IsValid = record { positive = omega arith; distinct = tt; states = tt }

after_two-IsValid : IsValid (IsRawLane assigner) 1 after_two
after_two-IsValid =
    update-IsValid line _ 0 1 (car_at 7 5 ∷ []) assigner (omega arith)
      (update-IsValid line empty_manager 0 0 (car_at 7 5 ∷ []) assigner (omega arith) empty-IsValid)

pub after_two-Distinct : Distinct after_two.track_states
after_two-Distinct = after_two-IsValid.distinct

update-IsValid_example :
    IsValid
      (IsRawLane assigner)
      2
      (update line after_two 2 (car_at 7 15 ∷ car_at 8 3 ∷ []) assigner)
update-IsValid_example =
    update-IsValid line after_two 1 2 (car_at 7 15 ∷ car_at 8 3 ∷ []) assigner (omega arith)
      after_two-IsValid

settle-Settled_example :
    Settled 2
      ("left" ∷ "right" ∷ "right" ∷ [])
      (some "left")
      (settle 2 ("left" ∷ "right" ∷ "right" ∷ []) (some "left"))
settle-Settled_example = settle-Settled 1 ("left" ∷ "right" ∷ "right" ∷ []) (some "left")

vote-eq-some_iff_example :
    (vote ("left" ∷ "right" ∷ "left" ∷ []) ≡ some "left")
    ↔ IsPlurality "left" ("left" ∷ "right" ∷ "left" ∷ [])
vote-eq-some_iff_example = vote-eq-some_iff ("left" ∷ "right" ∷ "left" ∷ []) "left"

lookup-update_cases_example :
    ((seen 7 (car_at 8 3 ∷ []) ≡ true)
      × (s : TrackState ℕ) × (lookup 7
            (update line after_two 5 (car_at 8 3 ∷ []) assigner).track_states
          ≡ some s)
      × (s.last_seen_frame ≡ 5))
    ⊎ ((seen 7 (car_at 8 3 ∷ []) ≡ false)
        × (lookup 7 (update line after_two 5 (car_at 8 3 ∷ []) assigner).track_states
            ≡ unseen 5 after_two.active_track_timeout_frames (lookup 7 after_two.track_states)))
lookup-update_cases_example =
    lookup-update_cases line after_two 5 (car_at 8 3 ∷ []) assigner 7 after_two-Distinct

events-update_example :
    IsLog 2
      (stable_in after_two.track_states)
      (stable_in (update line after_two 2 (car_at 7 15 ∷ car_at 8 3 ∷ []) assigner).track_states)
      (car_at 7 15 ∷ car_at 8 3 ∷ [])
      (update line after_two 2 (car_at 7 15 ∷ car_at 8 3 ∷ []) assigner).current_frame_events
unfolding traffic_lane_counter.Prelude.ℕ_discrete
events-update_example =
    events-update line after_two 2 (car_at 7 15 ∷ car_at 8 3 ∷ []) assigner after_two-Distinct
      (unfold seen in (refl, (refl, tt)))

lookup-compute_occupancy_example :
    lookup "left" (compute_occupancy (new_engine two_lanes) 1 after_two) ≡ (
      if is_configured "left" (new_engine two_lanes).lane_ids
      then some
          (occupants 1 (new_engine two_lanes).min_track_age_frames "left" after_two.track_states)
      else none)
lookup-compute_occupancy_example =
    lookup-compute_occupancy (new_engine two_lanes) 1 after_two "left"

assign_lane-Assigned_example :
    Assigned line assigner.boundary_mode
      (line.half (line.add (box_at 15).xmin (box_at 15).xmax), (box_at 15).ymax)
      assigner.lanes
      (assign_lane line assigner (box_at 15))
assign_lane-Assigned_example = assign_lane-Assigned line assigner (box_at 15)

abbrev fresh : TrackState ℕ
fresh = new_track line 7 "car" 0
