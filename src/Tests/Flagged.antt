-- ===== src/Tests/Flagged.antt =====
-- A car at a frame between two detections: its record has the flag that the occupancy does not have.
use traffic_lane_counter.Prelude.{
  ℕ, ◌+◌, ◌≡◌, refl, ◌∙◌, sym, ap, Bool, true, false, Option, none, some, List, [], ◌∷◌, arith,
  nat_eq,
}
use traffic_lane_counter.Prelude.Dict.{lookup}
use traffic_lane_counter.Tracks.{TrackState, is_counted}
use traffic_lane_counter.Tracks
use traffic_lane_counter.Tracker.{Adapter, track}
use traffic_lane_counter.Tracker
use traffic_lane_counter.Counting.{new_counter}
use traffic_lane_counter.Occupancy.{new_engine}
use traffic_lane_counter.Detection.{DetectionCore, Parts, FrameResult, count_frame}
use traffic_lane_counter.Detection.Steps.{counted_frame}
use traffic_lane_counter.Tests.Samples.{
  line, model, two_lanes, assigner, empty_manager, new_core, car_at,
}

abbrev parked : TrackState ℕ
parked = record {
  track_id = 7;
  class_name = "car";
  confidence = 1;
  bbox = some (car_at 7 5).bbox;
  first_seen_frame = 4;
  last_seen_frame = 4;
  raw_history = "left" ∷ [];
  stable_lane = some "left";
  consecutive_unknown_count = 0;
}

abbrev parts : Parts ℕ (List (ℕ × ℕ)) (Unit {0})
parts = record {
  adapter = record {
    model = tt;
    half = false;
    detect_every_n = 2;
    frame_count = 1;
    cached_tracks = [];
    cached_raw = [];
    half_retry_disabled = false;
  };
  assigner = assigner;
  manager = record empty_manager { track_states = (7, parked) ∷ [] };
  engine = new_engine two_lanes;
  counter = new_counter two_lanes;
}

abbrev core : DetectionCore ℕ (List (ℕ × ℕ)) (Unit {0})
core = record new_core { parts = some parts; frame_idx = 4 }

track_cached : (track model parts.adapter Tracker.no_boxes).0 ≡ some ([], [])
unfolding track Tracker.is_detect_frame traffic_lane_counter.Prelude.ℕ_discrete
track_cached = refl

abbrev after : FrameResult ℕ × Parts ℕ (List (ℕ × ℕ)) (Unit {0})
after = counted_frame line model core Tracker.no_boxes parts ([], [])

found : lookup 7 after.1.manager.track_states ≡ some parked
unfolding lookup count_frame Tracks.update Tracks.update_tracks Tracks.cleanup Tracks.remove_all
    Tracks.dead_track_ids Tracks.is_dead Tracks.seen Tracks.new_manager
    traffic_lane_counter.Prelude.ℕ_discrete
found = refl

idx : after.0.frame_idx ≡ 4
unfolding count_frame
idx = refl

age : after.1.manager.min_track_age_frames ≡ 2
unfolding count_frame Tracks.update Tracks.cleanup Tracks.update_tracks Tracks.new_manager
age = refl
