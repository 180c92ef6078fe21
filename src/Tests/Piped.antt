-- ===== src/Tests/Piped.antt =====
-- Runs of the pipeline on the road of two lanes, with the small database.
use traffic_lane_counter.Occupancy.{new_engine}
use traffic_lane_counter.Breaker.{call}
use traffic_lane_counter.Counting.{
  count_once, count_track, count_tracks, direction_from_motion, follow, new_counter,
}
use traffic_lane_counter.Detection.{count_frame, process_frame, start}
use traffic_lane_counter.Lanes.{accepts, assign_lane, new_assigner}
use traffic_lane_counter.Motion.{has_motion}
use traffic_lane_counter.Prelude.{str_dec, ℕ_discrete}
use traffic_lane_counter.Prelude.Dict.{insert, lookup}
use traffic_lane_counter.Publisher.{publish_event}
use traffic_lane_counter.Tracker.{detect, new_adapter, run_track, track}
use traffic_lane_counter.Tracks.{
  agreed_lane, cleanup, dead_track_ids, fast_change, is_dead, lane_change, new_manager, observe,
  push_history, remove_all, seen, settle, smooth, state_of, update_track, update_tracks,
}
use traffic_lane_counter.Tracks.Vote.{vote}
use traffic_lane_counter.Counting
use traffic_lane_counter.Tracks
use traffic_lane_counter.Tracks.{Track}
use traffic_lane_counter.Prelude.{
  ℕ, ◌+◌, ◌≡◌, refl, true, false, Option, none, some, get_or, String, length, List, [], ◌∷◌, map,
  done, nat_eq,
}
use traffic_lane_counter.Prelude.Int.{pos}
use traffic_lane_counter.Counting.{CountEvent, Direction, forward}
use traffic_lane_counter.Counting.Totals.{count_at, matching}
use traffic_lane_counter.Storage.Account.{account}
use traffic_lane_counter.Counting.Once.{AllDistinct, key}
use traffic_lane_counter.Tracker.{Answer}
use traffic_lane_counter.Detection.{FrameResult, get_counts, Parts}
use traffic_lane_counter.Storage.Worker.{new_worker}
use traffic_lane_counter.Storage.{Setup, Shape}
use traffic_lane_counter.Occupancy.{new_engine}
use traffic_lane_counter.Breaker.{Breaker, open_circuit, new_breaker}
use traffic_lane_counter.Publisher.{redis_breaker}
use traffic_lane_counter.Motion.{new_motion_detector}
use traffic_lane_counter.Pipeline.{Outside, Pipeline, prepare, step, detect_frame, infer}
use traffic_lane_counter.Pipeline.Moved.{Crop, skipped, move_track}
use traffic_lane_counter.Pipeline.Handed.{Runs, begun, frame, counts-Runs}
use traffic_lane_counter.Tests.Samples.{
  car_at, assigner, empty_manager, empty_counter, two_lanes, line, model, loaded, new_core,
  car_frame,
}
use traffic_lane_counter.Tests.Stored.{services, Database}

-- Frames are compared by whether the model finds nothing in them.
abbrev outside_line : Outside line model services
outside_line = record {
  Gray = Answer ℕ;
  Broker = ℕ;
  resize = λ f. f;
  size = λ f. (10, 20);
  small_gray = λ f. f;
  changed = λ a b. true;
  number = λ x. x;
  int = λ x. some (pos x);
  encode = λ f b. some 1;
  timestamp = λ n. n;
  clock = λ n. n;
  failure_clock = λ n. n;
  send = λ m n. (done tt, n + 1);
}

abbrev shape : Shape
shape = record {
  has_aggregates = false;
  has_lane_changes = true;
  has_session = true;
  has_rollback = true;
}

abbrev setup : Setup
setup = record {
  adapter = some shape;
  adapter_factory = none;
  has_crop_storage = false;
  has_publisher = false;
  agg_windows = [];
  batch_max = 4;
}

abbrev database : Database
database = record { waiting = []; saved = []; busy = 0; sent = 0 }

abbrev blank : Pipeline line model services outside_line
blank = record {
  camera_id = "cam";
  job_id = "offline";
  roi = none;
  core = new_core;
  motion = new_motion_detector "";
  storage = new_worker services setup 8 (database, new_breaker 5 30 1);
  broker = some (redis_breaker, 0);
  frame_idx = 0;
}

abbrev first : Pipeline line model services outside_line
first = prepare line model services outside_line loaded setup 8 (database, new_breaker 5 30 1) blank

abbrev car_event : CountEvent ℕ
car_event = record {
  frame = 2;
  track_id = 7;
  class_name = "car";
  lane_id = "left";
  direction = forward;
  confidence = 1;
}

abbrev run_step :
    Answer ℕ
    → Pipeline line model services outside_line
    → Option (FrameResult ℕ) × Pipeline line model services outside_line
run_step = step line model services outside_line

abbrev second : Pipeline line model services outside_line
second = (run_step (car_frame 5) first).1

abbrev third : Pipeline line model services outside_line
third = (run_step (car_frame 6) second).1

-- Two frames with a car, the second of which counts it.
two_frames : Runs line model services outside_line first (car_event ∷ []) 0 third
unfolding step prepare new_worker has_motion str_dec process_frame start track ℕ_discrete
    new_adapter detect run_track count_frame Counting.update count_tracks Tracks.update cleanup
    remove_all dead_track_ids update_tracks update_track insert new_manager is_dead seen count_track
    observe smooth assign_lane new_assigner accepts state_of lookup new_counter push_history
    count_once publish_event call redis_breaker direction_from_motion vote lane_change follow settle
    fast_change agreed_lane
two_frames = frame (frame begun (car_frame 5) refl) (car_frame 6) refl

counts-Runs_example :
    AllDistinct (map key (car_event ∷ []))
    × ((lane cls : String) (x : Direction)
        → count_at lane cls x (get_counts line model third.core)
          ≡ matching lane cls x (car_event ∷ []))
    × (account services third.storage ≡ length (car_event ∷ []) + 0)
counts-Runs_example =
    counts-Runs line model services outside_line loaded setup 8 (database, new_breaker 5 30 1) blank
      refl two_frames

abbrev tripped : Breaker
tripped = record redis_breaker { state = open_circuit; last_failure_time = 4 }

-- The broker has ticked 6 times.
abbrev redis_down : Pipeline line model services outside_line
redis_down = record second { broker = some (tripped, 6) }

abbrev counted_frame : FrameResult ℕ
counted_frame =
    get_or
      (detect_frame line model services outside_line (car_frame 6)
        (record redis_down { frame_idx = redis_down.frame_idx + 1 })).0
      (skipped 0)

-- A crop whose left edge is 3 pixels from the frame's.
abbrev shifted : Crop ℕ (Answer ℕ)
shifted = record {
  crop = λ f. f;
  to_original = λ b. record b { xmin = b.xmin + 3; xmax = b.xmax + 3 };
}

abbrev cropped : Pipeline line model services outside_line
cropped = record second { roi = some shifted }

-- A core that detects on every other frame, after its first one.
abbrev every_other : Parts ℕ (List (ℕ × ℕ)) (Unit {0})
every_other = record {
  adapter = record {
    model = tt;
    half = true;
    detect_every_n = 2;
    frame_count = 0;
    cached_tracks = [];
    cached_raw = [];
    half_retry_disabled = false;
  };
  assigner = assigner;
  manager = empty_manager;
  engine = new_engine two_lanes;
  counter = empty_counter;
}

abbrev between : Pipeline line model services outside_line
between = record cropped { core = record new_core { parts = some every_other } }

abbrev moved : Track ℕ
moved = move_track shifted.to_original (car_at 7 5)

-- The pipeline at the frame behind the one on which the car was detected
abbrev behind : Pipeline line model services outside_line
behind = record (infer line model services outside_line false (car_frame 5) between).1 {
  frame_idx = 3;
}
