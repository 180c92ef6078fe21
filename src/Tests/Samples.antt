-- ===== src/Tests/Samples.antt =====
-- A road of two lanes on a line: floats are whole numbers, a polygon is the span between its first
-- two points, and a frame is the answer that the detection model gives for it.
use traffic_lane_counter.Prelude.{
  ℕ, ◌+◌, ◌-◌, ◌/◌, true, none, some, List, [], ◌∷◌, String, ◌==◌, nat_eq, if◌then◌else◌, ltb, ◌||◌,
}
use traffic_lane_counter.Vision.{Vision, Side, outside, on_edge, inside, Box}
use traffic_lane_counter.Config.{Config, LaneData}
use traffic_lane_counter.Tracks.{Track, LaneStateManager, new_manager, update}
use traffic_lane_counter.Lanes.{LaneAssigner, new_assigner}
use traffic_lane_counter.Counting.{LineCounter, new_counter}
use traffic_lane_counter.Tracker.{Answer, Detector, Row, tracked, no_boxes, runtime_error}
use traffic_lane_counter.Detection.{DetectionCore, Loaded}

abbrev span_test : List (ℕ × ℕ) → ℕ × ℕ → Side
span_test ((lo, _) ∷ (hi, _) ∷ rest) (x, y) =
    if ltb x lo || ltb hi x then outside else if x == lo || x == hi then on_edge else inside
span_test _ p = outside

abbrev pub line : Vision
line = record {
  F = ℕ;
  float_zero = 0;
  float_two = 2;
  add = λ a b. a + b;
  sub = λ a b. a - b;
  half = λ a. a / 2;
  abs = λ a. a;
  lt = ltb;
  Polygon = List (ℕ × ℕ);
  to_polygon = λ points. points;
  point_polygon_test = span_test;
}

abbrev pub model : Detector ℕ
model = record {
  Frame = Answer ℕ;
  Model = Unit {0};
  names = λ i. if i == 2 then some "car" else none;
  model_track = λ m frame. (frame, m);
  to_float32 = λ m. m;
}

abbrev lane : String → ℕ → ℕ → LaneData ℕ
lane id lo hi = record { id = id; lane_id = ""; points = (lo, 0) ∷ (hi, 0) ∷ (hi, 9) ∷ [] }

abbrev pub two_lanes : Config ℕ
two_lanes = record {
  lanes = lane "left" 0 10 ∷ lane "right" 11 20 ∷ [];
  boundary_mode = none;
  unknown_timeout_frames = some 2;
  active_track_timeout_frames = some 3;
  min_track_age_frames = some 2;
  history_window = some 4;
  min_consecutive_for_change = some 2;
  allowed_classes = some ("car" ∷ []);
  count_unstable_lane = none;
  motion_history = none;
}

-- A box of width 2 around this place.
abbrev pub box_at : ℕ → Box ℕ
box_at x = record { xmin = x - 1; ymin = 0; xmax = x + 1; ymax = 5 }

abbrev pub car_at : ℕ → ℕ → Track ℕ
car_at tid x = record { track_id = tid; class_name = "car"; confidence = 1; bbox = box_at x }

abbrev pub assigner : LaneAssigner ℕ (List (ℕ × ℕ))
assigner = new_assigner line two_lanes

abbrev pub empty_manager : LaneStateManager ℕ
empty_manager = new_manager two_lanes

abbrev pub empty_counter : LineCounter ℕ
empty_counter = new_counter two_lanes

-- The manager after a car is seen twice in the left lane.
abbrev pub after_two : LaneStateManager ℕ
after_two =
    update line (update line empty_manager 0 (car_at 7 5 ∷ []) assigner) 1 (car_at 7 5 ∷ [])
      assigner

abbrev pub row_at : ℕ → Row ℕ
row_at x = record { xyxy = box_at x; conf = 1; cls = 2 }

abbrev pub car_frame : ℕ → Answer ℕ
car_frame x = tracked ((7, row_at x) ∷ [])

abbrev pub loaded : Loaded (Unit {0})
loaded = record { model = tt; half = true }

abbrev pub new_core : DetectionCore ℕ (List (ℕ × ℕ)) (Unit {0})
new_core = record {
  config = two_lanes;
  detect_every_n_frames = none;
  injected_detector = none;
  detector = none;
  parts = none;
  frame_idx = 0;
}

-- A car drives in the left lane, changes to the right one, and is gone.
abbrev pub drive : List (Answer ℕ)
drive = car_frame 5 ∷ car_frame 6 ∷ runtime_error true ∷ car_frame 15 ∷ car_frame 16 ∷ no_boxes ∷ []
