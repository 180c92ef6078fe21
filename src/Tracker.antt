-- ===== src/Tracker.antt =====
-- packages/tf_core/tracking/bytetrack_adapter.py: `YoloByteTrackAdapter`. The model, its predictor
-- and ByteTrack are a parameter; what the fixed arguments of a `track` call say (sizes, thresholds,
-- classes, device) is part of it.
pub mod Cache
use traffic_lane_counter.Prelude.{
  ℕ, ◌+◌, ◌%◌, Bool, true, false, ◌&&◌, ◌||◌, not, Option, none, some, List, [], ◌∷◌, map, String,
  ◌==◌, nat_eq, if◌then◌else◌, get_or, max,
}
use traffic_lane_counter.Vision.{Box}
use traffic_lane_counter.Tracks.{Track}

-- A row of `result.boxes`: `xyxy`, `conf` and `cls`.
pub record Row (F : Type 0) : Type 0 where
  pub xyxy : Box F
  pub conf : F
  pub cls : ℕ

-- An answer of `model.track`. `boxes.id` is `None` (`untracked`) or has an id for every row.
pub data Answer (F : Type 0) : Type 0 where
  -- a `RuntimeError`, and whether its text speaks of mixed number types
  runtime_error : Bool → Answer F
  no_results : Answer F
  no_boxes : Answer F
  untracked : List (Row F) → Answer F
  tracked : List (ℕ × Row F) → Answer F

pub record Detector (F : Type 0) : Type 1 where
  pub Frame : Type 0
  pub Model : Type 0
  pub names : ℕ → Option String
  pub model_track : Model → Frame → Answer F × Model
  -- `model.float()`, and the predictor's model dropped
  pub to_float32 : Model → Model

pub record Detection (F : Type 0) : Type 0 where
  pub bbox : Box F
  pub class_name : String
  pub confidence : F

pub record Adapter (F M : Type 0) : Type 0 where
  pub model : M
  pub half : Bool
  pub detect_every_n : ℕ
  pub frame_count : ℕ
  pub cached_tracks : List (Track F)
  pub cached_raw : List (Detection F)
  pub half_retry_disabled : Bool

-- `max(1, int(...get("detect_every_n_frames", 1)))`
unfoldable pub new_adapter : {F M : Type 0} → M → Bool → Option ℕ → Adapter F M
new_adapter model half every_n = record {
  model = model;
  half = half;
  detect_every_n = max 1 (get_or every_n 1);
  frame_count = 0;
  cached_tracks = [];
  cached_raw = [];
  half_retry_disabled = false;
}

unfoldable pub is_detect_frame : ℕ → ℕ → Bool
is_detect_frame every_n frame_count = every_n == 1 || frame_count % every_n == 1

module _ {F : Type 0} (d : Detector F) where
  open d use {Frame, Model, names, model_track, to_float32}

  -- `_run_track`: one retry in full precision, if the model runs in half precision, no retry was
  -- made before and the error is one of mixed number types. `runtime_error` is raised again.
  unfoldable pub run_track : Adapter F Model → Frame → Answer F × Adapter F Model
  run_track a frame =
      let (answer, model) = model_track a.model frame in
      elim answer [
        | runtime_error dtype_mismatch ↦
            if not a.half || (a.half_retry_disabled || not dtype_mismatch)
            then (runtime_error dtype_mismatch, record a { model = model })
            else let (second, model') = model_track (to_float32 model) frame in
              (second, record a { model = model'; half = false; half_retry_disabled = true })
        | other ↦ (other, record a { model = model })
      ]

  unfoldable pub to_detection : Row F → Detection F
  to_detection r = record {
    bbox = r.xyxy;
    class_name = get_or (names r.cls) "unknown";
    confidence = r.conf;
  }

  unfoldable pub to_track : ℕ × Row F → Track F
  to_track (tid, r) = record {
    track_id = tid;
    class_name = get_or (names r.cls) "unknown";
    confidence = r.conf;
    bbox = r.xyxy;
  }

  -- The caches after an answer; `none` for an error, which leaves them.
  unfoldable pub read_answer : Answer F → Option (List (Track F) × List (Detection F))
  unfolding to_detection to_track
  read_answer (runtime_error b) = none
  read_answer no_results = some ([], [])
  read_answer no_boxes = some ([], [])
  read_answer (untracked rows) = some ([], map to_detection rows)
  read_answer (tracked []) = some ([], [])
  read_answer (tracked (row ∷ rows)) =
      some (map to_track (row ∷ rows), map (λ r. to_detection r.1) (row ∷ rows))

  -- A full detection: the lists go into the cache and to the caller. `none` for a raised error.
  unfoldable pub detect :
      Adapter F Model → Frame → Option (List (Track F) × List (Detection F)) × Adapter F Model
  unfolding read_answer
  detect a frame =
      let (answer, b) = run_track a frame in
      elim (read_answer answer) [
        | none ↦ (none, b)
        | some (tracks, raw) ↦
            (some (tracks, raw), record b { cached_tracks = tracks; cached_raw = raw })
      ]

  unfoldable pub track :
      Adapter F Model → Frame → Option (List (Track F) × List (Detection F)) × Adapter F Model
  unfolding is_detect_frame
  track a frame =
      let a' : Adapter F Model = record a { frame_count = a.frame_count + 1 } in
      if is_detect_frame a.detect_every_n a'.frame_count
      then detect a' frame
      else (some (a.cached_tracks, a.cached_raw), a')
