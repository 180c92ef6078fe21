-- ===== src/Detection.antt =====
-- packages/tf_core/detection_core.py: `DetectionCore`, which joins the adapter, the lane assigner,
-- the state manager, the occupancy engine and the counter. Time stamps and timings are left out.
pub mod Steps
pub mod Frames
pub mod Reach
pub mod Flags
use mathlib.Core.Option
use traffic_lane_counter.Prelude.{
  ℕ, ◌+◌, ◌≡◌, Bool, true, false, Option, none, some, List, [], ◌∷◌, String, ◌==◌, nat_eq,
  if◌then◌else◌, get_or, last?,
}
use traffic_lane_counter.Prelude.Dict.{Dict}
use traffic_lane_counter.Vision.{Vision, Box}
use traffic_lane_counter.Config.{Config}
use traffic_lane_counter.Lanes.{LaneAssigner, new_assigner}
use traffic_lane_counter.Tracks
use traffic_lane_counter.Tracks.{
  Track, TrackState, LaneChange, LaneStateManager, new_manager, is_counted,
}
use traffic_lane_counter.Occupancy.{OccupancyEngine, new_engine, compute_occupancy}
use traffic_lane_counter.Counting
use traffic_lane_counter.Counting.{LineCounter, CountEvent, Counts, new_counter}
use traffic_lane_counter.Tracker.{Adapter, Detector, Detection, new_adapter, track}

-- The sub-components that `start` creates.
pub record Parts (F P M : Type 0) : Type 0 where
  pub adapter : Adapter F M
  pub assigner : LaneAssigner F P
  pub manager : LaneStateManager F
  pub engine : OccupancyEngine
  pub counter : LineCounter F

-- A loaded detector: the model, and whether it runs in half precision.
pub record Loaded (M : Type 0) : Type 0 where
  pub model : M
  pub half : Bool

-- `parts` is `none` where the fields of the sub-components are `None`; `_started` says the same.
pub record DetectionCore (F P M : Type 0) : Type 0 where
  pub config : Config F
  pub detect_every_n_frames : Option ℕ
  pub injected_detector : Option (Loaded M)
  pub detector : Option (Loaded M)
  pub parts : Option (Parts F P M)
  pub frame_idx : ℕ

pub record FrameTrack (F : Type 0) : Type 0 where
  pub track_id : ℕ
  pub class_name : String
  pub confidence : F
  pub bbox : Option (Box F)
  pub raw_lane : String
  pub stable_lane : Option String
  pub is_counted_in_occupancy : Bool

pub record FrameResult (F : Type 0) : Type 0 where
  pub frame_idx : ℕ
  pub tracks : List (Track F)
  pub raw_detections : List (Detection F)
  pub events : List LaneChange
  pub occupancy : Dict String ℕ
  pub crossings : List (CountEvent F)
  pub frame_tracks : List (FrameTrack F)

-- `_build_frame_tracks(frame_idx)`; `flag_idx` is `self.frame_idx`, by which the flag is computed.
unfoldable pub build_frame_tracks :
    {F : Type 0} → ℕ → ℕ → ℕ → Dict ℕ (TrackState F) → List (FrameTrack F)
build_frame_tracks frame_idx flag_idx min_age [] = []
build_frame_tracks frame_idx flag_idx min_age ((tid, s) ∷ states) =
    let rest = build_frame_tracks frame_idx flag_idx min_age states in
    if s.last_seen_frame == frame_idx
    then record {
      track_id = tid;
      class_name = s.class_name;
      confidence = s.confidence;
      bbox = s.bbox;
      raw_lane = get_or (last? s.raw_history) "unknown";
      stable_lane = s.stable_lane;
      is_counted_in_occupancy = is_counted s flag_idx min_age;
    }
      ∷ rest
    else rest

module _ (v : Vision) (d : Detector v.F) where
  open v use {F, Polygon}
  open d use {Frame, Model}

  -- `load` is `ModelRegistry.get` for the weights of the configuration.
  unfoldable pub start :
      Loaded Model → DetectionCore F Polygon Model → DetectionCore F Polygon Model
  start load core = elim core.parts [
    | some _ ↦ core
    | none ↦
        let loaded = get_or core.detector load in
        record core {
          detector = some loaded;
          parts = some (record {
            adapter = new_adapter loaded.model loaded.half core.detect_every_n_frames;
            assigner = new_assigner v core.config;
            manager = new_manager core.config;
            engine = new_engine core.config;
            counter = new_counter core.config;
          });
        }
  ]

  unfoldable pub reset : DetectionCore F Polygon Model → DetectionCore F Polygon Model
  reset core = record core { frame_idx = 0; parts = none; detector = core.injected_detector }

  -- The steps behind the detection: the manager, the occupancy, the counter, the track records.
  unfoldable pub count_frame :
      ℕ
      → ℕ
      → Parts F Polygon Model
      → List (Track F)
      → List (Detection F)
      → FrameResult F × Parts F Polygon Model
  count_frame frame_idx flag_idx p tracks raw =
      let m = Tracks.update v p.manager frame_idx tracks p.assigner in
      let (c, crossings) = Counting.update v p.counter frame_idx m in
      (
        record {
          frame_idx = frame_idx;
          tracks = tracks;
          raw_detections = raw;
          events = m.current_frame_events;
          occupancy = compute_occupancy p.engine frame_idx m;
          crossings = crossings;
          frame_tracks =
              build_frame_tracks frame_idx flag_idx m.min_track_age_frames m.track_states;
        },
        record p { manager = m; counter = c },
      )

  run_parts : ℕ → ℕ → Frame → Parts F Polygon Model → Option (FrameResult F) × Parts F Polygon Model
  run_parts frame_idx flag_idx frame p =
      let (found, adapter) = track d p.adapter frame in
      let q : Parts F Polygon Model = record p { adapter = adapter } in
      elim found [
        | none ↦ (none, q)
        | some (tracks, raw) ↦
            let (result, q') = count_frame frame_idx flag_idx q tracks raw in (some result, q')
      ]

  -- `process_frame`, with the frame number given or counted. There is no result where the core was
  -- not started or the detection raises; the counted frame number is used up all the same. What the
  -- detection does to the shared detector object shows in both fields that hold it.
  unfoldable pub process_frame :
      DetectionCore F Polygon Model
      → Frame
      → Option ℕ
      → Option (FrameResult F) × DetectionCore F Polygon Model
  unfolding run_parts
  process_frame core frame given =
      let next : ℕ = elim given [ none ↦ core.frame_idx + 1 | some _ ↦ core.frame_idx ] in
      elim core.parts [
        | none ↦ (none, record core { frame_idx = next })
        | some p ↦
            let (result, p') = run_parts (get_or given core.frame_idx) next frame p in
            let used : Loaded Model = record { model = p'.adapter.model; half = p'.adapter.half } in
            (
              result,
              record core {
                frame_idx = next;
                parts = some p';
                detector = some used;
                injected_detector = Option.map (λ _. used) core.injected_detector;
              },
            )
      ]

  -- `get_counts`
  unfoldable pub get_counts : DetectionCore F Polygon Model → Counts
  get_counts core = elim core.parts [ none ↦ [] | some p ↦ p.counter.counts ]
