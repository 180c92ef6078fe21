-- ===== src/Pipeline.antt =====
-- packages/tf_worker/pipeline.py: the loop of `run` over the frames of a source. It crops each frame, skips or
-- makes the detection, moves the boxes back to the frame, and hands the count events and the lane changes to
-- the storage worker and the publisher. Drawing, writing of files and timings are left out.
pub mod Moved
pub mod Counted
pub mod Handed
pub mod Drift
pub mod Aborts
use traffic_lane_counter.Prelude.{
  ℕ, ◌+◌, ◌*◌, ◌≤◌, Bool, true, false, ◌&&◌, ◌||◌, not, Option, none, some, List, [], ◌∷◌, ◌++◌,
  map, String, nat_eq, if◌then◌else◌, ltb, leb, length, get_or, Result,
}
use mathlib.Core.Option
use traffic_lane_counter.Prelude.Dict.{Dict, lookup}
use traffic_lane_counter.Prelude.Int.{ℤ, pos, max_ℤ, min_ℤ, ltb_ℤ}
use traffic_lane_counter.Vision.{Vision, Box}
use traffic_lane_counter.Tracks.{Track, TrackState, LaneChange, LaneStateManager}
use traffic_lane_counter.Counting.{CountEvent, Direction, forward, backward}
use traffic_lane_counter.Tracker.{Adapter, Detector, Detection}
use traffic_lane_counter.Detection.{
  DetectionCore, Loaded, start, Parts, FrameTrack, FrameResult, process_frame,
}
use traffic_lane_counter.Storage
use traffic_lane_counter.Storage.{Services, Crossing, Setup}
use traffic_lane_counter.Storage.Worker.{Worker, new_worker, enqueue, enqueue_lane_change}
use traffic_lane_counter.Storage.Persist.{Store}
use traffic_lane_counter.Breaker.{Breaker}
use traffic_lane_counter.Publisher.{Fault, Notice, publish_event}
use traffic_lane_counter.Pipeline.Moved.{
  Crop, move_track, move_detection, move_frame_track, move_state, move_result, move_states,
  move_cache, skipped,
}
use traffic_lane_counter.Motion.{MotionDetector, new_motion_detector, has_motion}

-- What the loop calls. `number` is the float of the detection as the storage takes it, `int` is `none` where
-- the conversion raises, and `encode` the slice of a frame as a JPEG, `none` where it raises.
pub record Outside (v : Vision) (d : Detector v.F) (s : Services) : Type 1 where
  pub Gray : Type 0
  pub Broker : Type 0
  pub resize : d.Frame → d.Frame
  pub size : d.Frame → ℕ × ℕ
  pub small_gray : d.Frame → Gray
  pub changed : Gray → Gray → Bool
  pub number : v.F → s.F
  pub int : v.F → Option ℤ
  pub encode : d.Frame → Box ℤ → Option s.Bytes
  pub timestamp : ℕ → s.Time
  -- the time of a call, and the time at which it fails
  pub clock : Broker → ℕ
  pub failure_clock : Broker → ℕ
  pub send : Notice s.F s.Time → Broker → Result Fault (Unit {0}) × Broker

unfoldable pub direction_text : Direction → String
direction_text forward = "forward"
direction_text backward = "backward"

module _ (v : Vision) (d : Detector v.F) (s : Services) (o : Outside v d s) where
  open v use {F, Polygon}
  open d use {Frame, Model}
  open o use {Gray, Broker}

  -- `broker` is `None` where there is no publisher.
  pub record Pipeline : Type 0 where
    pub camera_id : String
    pub job_id : String
    pub roi : Option (Crop F Frame)
    pub core : DetectionCore F Polygon Model
    pub motion : MotionDetector Gray
    pub storage : Worker s
    pub broker : Option (Breaker × Broker)
    pub frame_idx : ℕ

  -- `backpressure_ratio > 0.9`
  unfoldable pub is_overloaded : Worker s → Bool
  is_overloaded w = ltb 0 w.maxsize && ltb (9 * w.maxsize) (10 * length w.queue)

  -- Is the inference skipped? The motion detector is asked only where the queue has room.
  unfoldable pub skip_inference : Frame → Pipeline → Bool × Pipeline
  unfolding is_overloaded
  skip_inference frame_roi p =
      if is_overloaded p.storage
      then (true, p)
      else let (moved, m) = has_motion o.small_gray o.changed frame_roi p.motion in
        (not moved, record p { motion = m })

  -- The boxes go back from the crop to the frame; `shared` says whether the result holds the cached dicts.
  unfoldable pub to_frame : Bool → FrameResult F → Pipeline → FrameResult F × Pipeline
  unfolding move_result move_states move_cache
  to_frame shared r p = elim p.roi [
    | none ↦ (r, p)
    | some c ↦
        let move = λ (x : Parts F Polygon Model).
          move_states c.to_original (if shared then move_cache c.to_original x else x) in
        let core : DetectionCore F Polygon Model = record p.core {
          parts = Option.map move p.core.parts;
        } in
        (move_result c.to_original r, record p { core = core })
  ]

  -- The detection of a frame, or the skip of it; no result where the detection raises.
  unfoldable pub infer : Bool → Frame → Pipeline → Option (FrameResult F) × Pipeline
  unfolding to_frame skipped
  infer true frame_roi p = let (r, q) = to_frame false (skipped p.frame_idx) p in (some r, q)
  infer false frame_roi p =
      let (result, core) = process_frame v d p.core frame_roi (some p.frame_idx) in
      let q : Pipeline = record p { core = core } in
      elim result [
        | none ↦ (none, q)
        | some r ↦ let (moved, last) = to_frame true r q in (some moved, last)
      ]

  unfoldable pub detect_frame : Frame → Pipeline → Option (FrameResult F) × Pipeline
  unfolding skip_inference infer
  detect_frame frame p =
      let frame_roi : Frame = elim p.roi [ none ↦ frame | some c ↦ c.crop frame ] in
      let (skip, q) = skip_inference frame_roi p in infer skip frame_roi q

  -- The crop of a vehicle, clamped to the frame; nothing where it is empty or a conversion raises.
  unfoldable pub crop_bytes : Frame → Option (Box F) → Option s.Bytes
  crop_bytes frame none = none
  crop_bytes frame (some b) = elim (o.int b.xmin) [
    | none ↦ none
    | some x1 ↦ elim (o.int b.ymin) [
      | none ↦ none
      | some y1 ↦ elim (o.int b.xmax) [
        | none ↦ none
        | some x2 ↦ elim (o.int b.ymax) [
          | none ↦ none
          | some y2 ↦
              let cut : Box ℤ = record {
                xmin = max_ℤ (pos 0) x1;
                ymin = max_ℤ (pos 0) y1;
                xmax = min_ℤ (pos (o.size frame).1) x2;
                ymax = min_ℤ (pos (o.size frame).0) y2;
              } in
              if ltb_ℤ cut.xmin cut.xmax && ltb_ℤ cut.ymin cut.ymax
              then o.encode frame cut
              else none
        ]
      ]
    ]
  ]

  abbrev pub states : Pipeline → Dict ℕ (TrackState F)
  states p = elim p.core.parts [ none ↦ [] | some q ↦ q.manager.track_states ]

  -- `[xmin, ymin, xmax, ymax]`
  abbrev numbers : Box F → List s.F
  numbers b = map o.number (b.xmin ∷ b.ymin ∷ b.xmax ∷ b.ymax ∷ [])

  unfoldable pub payload : Frame → CountEvent F → Pipeline → Crossing s.F s.Time s.Bytes
  unfolding crop_bytes direction_text
  payload frame c p =
      let bbox : Option (Box F) = elim (lookup c.track_id (states p)) [
        | none ↦ none
        | some t ↦ t.bbox
      ] in
      record {
        camera_id = p.camera_id;
        job_id = p.job_id;
        lane_id = c.lane_id;
        track_id = c.track_id;
        vehicle_type = c.class_name;
        direction = direction_text c.direction;
        confidence = o.number c.confidence;
        frame_id = p.frame_idx;
        timestamp = o.timestamp p.frame_idx;
        bbox = Option.map numbers bbox;
        crop_bytes = crop_bytes frame bbox;
      }

  unfoldable pub notice : CountEvent F → Pipeline → Notice s.F s.Time
  unfolding direction_text
  notice c p = record {
    camera_id = p.camera_id;
    job_id = p.job_id;
    lane_id = c.lane_id;
    track_id = c.track_id;
    vehicle_type = c.class_name;
    direction = direction_text c.direction;
    confidence = o.number c.confidence;
    frame_id = p.frame_idx;
    timestamp = o.timestamp p.frame_idx;
  }

  -- The publishing of a count event: does it return?
  unfoldable pub publish : CountEvent F → Pipeline → Bool × Pipeline
  unfolding notice
  publish c p = elim p.broker [
    | none ↦ (true, p)
    | some (b, w) ↦
        let (returns, b', w') =
          publish_event (o.send (notice c p)) (o.clock w) (o.failure_clock w) b w in
        (returns, record p { broker = some (b', w') })
  ]

  -- One count event: stored, then published.
  unfoldable pub hand_over : Frame → CountEvent F → Pipeline → Bool × Pipeline
  unfolding payload publish
  hand_over frame c p = publish c (record p { storage = enqueue s (payload frame c p) p.storage })

  -- The loop over the count events, which an exception ends.
  unfoldable pub hand_over_all : Frame → List (CountEvent F) → Pipeline → Bool × Pipeline
  unfolding hand_over
  hand_over_all frame [] p = (true, p)
  hand_over_all frame (c ∷ cs) p =
      let (returns, q) = hand_over frame c p in
      elim returns [ true ↦ hand_over_all frame cs q | false ↦ (false, q) ]

  unfoldable pub store_change : LaneChange → Pipeline → Pipeline
  store_change e p = record p {
    storage =
        enqueue_lane_change s
          (record {
            camera_id = p.camera_id;
            job_id = p.job_id;
            track_id = e.track_id;
            class_name = e.class_name;
            previous_lane_id = some e.previous_stable_lane;
            current_lane_id = e.current_stable_lane;
            frame_id = e.frame;
            timestamp = o.timestamp p.frame_idx;
          })
          p.storage;
  }

  unfoldable pub store_changes : List LaneChange → Pipeline → Pipeline
  unfolding store_change
  store_changes [] p = p
  store_changes (e ∷ es) p = store_changes es (store_change e p)

  -- The body of the loop for one frame: its result, for the writers, or an exception.
  unfoldable pub step : Frame → Pipeline → Option (FrameResult F) × Pipeline
  unfolding detect_frame hand_over_all store_changes
  step raw p =
      let frame = o.resize raw in
      let (found, q) = detect_frame frame (record p { frame_idx = p.frame_idx + 1 }) in
      elim found [
        | none ↦ (none, q)
        | some r ↦
            let (returns, q') = hand_over_all frame r.crossings q in
            elim returns [ true ↦ (some r, store_changes r.events q') | false ↦ (none, q') ]
      ]

  -- What `start` and the beginning of `run` make: a started core, a storage worker, a motion detector, and no
  -- frame yet.
  unfoldable pub prepare : Loaded Model → Setup → ℕ → Store s → Pipeline → Pipeline
  unfolding new_motion_detector
  prepare load setup maxsize store p = record p {
    core = start v d load p.core;
    motion = new_motion_detector "";
    storage = new_worker s setup maxsize store;
    frame_idx = 0;
  }
