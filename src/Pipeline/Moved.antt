-- ===== src/Pipeline/Moved.antt =====
-- packages/tf_worker/pipeline.py: the boxes of a frame's records, moved from the crop back to the frame.
use mathlib.Core.Option
use traffic_lane_counter.Prelude.{ℕ, [], map}
use traffic_lane_counter.Vision.{Box}
use traffic_lane_counter.Tracks.{Track, TrackState, LaneStateManager}
use traffic_lane_counter.Tracker.{Adapter, Detection}
use traffic_lane_counter.Detection.{Parts, FrameTrack, FrameResult}

-- The region of interest: how it cuts a frame, and how it maps a box back to the frame.
pub record Crop (F Frame : Type 0) : Type 0 where
  pub crop : Frame → Frame
  pub to_original : Box F → Box F

-- `track["bbox"] = self._roi.to_original(...)`, and so for the other records with a box
unfoldable pub move_track : {F : Type 0} → (Box F → Box F) → Track F → Track F
move_track f t = record t { bbox = f t.bbox }

unfoldable pub move_detection : {F : Type 0} → (Box F → Box F) → Detection F → Detection F
move_detection f t = record t { bbox = f t.bbox }

unfoldable pub move_frame_track : {F : Type 0} → (Box F → Box F) → FrameTrack F → FrameTrack F
move_frame_track f t = record t { bbox = Option.map f t.bbox }

unfoldable pub move_state : {F : Type 0} → (Box F → Box F) → ℕ × TrackState F → ℕ × TrackState F
move_state f (tid, t) = (tid, record t { bbox = Option.map f t.bbox })

unfoldable pub move_result : {F : Type 0} → (Box F → Box F) → FrameResult F → FrameResult F
unfolding move_track move_detection move_frame_track
move_result f r = record r {
  tracks = map (move_track f) r.tracks;
  raw_detections = map (move_detection f) r.raw_detections;
  frame_tracks = map (move_frame_track f) r.frame_tracks;
}

-- The states of the manager are moved in place.
unfoldable pub move_states : {F P M : Type 0} → (Box F → Box F) → Parts F P M → Parts F P M
unfolding move_state
move_states {F} f p =
    let manager : LaneStateManager F = record p.manager {
      track_states = map (move_state f) p.manager.track_states;
    } in
    record p { manager = manager }

-- The tracks and raw detections of a result are the dicts that the cache of the adapter holds, so that the
-- cache is moved with them.
unfoldable pub move_cache : {F P M : Type 0} → (Box F → Box F) → Parts F P M → Parts F P M
unfolding move_track move_detection
move_cache {F} {P} {M} f p =
    let adapter : Adapter F M = record p.adapter {
      cached_tracks = map (move_track f) p.adapter.cached_tracks;
      cached_raw = map (move_detection f) p.adapter.cached_raw;
    } in
    record p { adapter = adapter }

-- The result of a frame that is skipped
unfoldable pub skipped : {F : Type 0} → ℕ → FrameResult F
skipped frame_idx = record {
  frame_idx = frame_idx;
  tracks = [];
  raw_detections = [];
  events = [];
  occupancy = [];
  crossings = [];
  frame_tracks = [];
}
