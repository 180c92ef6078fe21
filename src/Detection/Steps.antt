-- ===== src/Detection/Steps.antt =====
-- `process_frame` taken apart: a frame whose detection raises, and one that is counted.
use traffic_lane_counter.Prelude.{◌+◌, ◌≡◌, none, some, List, arith}
use traffic_lane_counter.Vision.{Vision}
use traffic_lane_counter.Tracks.{Track}
use traffic_lane_counter.Tracker.{Detector, Detection, track}
use traffic_lane_counter.Detection.{DetectionCore, Parts, FrameResult, count_frame, process_frame}

module _ (v : Vision) (d : Detector v.F) where
  open v use {F, Polygon}
  open d use {Frame, Model}

  module _ (core : DetectionCore F Polygon Model) (f : Frame) (p : Parts F Polygon Model) where
    abbrev pub detected : Parts F Polygon Model
    detected = record p { adapter = (track d p.adapter f).1 }

    abbrev pub counted_frame :
        List (Track F) × List (Detection F) → FrameResult F × Parts F Polygon Model
    counted_frame x = count_frame v d core.frame_idx (core.frame_idx + 1) detected x.0 x.1

    pub process_frame_raises :
        core.parts ≡ some p
        → (track d p.adapter f).0 ≡ none
        → ((process_frame v d core f none).0 ≡ none)
          × ((process_frame v d core f none).1.parts ≡ some detected)
          × ((process_frame v d core f none).1.frame_idx ≡ core.frame_idx + 1)
    unfolding process_frame
    process_frame_raises e n = ground arith

    pub process_frame_counts :
        (x : List (Track F) × List (Detection F))
        → core.parts ≡ some p
        → (track d p.adapter f).0 ≡ some x
        → ((process_frame v d core f none).0 ≡ some (counted_frame x).0)
          × ((process_frame v d core f none).1.parts ≡ some (counted_frame x).1)
          × ((process_frame v d core f none).1.frame_idx ≡ core.frame_idx + 1)
    unfolding process_frame
    process_frame_counts x e n = ground arith
