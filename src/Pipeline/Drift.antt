-- ===== src/Pipeline/Drift.antt =====
-- Boxes that the pipeline moves although they are in the frame already.
use traffic_lane_counter.Prelude.{◌≡◌, refl, inl, inr, true, none, some, [], map, Option-cases}
use mathlib.Core.Option
use traffic_lane_counter.Vision.{Vision}
use traffic_lane_counter.Tracks
use traffic_lane_counter.Tracker.{Detector, Detection}
use traffic_lane_counter.Storage.{Services}
use traffic_lane_counter.Pipeline.{Outside, Pipeline, to_frame, infer, states}
use traffic_lane_counter.Pipeline.Moved.{Crop, move_state, move_states, move_result, skipped}

module _ (v : Vision) (d : Detector v.F) (s : Services) (o : Outside v d s) where
  open v use {F, Polygon}
  open d use {Frame, Model}

  -- A skipped frame finds nothing, and with a region of interest it moves the box of every known track once more
  -- by the offset of the crop, although no box was detected in it.
  pub infer-skipped-moves :
      (f : Frame) (p : Pipeline v d s o) (c : Crop F Frame)
      → p.roi ≡ some c
      → ((infer v d s o true f p).0 ≡ some (skipped p.frame_idx))
        × (states v d s o (infer v d s o true f p).1
            ≡ map (move_state c.to_original) (states v d s o p))
  unfolding infer to_frame move_result skipped move_states
  infer-skipped-moves f p c e = rw (e, to_frame) (refl, moved)
    where
      moved :
          elim (Option.map (move_states {M = Model} c.to_original) p.core.parts) [
            | none ↦ []
            | some q ↦ q.manager.track_states
          ]
          ≡ map (move_state c.to_original) (states v d s o p)
      moved = elim (Option-cases p.core.parts) [ inl n ↦ rw n | inr (q, n) ↦ rw n ]
