-- ===== src/Motion.antt =====
-- packages/tf_worker/detection/motion_detector.py: `MotionDetector`. The small grey image of a frame and the
-- share of changed pixels, at which the threshold is reached or not, are calls of OpenCV: parameters.
use traffic_lane_counter.Prelude.{
  Bool, true, false, Option, none, some, ◌||◌, String, ◌==◌, string_eq,
}

pub record MotionDetector (G : Type 0) : Type 0 where
  pub disabled : Bool
  pub prev_gray : Option G

unfoldable pub new_motion_detector : {G : Type 0} → String → MotionDetector G
new_motion_detector source_type = record {
  disabled = source_type == "youtube_live" || (source_type == "rtsp" || source_type == "youtube");
  prev_gray = none;
}

-- `changed small prev` is the test `ratio >= self.threshold`.
unfoldable pub has_motion :
    {G Frame : Type 0}
    → (Frame → G)
    → (G → G → Bool)
    → Frame
    → MotionDetector G
    → Bool × MotionDetector G
has_motion small_gray changed frame m = elim m.disabled [
  | true ↦ (true, m)
  | false ↦
      let small = small_gray frame in
      elim m.prev_gray [
        | none ↦ (true, record m { prev_gray = some small })
        | some prev ↦ (changed small prev, record m { prev_gray = some small })
      ]
]

-- `reset`
unfoldable pub reset : {G : Type 0} → MotionDetector G → MotionDetector G
reset m = record m { prev_gray = none }
