-- ===== src/Config.antt =====
-- The sections of the compiled pipeline configuration that the tracking code reads
-- (packages/tf_core/config/compiler.py, packages/tf_core/io/config_loader.py). A key that may be
-- missing is an `Option`; each component has its own default for it.
use traffic_lane_counter.Prelude.{ℕ, Bool, Option, List, String}

-- `lane_id` is the name that the counter falls back on; a key that is missing or empty is the empty text.
pub record LaneData (F : Type 0) : Type 0 where
  pub id : String
  pub lane_id : String
  pub points : List (F × F)

pub record Config (F : Type 0) : Type 0 where
  pub lanes : List (LaneData F)
  pub boundary_mode : Option String
  pub unknown_timeout_frames : Option ℕ
  pub active_track_timeout_frames : Option ℕ
  pub min_track_age_frames : Option ℕ
  pub history_window : Option ℕ
  pub min_consecutive_for_change : Option ℕ
  pub allowed_classes : Option (List String)
  pub count_unstable_lane : Option Bool
  pub motion_history : Option ℕ
