-- ===== src/Metrics/Snapshot.antt =====
-- What `get_camera_metrics` of the live metrics answers.
use traffic_lane_counter.Prelude.{ℕ, Bool, Option, none, some, String, string_eq, get_or}
use traffic_lane_counter.Prelude.Dict.{lookup}
use traffic_lane_counter.Metrics.{Readings, Diagnostic, Entry, Store, empty_store}

module _ (v : Readings) where
  open v use {F}

  -- The answer of `get_camera_metrics`; that for a camera which was never seen has no raw rates.
  pub record Snapshot : Type 0 where
    pub camera_id : String
    pub fps : F
    pub process_fps : F
    pub process_fps_raw : Option F
    pub source_fps : F
    pub output_fps : F
    pub output_fps_raw : Option F
    pub avg_latency_ms : F
    pub gpu_util_pct : F
    pub gpu_available : Bool
    pub gpu_name : String
    pub stream_active : Bool
    pub status : String
    pub error : Option String
    pub error_code : Option String
    pub error_details : Option Diagnostic
    pub last_frame_at : Option ℕ

  unfoldable pub snapshot_of : String → Entry v → Snapshot
  snapshot_of camera e = record {
    camera_id = camera;
    fps = e.process_fps;
    process_fps = e.process_fps;
    process_fps_raw = some (get_or e.process_fps_raw e.process_fps);
    source_fps = e.source_fps;
    output_fps = e.output_fps;
    output_fps_raw = some (get_or e.output_fps_raw e.output_fps);
    avg_latency_ms = e.avg_latency_ms;
    gpu_util_pct = e.gpu_util_pct;
    gpu_available = v.gpu_available;
    gpu_name = v.gpu_name;
    stream_active = e.stream_active;
    status = e.status;
    error = e.error;
    error_code = e.error_code;
    error_details = e.error_details;
    last_frame_at = e.last_frame_at;
  }

  unfoldable pub get_camera_metrics : String → Store v → Snapshot
  unfolding snapshot_of empty_store
  get_camera_metrics camera s = elim (lookup camera s) [
    | some e ↦ snapshot_of camera e
    | none ↦ record (snapshot_of camera (record (empty_store v) { status = "stopped" })) {
      process_fps_raw = none;
      output_fps_raw = none;
    }
  ]
