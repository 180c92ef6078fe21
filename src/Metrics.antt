-- ===== src/Metrics.antt =====
-- packages/tf_common/monitoring/live_metrics.py: the store of the live metrics of the cameras. The
-- floats with their rounding are parameters, and so are the probes of the GPU; the gauges are left out.
pub mod Snapshot
pub mod Window
pub mod Streams
use traffic_lane_counter.Prelude.{
  ℕ, ◌+◌, ◌-◌, Bool, true, false, ◌||◌, ◌&&◌, not, Option, none, some, List, [], ◌∷◌, ◌++◌, String,
  ◌==◌, string_eq, if◌then◌else◌, ltb, length, drop, get_or, Result, failed, done,
}
use traffic_lane_counter.Prelude.Dict.{Dict, lookup, insert}

-- Times are in ticks of the monotonic clock, and `fps_window` is `_FPS_WINDOW_SEC` in ticks.
-- `fps_of` is the rate of a number of frames in the window, `ema` the moving average of the rates,
-- `average` the rounded mean latency, `rate` the rounded rate of the source, not below 0.
pub record Readings : Type 1 where
  pub F : Type 0
  pub zero_float : F
  pub is_positive : F → Bool
  pub fps_window : ℕ
  pub fps_of : ℕ → F
  pub ema : F → F → F
  pub average : List F → F
  pub rate : F → F
  pub probe_gpu : F
  pub gpu_available : Bool
  pub gpu_name : String

abbrev pub window_size : ℕ
window_size = 120

-- `deque(maxlen=_WINDOW_SIZE).append`
unfoldable pub push {ℓ} : {A : Type ℓ} → A → List A → List A
push x xs = if ltb (length xs) window_size then xs ++ x ∷ [] else drop 1 xs ++ x ∷ []

-- A diagnostic, as far as the store reads it
pub record Diagnostic : Type 0 where
  pub message : Option String
  pub code : Option String

module _ (v : Readings) where
  open v use {F}

  pub record Entry : Type 0 where
    pub process_timestamps : List ℕ
    pub output_timestamps : List ℕ
    pub latencies_ms : List F
    pub process_fps : F
    pub output_fps : F
    pub process_fps_raw : Option F
    pub output_fps_raw : Option F
    pub source_fps : F
    pub avg_latency_ms : F
    pub gpu_util_pct : F
    pub stream_active : Bool
    pub status : String
    pub error : Option String
    pub error_code : Option String
    pub error_details : Option Diagnostic
    pub last_frame_at : Option ℕ

  unfoldable pub empty_store : Entry
  empty_store = record {
    process_timestamps = [];
    output_timestamps = [];
    latencies_ms = [];
    process_fps = v.zero_float;
    output_fps = v.zero_float;
    process_fps_raw = none;
    output_fps_raw = none;
    source_fps = v.zero_float;
    avg_latency_ms = v.zero_float;
    gpu_util_pct = v.probe_gpu;
    stream_active = false;
    status = "starting";
    error = none;
    error_code = none;
    error_details = none;
    last_frame_at = none;
  }

  abbrev pub Store : Type 0
  Store = Dict String Entry

  -- `_trim_window`: `values[0] < now - window` is written without the difference.
  unfoldable pub trim_window : ℕ → List ℕ → List ℕ
  trim_window now [] = []
  trim_window now (t ∷ ts) =
      let rest = trim_window now ts in if ltb (t + v.fps_window) now then rest else t ∷ ts

  -- `_window_fps`
  unfoldable pub window_fps : List ℕ → F
  window_fps [] = v.zero_float
  window_fps (t ∷ ts) = v.fps_of (length (t ∷ ts))

  -- `_store[camera_id]`, or the empty entry that is stored there
  unfoldable pub entry_of : String → Store → Entry
  unfolding empty_store
  entry_of camera s = get_or (lookup camera s) empty_store

  -- `record_frame`, at this monotonic time and this time of day, with the sum of the timings
  unfoldable pub frame_entry : ℕ → ℕ → F → Option F → Entry → Entry
  unfolding push trim_window window_fps
  frame_entry now clock total_ms source_fps e =
      let process = trim_window now (push now e.process_timestamps) in
      let output = trim_window now e.output_timestamps in
      let latencies = push total_ms e.latencies_ms in
      record e {
        stream_active = true;
        status = "active";
        error = none;
        error_code = none;
        error_details = none;
        last_frame_at = some clock;
        process_timestamps = process;
        output_timestamps = output;
        latencies_ms = latencies;
        source_fps = elim source_fps [ none ↦ e.source_fps | some r ↦ v.rate r ];
        process_fps_raw = some (window_fps process);
        output_fps_raw = some (window_fps output);
        process_fps = v.ema e.process_fps (window_fps process);
        output_fps = v.ema e.output_fps (window_fps output);
        avg_latency_ms = v.average latencies;
      }

  unfoldable pub record_frame : String → ℕ → ℕ → F → Option F → Store → Store
  unfolding frame_entry
  record_frame camera now clock total_ms source_fps s =
      insert camera (frame_entry now clock total_ms source_fps (entry_of camera s)) s

  unfoldable pub output_entry : ℕ → Entry → Entry
  unfolding push trim_window window_fps
  output_entry now e =
      let output = trim_window now (push now e.output_timestamps) in
      record e {
        stream_active = true;
        status = if e.status == "starting" || e.status == "connecting" then "active" else e.status;
        output_timestamps = output;
        output_fps_raw = some (window_fps output);
        output_fps = v.ema e.output_fps (window_fps output);
      }

  unfoldable pub record_output_frame : String → ℕ → Store → Store
  unfolding output_entry
  record_output_frame camera now s = insert camera (output_entry now (entry_of camera s)) s

  abbrev pub is_live : String → Bool
  is_live status =
      status == "starting"
      || (status == "connecting" || (status == "active" || status == "reconnecting"))

  abbrev pub is_allowed : String → Bool
  is_allowed status = is_live status || (status == "error" || status == "stopped")

  unfoldable pub state_entry :
      String → Option String → Option String → Option Diagnostic → Entry → Entry
  state_entry status error code details e = record e {
    status = status;
    error = error;
    error_code = code;
    error_details = details;
    stream_active = is_live status;
  }

  -- `record_stream_state`; an unknown status is a `ValueError`.
  unfoldable pub record_stream_state :
      String
      → String
      → Option String
      → Option String
      → Option Diagnostic
      → Store
      → Result (Unit {0}) Store
  unfolding state_entry
  record_stream_state camera status error code details s =
      if is_allowed status
      then done (insert camera (state_entry status error code details (entry_of camera s)) s)
      else failed tt

  unfoldable pub record_stream_diagnostic : String → Diagnostic → Store → Store
  record_stream_diagnostic camera d s =
      insert camera
        (record (entry_of camera s) {
          error = d.message;
          error_code = d.code;
          error_details = some d;
        })
        s

  unfoldable pub stopped_entry : Entry → Entry
  unfolding state_entry
  stopped_entry e = record (state_entry "stopped" none none none e) {
    process_fps = v.zero_float;
    output_fps = v.zero_float;
    avg_latency_ms = v.zero_float;
    stream_active = false;
  }

  -- `record_stream_stopped`: both of its steps on the entry of the camera
  unfoldable pub record_stream_stopped : String → Store → Store
  unfolding stopped_entry
  record_stream_stopped camera s = insert camera (stopped_entry (entry_of camera s)) s
