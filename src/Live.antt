-- ===== src/Live.antt =====
-- packages/tf_api/api/routes_live.py: the pipelines of the live streams, which viewers, the operators' switches
-- and the supervisor start and stop. Each section under the lock is one function; `starts` says for a camera
-- whether its configuration is there and its pipeline comes up.
pub mod Limit
pub mod Idle
pub mod Switch
pub mod Viewers
pub mod Crowd
pub mod Reload
pub mod Tickets
pub mod Rates
use traffic_lane_counter.Prelude.{
  ℕ, suc, zero, ◌+◌, ◌-◌, Bool, true, false, ◌&&◌, ◌||◌, not, Option, none, some, List, [], ◌∷◌,
  map, String, ◌==◌, string_eq, nat_eq, if◌then◌else◌, ltb, leb, length, min, max,
}
use traffic_lane_counter.Prelude.Dict.{Dict, lookup, insert, remove}

-- The `meta` of a stream, by the keys that decide whether it runs on.
pub record Stream : Type 0 where
  pub always_on : Bool
  pub connections : ℕ
  pub last_access : ℕ

-- The state of the module: `_streams`, `_always_on_runtime_enabled`, `_always_on_disabled_cameras` and
-- `_last_cleanup`.
pub record Fleet : Type 0 where
  pub streams : Dict String Stream
  pub runtime_enabled : Bool
  pub disabled_cameras : List String
  pub last_cleanup : ℕ

abbrev pub stream_cleanup_interval : ℕ
stream_cleanup_interval = 10

abbrev pub stream_idle_ttl_sec : ℕ
stream_idle_ttl_sec = 20

unfoldable pub has_camera : String → List String → Bool
has_camera c [] = false
has_camera c (x ∷ xs) = x == c || has_camera c xs

-- `is_camera_always_on_allowed`
unfoldable pub is_allowed : String → Fleet → Bool
unfolding has_camera
is_allowed c f = f.runtime_enabled && not (has_camera c f.disabled_cameras)

-- `max(1, min(get_max_streams() or _MAX_STREAMS, 64))`
unfoldable pub max_streams : ℕ → ℕ
max_streams setting = max 1 (min (if setting == 0 then 16 else setting) 64)

-- What the first locked section of `ensure_live_pipeline` finds.
pub data Place : Type 0 where
  running full vacant : Place

unfoldable pub ensure_check : ℕ → ℕ → String → Bool → Fleet → Place × Fleet
ensure_check setting now c on f = elim (lookup c f.streams) [
  | none ↦ if leb (max_streams setting) (length f.streams) then (full, f) else (vacant, f)
  | some s ↦
      let touched : Stream = record s { always_on = s.always_on || on; last_access = now } in
      (running, record f { streams = insert c touched f.streams })
]

-- The second locked section, once the pipeline is started
unfoldable pub register : ℕ → String → Bool → Fleet → Fleet
register now c on f = elim (lookup c f.streams) [
  | none ↦ record f {
    streams = insert c (record { always_on = on; connections = 0; last_access = now }) f.streams;
  }
  | some _ ↦ f
]

unfoldable pub ensure_live_pipeline : (String → Bool) → ℕ → ℕ → String → Bool → Fleet → Bool × Fleet
unfolding ensure_check register
ensure_live_pipeline starts setting now c on f =
    let (place, g) = ensure_check setting now c on f in
    elim place [
      | running ↦ (true, g)
      | full ↦ (false, g)
      | vacant ↦ if starts c then (true, register now c on g) else (false, g)
    ]

-- `_cleanup_stream`
unfoldable pub cleanup_stream : String → Fleet → Bool × Fleet
cleanup_stream c f = elim (lookup c f.streams) [
  | none ↦ (false, f)
  | some _ ↦ (true, record f { streams = remove c f.streams })
]

unfoldable pub is_stale : ℕ → Stream → Bool
is_stale now s =
    not s.always_on && (s.connections == 0 && ltb (s.last_access + stream_idle_ttl_sec) now)

unfoldable pub stale_cameras : ℕ → Dict String Stream → List String
unfolding is_stale
stale_cameras now [] = []
stale_cameras now ((c, s) ∷ d) =
    let rest = stale_cameras now d in if is_stale now s then c ∷ rest else rest

unfoldable pub cleanup_all : List String → Fleet → Fleet
unfolding cleanup_stream
cleanup_all [] f = f
cleanup_all (c ∷ cs) f = cleanup_all cs (cleanup_stream c f).1

-- `_cleanup_stale_streams`
unfoldable pub cleanup_stale_streams : ℕ → Bool → Fleet → Fleet
unfolding stale_cameras cleanup_all
cleanup_stale_streams now force f =
    if not force && ltb now (f.last_cleanup + stream_cleanup_interval)
    then f
    else cleanup_all (stale_cameras now f.streams) (record f { last_cleanup = now })

-- `start_all_live_pipelines`, over the configured cameras; `clock` is the time at each of them.
unfoldable pub start_all_live_pipelines :
    (String → Bool) → ℕ → (String → ℕ) → List String → Fleet → Fleet
unfolding ensure_live_pipeline is_allowed
start_all_live_pipelines starts setting clock [] f = f
start_all_live_pipelines starts setting clock (c ∷ cs) f =
    start_all_live_pipelines starts setting clock cs
      (if is_allowed c f then (ensure_live_pipeline starts setting (clock c) c true f).1 else f)

-- One camera of `stop_always_on_pipelines`: a pipeline with viewers runs on as theirs.
unfoldable pub stop_always_on : String → Fleet → Fleet
unfolding cleanup_stream
stop_always_on c f = elim (lookup c f.streams) [
  | none ↦ f
  | some s ↦
      let g : Fleet = record f { streams = insert c (record s { always_on = false }) f.streams } in
      if s.connections == 0 then (cleanup_stream c g).1 else g
]

unfoldable pub stop_cameras : List String → Fleet → Fleet
unfolding stop_always_on
stop_cameras [] f = f
stop_cameras (c ∷ cs) f = stop_cameras cs (stop_always_on c f)

abbrev pub cameras_of : Dict String Stream → List String
cameras_of d = map (λ x. x.0) d

-- `stop_always_on_pipelines`, for all cameras or for one
unfoldable pub stop_always_on_pipelines : Option String → Fleet → Fleet
unfolding stop_cameras
stop_always_on_pipelines none f = stop_cameras (cameras_of f.streams) f
stop_always_on_pipelines (some c) f =
    if has_camera c (cameras_of f.streams) then stop_always_on c f else f

-- `set_fleet_always_on`
unfoldable pub set_fleet_always_on :
    (String → Bool) → ℕ → (String → ℕ) → List String → Bool → Fleet → Fleet
unfolding start_all_live_pipelines stop_always_on_pipelines
set_fleet_always_on starts setting clock ids enabled f = elim enabled [
  | true ↦
      start_all_live_pipelines starts setting clock ids
        (record f { runtime_enabled = true; disabled_cameras = [] })
  | false ↦ stop_always_on_pipelines none (record f { runtime_enabled = false })
]

unfoldable pub discard : String → List String → List String
discard c [] = []
discard c (x ∷ xs) = let rest = discard c xs in if x == c then rest else x ∷ rest

-- `set_camera_always_on`, for a configured camera
unfoldable pub set_camera_always_on : (String → Bool) → ℕ → ℕ → String → Bool → Fleet → Fleet
unfolding ensure_live_pipeline stop_always_on_pipelines discard
set_camera_always_on starts setting now c enabled f = elim enabled [
  | true ↦
      (ensure_live_pipeline starts setting now c true
        (record f { runtime_enabled = true; disabled_cameras = discard c f.disabled_cameras })).1
  | false ↦
      stop_always_on_pipelines (some c) (record f { disabled_cameras = c ∷ f.disabled_cameras })
]

-- The supervisor at one camera: a missing pipeline is started, an always-on one is touched.
unfoldable pub supervise : (String → Bool) → ℕ → ℕ → String → Fleet → Fleet
unfolding ensure_live_pipeline is_allowed
supervise starts setting now c f =
    if is_allowed c f
    then elim (lookup c f.streams) [
      | none ↦ (ensure_live_pipeline starts setting now c true f).1
      | some s ↦
          if s.always_on
          then record f { streams = insert c (record s { last_access = now }) f.streams }
          else f
    ]
    else f

-- A round of the supervisor over the configured cameras
unfoldable pub supervise_all : (String → Bool) → ℕ → (String → ℕ) → List String → Fleet → Fleet
unfolding supervise
supervise_all starts setting clock [] f = f
supervise_all starts setting clock (c ∷ cs) f =
    supervise_all starts setting clock cs (supervise starts setting (clock c) c f)

-- A viewer comes, `live_stream_mjpg`: the result is whether a stream is there for it. `env_auto_start` is the
-- default of the environment.
unfoldable pub view : (String → Bool) → ℕ → ℕ → Bool → String → Fleet → Bool × Fleet
unfolding ensure_live_pipeline cleanup_stale_streams
view starts setting now env_auto_start c f =
    let (there, g) =
      ensure_live_pipeline starts setting now c env_auto_start
        (cleanup_stale_streams now false f) in
    if there
    then elim (lookup c g.streams) [
      | none ↦ (false, g)
      | some s ↦ (
        true,
        record g {
          streams =
              insert c (record s { connections = s.connections + 1; last_access = now }) g.streams;
        },
      )
    ]
    else (false, g)

-- A viewer goes, the `finally` of `_mjpeg_generator`.
unfoldable pub leave : ℕ → String → Fleet → Fleet
leave now c f = elim (lookup c f.streams) [
  | none ↦ f
  | some s ↦ record f {
    streams = insert c (record s { connections = s.connections - 1; last_access = now }) f.streams;
  }
]
