-- ===== src/Live/Crowd.antt =====
-- What viewers, operators and the supervisor do to the live streams, one whole operation after another, and two
-- starters at once.
use traffic_lane_counter.Prelude.{
  ℕ, ◌+◌, ◌≤◌, ◌≡◌, ◌≢◌, Bool, true, false, none, List, [], ◌∷◌, String, string_eq, arith, length,
}
use traffic_lane_counter.Prelude.Dict.{lookup, insert, lookup-insert}
use traffic_lane_counter.Live.{
  Stream, Fleet, vacant, max_streams, ensure_check, register, cleanup_stream, cleanup_stale_streams,
  cameras_of, stop_always_on_pipelines, set_fleet_always_on, set_camera_always_on, supervise_all,
  view, leave,
}
use traffic_lane_counter.Live.Limit.{
  length-insert_absent, IsWithin, ensure-IsWithin, cleanup_stream-IsWithin, cleanup-IsWithin,
  start_all-IsWithin, stop_always_on-IsWithin, stop_cameras-IsWithin, supervise_all-IsWithin,
  leave-IsWithin, view-IsWithin,
}

-- Each with its time; `supervises` and `switches_fleet` have the time at each of the cameras.
pub data Operation : Type 0 where
  views : ℕ → Bool → String → Operation
  leaves : ℕ → String → Operation
  reloads : String → Operation
  cleans : ℕ → Bool → Operation
  switches_fleet : (String → ℕ) → List String → Bool → Operation
  switches_camera : ℕ → String → Bool → Operation
  supervises : (String → ℕ) → List String → Operation

module _ (starts : String → Bool) (setting : ℕ) where
  abbrev pub apply : Operation → Fleet → Fleet
  apply (views now env c) f = (view starts setting now env c f).1
  apply (leaves now c) f = leave now c f
  apply (reloads c) f = (cleanup_stream c f).1
  apply (cleans now force) f = cleanup_stale_streams now force f
  apply (switches_fleet clock ids on) f = set_fleet_always_on starts setting clock ids on f
  apply (switches_camera now c on) f = set_camera_always_on starts setting now c on f
  apply (supervises clock ids) f = supervise_all starts setting clock ids f

  unfoldable pub run : List Operation → Fleet → Fleet
  run [] f = f
  run (x ∷ xs) f = run xs (apply x f)

  apply-IsWithin :
      (x : Operation) (f : Fleet) → IsWithin starts setting f → IsWithin starts setting (apply x f)
  unfolding set_fleet_always_on set_camera_always_on stop_always_on_pipelines
  apply-IsWithin (views now env c) f h = view-IsWithin starts setting now env c f h
  apply-IsWithin (leaves now c) f h = leave-IsWithin starts setting now c f h
  apply-IsWithin (reloads c) f h = cleanup_stream-IsWithin starts setting c f h
  apply-IsWithin (cleans now force) f h = cleanup-IsWithin starts setting now force f h
  apply-IsWithin (switches_fleet clock ids true) f h =
      start_all-IsWithin starts setting clock ids _ h
  apply-IsWithin (switches_fleet clock ids false) f h =
      stop_cameras-IsWithin starts setting (cameras_of f.streams) _ h
  apply-IsWithin (switches_camera now c true) f h = ensure-IsWithin starts setting now c true _ h
  apply-IsWithin (switches_camera now c false) f h =
      let g : Fleet = record f { disabled_cameras = c ∷ f.disabled_cameras } in
      ground (arith, h, stop_always_on-IsWithin starts setting c g)
  apply-IsWithin (supervises clock ids) f h = supervise_all-IsWithin starts setting clock ids f h

  -- Whatever viewers, operators, the cleaner and the supervisor do one after another, there are never more live
  -- streams than the limit allows, if there were not before.
  pub run-IsWithin :
      (xs : List Operation) (f : Fleet)
      → length f.streams ≤ max_streams setting
      → length (run xs f).streams ≤ max_streams setting
  unfolding run
  run-IsWithin [] f h = h
  run-IsWithin (x ∷ xs) f h = run-IsWithin xs (apply x f) (apply-IsWithin x f h)

-- Two starters for different cameras that are not running, where one place is left: if both look at the limit
-- before either registers its pipeline, both find a place, and there is one stream more than the limit allows.
pub register-race :
    (setting now : ℕ) (c k : String) (on : Bool) (f : Fleet)
    → c ≢ k
    → lookup c f.streams ≡ none
    → lookup k f.streams ≡ none
    → length f.streams + 1 ≡ max_streams setting
    → ((ensure_check setting now c on f).0 ≡ vacant)
      × ((ensure_check setting now k on (ensure_check setting now c on f).1).0 ≡ vacant)
      × (length
            (register now k on (
              register now c on
                (ensure_check setting now k on (ensure_check setting now c on f).1).1)).streams
          ≡ max_streams setting + 1)
unfolding ensure_check register
register-race setting now c k on f n e e' l =
    let s : Stream = record { always_on = on; connections = 0; last_access = now } in
    ground (
      arith,
      e,
      e',
      l,
      length-insert_absent c s f.streams,
      length-insert_absent k s (insert c s f.streams),
      lookup-insert c k s f.streams,
    )
