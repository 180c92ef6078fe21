-- ===== src/Tests/Streamed.antt =====
-- Live streams of two cameras with a limit of two.
use traffic_lane_counter.Prelude.{
  ℕ, ◌+◌, ◌≤◌, ◌<◌, ◌≡◌, refl, Bool, true, false, ◌&&◌, not, none, some, String, List, [], ◌∷◌,
  arith, string_eq, nat_eq, length, ltb, ◌==◌, if◌then◌else◌, str_dec, ℕ_discrete,
}
use text.Mathlib.TextEquality.{eq_iff}
use traffic_lane_counter.Prelude.Dict.{lookup, insert}
use traffic_lane_counter.Live.{
  Stream, Fleet, vacant, max_streams, has_camera, is_allowed, is_stale, ensure_check, register,
  cleanup_stream, cleanup_stale_streams, set_fleet_always_on, set_camera_always_on, supervise_all,
  view, leave,
}
use traffic_lane_counter.Live.Crowd.{
  Operation, views, leaves, cleans, supervises, switches_camera, run, run-IsWithin, register-race,
}
use traffic_lane_counter.Live.Idle.{lookup-cleanup_stale_streams}
use traffic_lane_counter.Live.Switch.{set_fleet_always_on-off, supervise_all-keeps_off}
use traffic_lane_counter.Live.Viewers.{view-overrides}
use traffic_lane_counter.Live.Reload.{leave-reloaded}
use traffic_lane_counter.Live.Tickets.{create_stream_ticket, authorize_ticket, authorize-create}

abbrev all_start : String → Bool
all_start c = true

abbrev watched : Stream
watched = record { always_on = false; connections = 1; last_access = 5 }

abbrev left : Stream
left = record { always_on = false; connections = 0; last_access = 5 }

abbrev fleet : Fleet
fleet = record {
  streams = ("A", watched) ∷ [];
  runtime_enabled = true;
  disabled_cameras = [];
  last_cleanup = 0;
}

abbrev evening : List Operation
evening =
    views 6 true "B"
    ∷ views 7 true "C"
    ∷ switches_camera 8 "B" false
    ∷ supervises (λ c. 9) ("A" ∷ "B" ∷ "C" ∷ [])
    ∷ leaves 40 "A"
    ∷ cleans 90 true
    ∷ []

run-IsWithin_example : length (run all_start 2 evening fleet).streams ≤ max_streams 2
unfolding max_streams
run-IsWithin_example = run-IsWithin all_start 2 evening fleet (omega arith)

register-race_example :
    ((ensure_check 2 6 "B" true fleet).0 ≡ vacant)
    × ((ensure_check 2 6 "C" true (ensure_check 2 6 "B" true fleet).1).0 ≡ vacant)
    × (length
          (register 6 "C" true (
            register 6 "B" true
              (ensure_check 2 6 "C" true (ensure_check 2 6 "B" true fleet).1).1)).streams
        ≡ max_streams 2 + 1)
unfolding lookup max_streams str_dec ℕ_discrete
register-race_example =
    register-race 2 6 "B" "C" true fleet (ground (arith, eq_iff "B" "C")) refl refl refl

abbrev quiet : Fleet
quiet = record fleet { streams = ("A", left) ∷ ("B", watched) ∷ [] }

lookup-cleanup_stale_streams_example : lookup "A" (cleanup_stale_streams 30 false quiet).streams ≡ (
    if not false && ltb 30 (quiet.last_cleanup + 10)
    then lookup "A" quiet.streams
    else elim (lookup "A" quiet.streams) [
      | none ↦ none
      | some s ↦
          if not s.always_on && (s.connections == 0 && ltb (s.last_access + 20) 30)
          then none
          else some s
    ])
lookup-cleanup_stale_streams_example =
    lookup-cleanup_stale_streams 30 false "A" quiet ((ground (arith, eq_iff "B" "A"), tt), (tt, tt))

set_fleet_always_on-off_example :
    let g = set_fleet_always_on all_start 2 (λ c. 7) ("A" ∷ "B" ∷ []) false fleet in
    (is_allowed "A" g ≡ false)
    × ((s : Stream) → lookup "A" g.streams ≡ some s → (s.always_on ≡ false) × (0 < s.connections))
set_fleet_always_on-off_example =
    set_fleet_always_on-off all_start 2 (λ c. 7) ("A" ∷ "B" ∷ []) fleet "A"

abbrev switched : Fleet
switched = record fleet { disabled_cameras = "B" ∷ [] }

supervise_all-keeps_off_example :
    lookup "B" (supervise_all all_start 2 (λ c. 7) ("A" ∷ "B" ∷ []) switched).streams ≡ none
unfolding is_allowed lookup str_dec
supervise_all-keeps_off_example =
    supervise_all-keeps_off all_start 2 (λ c. 7) ("A" ∷ "B" ∷ []) "B" switched refl refl

view-overrides_example :
    let off = set_camera_always_on all_start 2 6 "A" false fleet in
    let g = leave 8 "A" (view all_start 2 7 true "A" off).1 in
    (is_allowed "A" g ≡ false)
    × (s : Stream) × (lookup "A" g.streams ≡ some s)
    × (s.always_on ≡ true)
    × ((now : ℕ) → is_stale now s ≡ false)
unfolding view set_camera_always_on lookup str_dec has_camera ℕ_discrete insert
view-overrides_example = view-overrides all_start 2 6 7 8 "A" fleet refl

leave-reloaded_example :
    let second = view all_start 2 7 false "A" (cleanup_stream "A" fleet).1 in
    (second.0 ≡ true)
    × (x : Stream) × (lookup "A" (leave 8 "A" second.1).streams ≡ some x)
    × (x.connections ≡ 0)
    × ((now : ℕ) → 8 + 20 < now → is_stale now x ≡ true)
unfolding lookup str_dec max_streams
leave-reloaded_example = leave-reloaded all_start 2 7 8 "A" fleet watched refl (omega arith) refl

authorize-create_example :
    let first = authorize_ticket 30 "xyz" "A" (create_stream_ticket 0 "xyz" "A" []) in
    (first.0 ≡ (◌==◌ {A = String} "A" "A" && ltb 30 (0 + 60)))
    × ((authorize_ticket 31 "xyz" "A" first.1).0 ≡ false)
authorize-create_example = authorize-create 0 30 31 "xyz" "A" "A" "A" []
