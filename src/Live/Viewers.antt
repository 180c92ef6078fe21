-- ===== src/Live/Viewers.antt =====
-- Viewers against the operators' switches.
use traffic_lane_counter.Prelude.{
  ℕ, ◌+◌, ◌-◌, ◌≡◌, refl, ◌∙◌, inl, inr, Bool, true, false, ◌||◌, some, List, [], ◌∷◌, String,
  string_eq, nat_eq, arith, Option-cases, Bool-cases,
}
use traffic_lane_counter.Prelude.Dict.{lookup, lookup-insert}
use traffic_lane_counter.Live.{
  Stream, Fleet, has_camera, is_allowed, is_stale, ensure_check, register, ensure_live_pipeline,
  cleanup_stream, cleanup_all, stale_cameras, cleanup_stale_streams, set_camera_always_on,
  stop_always_on_pipelines, view, leave, stop_always_on,
}
use traffic_lane_counter.Live.Switch.{SameSwitches, ensure-switches, stop_always_on-switches}

cleanup_all-switches : (cs : List String) (f : Fleet) → SameSwitches f (cleanup_all cs f)
unfolding cleanup_all cleanup_stream
cleanup_all-switches [] f = (refl, refl)
cleanup_all-switches (c ∷ cs) f =
    let (on, off) = cleanup_all-switches cs (cleanup_stream c f).1 in
    let same : SameSwitches f (cleanup_stream c f).1 = ground arith in (on ∙ same.0, off ∙ same.1)

cleanup-switches :
    (now : ℕ) (force : Bool) (f : Fleet) → SameSwitches f (cleanup_stale_streams now force f)
unfolding cleanup_stale_streams
cleanup-switches now force f =
    let g : Fleet = record f { last_cleanup = now } in
    ground (arith, cleanup_all-switches (stale_cameras now f.streams) g)

leave-switches : (now : ℕ) (c : String) (f : Fleet) → SameSwitches f (leave now c f)
unfolding leave
leave-switches now c f = ground arith

is_allowed-same : (c : String) (f g : Fleet) → SameSwitches f g → is_allowed c g ≡ is_allowed c f
unfolding is_allowed
is_allowed-same c f g (on, off) = rw (on, off)

disabled :
    (c : String) (f : Fleet)
    → is_allowed c (record f { disabled_cameras = c ∷ f.disabled_cameras }) ≡ false
unfolding is_allowed has_camera
disabled c f = ground arith

module _ (starts : String → Bool) (setting : ℕ) where
  view-switches :
      (now : ℕ) (env : Bool) (c : String) (f : Fleet)
      → SameSwitches f (view starts setting now env c f).1
  unfolding view
  view-switches now env c f =
      let g = cleanup_stale_streams now false f in
      ground (arith, cleanup-switches now false f, ensure-switches starts setting now c env g)

  -- The camera has a stream that is always on.
  abbrev RunsAlways : String → Fleet → Type 0
  RunsAlways c f = (s : Stream) × (lookup c f.streams ≡ some s) × (s.always_on ≡ true)

  ensure-RunsAlways :
      (now : ℕ) (c : String) (f : Fleet)
      → (ensure_live_pipeline starts setting now c true f).0 ≡ true
      → RunsAlways c (ensure_live_pipeline starts setting now c true f).1
  unfolding ensure_live_pipeline ensure_check register
  ensure-RunsAlways now c f h = elim (Option-cases (lookup c f.streams)) [
    | inl e ↦
        let new : Stream = record { always_on = true; connections = 0; last_access = now } in
        (new, ground (arith, e, h, lookup-insert c c new f.streams), refl)
    | inr (s, e) ↦
        let touched : Stream = record s { always_on = s.always_on || true; last_access = now } in
        (touched, ground (arith, e, h, lookup-insert c c touched f.streams), ground arith)
  ]

  view-RunsAlways :
      (now : ℕ) (c : String) (f : Fleet)
      → (view starts setting now true c f).0 ≡ true
      → RunsAlways c (view starts setting now true c f).1
  unfolding view
  view-RunsAlways now c f h =
      let g = cleanup_stale_streams now false f in
      let r = ensure_live_pipeline starts setting now c true g in
      elim (Bool-cases r.0) [
        | inr n ↦ absurd (cc (rw (n, view) at h))
        | inl y ↦
            let (s, e, on) = ensure-RunsAlways now c g y in
            let seen : Stream = record s { connections = s.connections + 1; last_access = now } in
            (seen, ground (arith, y, e, lookup-insert c c seen r.1.streams), on)
      ]

  leave-RunsAlways :
      (now : ℕ) (c : String) (f : Fleet) → RunsAlways c f → RunsAlways c (leave now c f)
  unfolding leave
  leave-RunsAlways now c f (s, e, on) =
      let left : Stream = record s { connections = s.connections - 1; last_access = now } in
      (left, ground (arith, e, lookup-insert c c left f.streams), on)

  switched_off :
      (t0 : ℕ) (c : String) (f : Fleet)
      → is_allowed c (set_camera_always_on starts setting t0 c false f) ≡ false
  unfolding set_camera_always_on stop_always_on_pipelines
  switched_off t0 c f =
      let g : Fleet = record f { disabled_cameras = c ∷ f.disabled_cameras } in
      ground (
        arith,
        disabled c f,
        is_allowed-same c g (stop_always_on c g) (stop_always_on-switches c g),
      )

  -- Where the environment starts streams by itself, a viewer of a camera that the operator has switched off leaves
  -- behind a stream that is always on: it is never idle, although the camera may not be always on.
  pub view-overrides :
      (t0 t1 t2 : ℕ) (c : String) (f : Fleet)
      → let off = set_camera_always_on starts setting t0 c false f in
        (view starts setting t1 true c off).0 ≡ true
        → let g = leave t2 c (view starts setting t1 true c off).1 in
          (is_allowed c g ≡ false)
          × (s : Stream) × (lookup c g.streams ≡ some s)
          × (s.always_on ≡ true)
          × ((now : ℕ) → is_stale now s ≡ false)
  unfolding is_stale
  view-overrides t0 t1 t2 c f h =
      let off = set_camera_always_on starts setting t0 c false f in
      let seen = (view starts setting t1 true c off).1 in
      let (s, e, on) = leave-RunsAlways t2 c seen (view-RunsAlways t1 c off h) in
      (
        is_allowed-same c seen (leave t2 c seen) (leave-switches t2 c seen)
            ∙ is_allowed-same c off seen (view-switches t1 true c off)
            ∙ switched_off t0 c f,
        s,
        e,
        on,
        λ now. ground (arith, on),
      )
