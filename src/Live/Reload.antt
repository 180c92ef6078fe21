-- ===== src/Live/Reload.antt =====
-- Viewers against a reload of the pipeline.
use traffic_lane_counter.Prelude.{
  ℕ, ◌+◌, ◌≤◌, ◌<◌, ◌≡◌, refl, Bool, true, false, none, some, List, [], ◌∷◌, String, string_eq,
  nat_eq, arith, leb, length,
}
use traffic_lane_counter.Prelude.Dict.{lookup, insert, lookup-insert, lookup-remove}
use traffic_lane_counter.Live.{
  Stream, Fleet, max_streams, is_stale, ensure_check, vacant, register, ensure_live_pipeline,
  cleanup_stream, cleanup_all, stale_cameras, cleanup_stale_streams, view, leave,
}
use traffic_lane_counter.Live.Idle.{lookup-cleanup_all}
use traffic_lane_counter.Live.Limit.{length-remove-le, length-remove_present}

length-cleanup_all :
    (cs : List String) (f : Fleet) → length (cleanup_all cs f).streams ≤ length f.streams
unfolding cleanup_all cleanup_stream
length-cleanup_all [] f = omega arith
length-cleanup_all (c ∷ cs) f =
    let one : length (cleanup_stream c f).1.streams ≤ length f.streams =
      ground (arith, length-remove-le c f.streams) in
    omega (arith, one, length-cleanup_all cs (cleanup_stream c f).1)

length-cleanup :
    (now : ℕ) (force : Bool) (f : Fleet)
    → length (cleanup_stale_streams now force f).streams ≤ length f.streams
unfolding cleanup_stale_streams
length-cleanup now force f =
    let g : Fleet = record f { last_cleanup = now } in
    ground (arith, length-cleanup_all (stale_cameras now f.streams) g)

module _ (starts : String → Bool) (setting : ℕ) where
  lookup-cleanup_stale :
      (now : ℕ) (c : String) (f : Fleet)
      → lookup c f.streams ≡ none
      → lookup c (cleanup_stale_streams now false f).streams ≡ none
  unfolding cleanup_stale_streams
  lookup-cleanup_stale now c f e =
      let g : Fleet = record f { last_cleanup = now } in
      ground (arith, e, lookup-cleanup_all (stale_cameras now f.streams) c g)

  finds_place :
      (now : ℕ) (c : String) (on : Bool) (f : Fleet)
      → lookup c f.streams ≡ none
      → length f.streams + 1 ≤ max_streams setting
      → ensure_check setting now c on f ≡ (vacant, f)
  unfolding ensure_check
  finds_place now c on f e l =
      let free : leb (max_streams setting) (length f.streams) ≡ false = ground (arith, l) in
      rw (e, free, ensure_check) refl

  registers :
      (now : ℕ) (c : String) (on : Bool) (f : Fleet)
      → lookup c f.streams ≡ none
      → register now c on f ≡ record f {
        streams =
            insert c (record { always_on = on; connections = 0; last_access = now }) f.streams;
      }
  unfolding register
  registers now c on f e = rw (e, register) refl

  ensure_starts :
      (now : ℕ) (c : String) (on : Bool) (f : Fleet)
      → lookup c f.streams ≡ none
      → length f.streams + 1 ≤ max_streams setting
      → starts c ≡ true
      → ensure_live_pipeline starts setting now c on f ≡ (
        true,
        record f {
          streams =
              insert c (record { always_on = on; connections = 0; last_access = now }) f.streams;
        },
      )
  unfolding ensure_live_pipeline
  ensure_starts now c on f e l t =
      rw (finds_place now c on f e l, t, ensure_live_pipeline)
        (rw (finds_place now c on f e l, registers now c on f e) refl)

  -- A viewer of a camera without a stream, where there is a place and the pipeline comes up
  view_starts :
      (now : ℕ) (c : String) (f : Fleet)
      → lookup c f.streams ≡ none
      → length f.streams + 1 ≤ max_streams setting
      → starts c ≡ true
      → ((view starts setting now false c f).0 ≡ true)
        × (lookup c (view starts setting now false c f).1.streams
            ≡ some (record { always_on = false; connections = 1; last_access = now }))
  unfolding view
  view_starts now c f e l t =
      let g = cleanup_stale_streams now false f in
      let new : Stream = record { always_on = false; connections = 0; last_access = now } in
      let up =
        ensure_starts now c false g (lookup-cleanup_stale now c f e)
          (omega (arith, l, length-cleanup now false f)) t in
      let found : lookup c (insert c new g.streams) ≡ some new =
        ground (arith, lookup-insert c c new g.streams) in
      let seen : Stream = record { always_on = false; connections = 1; last_access = now } in
      rw (up, view)
        (rw found (refl, ground (arith, lookup-insert c c seen (insert c new g.streams))))

  -- Where the environment switches the automatic start of live streams off, a pipeline starts and there was a stream
  -- of the camera within the limit: after a reload of the pipeline of the camera a second viewer comes, and then the
  -- stream of the first viewer ends. The new stream counts no viewer although the second one is there, and 20 seconds
  -- later it is idle.
  pub leave-reloaded :
      (t1 t2 : ℕ) (c : String) (f : Fleet) (s : Stream)
      → lookup c f.streams ≡ some s
      → length f.streams ≤ max_streams setting
      → starts c ≡ true
      → let second = view starts setting t1 false c (cleanup_stream c f).1 in
        (second.0 ≡ true)
        × (x : Stream) × (lookup c (leave t2 c second.1).streams ≡ some x)
        × (x.connections ≡ 0)
        × ((now : ℕ) → t2 + 20 < now → is_stale now x ≡ true)
  unfolding leave cleanup_stream is_stale
  leave-reloaded t1 t2 c f s e l t =
      let h = (cleanup_stream c f).1 in
      let gone : lookup c h.streams ≡ none = ground (arith, e, lookup-remove c c f.streams) in
      let room : length h.streams + 1 ≤ max_streams setting =
        ground (arith, e, l, length-remove_present c s f.streams) in
      let (there, watched) = view_starts t1 c h gone room t in
      let x : Stream = record { always_on = false; connections = 0; last_access = t2 } in
      let second = (view starts setting t1 false c h).1 in
      (
        there,
        x,
        ground (arith, watched, lookup-insert c c x second.streams),
        refl,
        λ now m. ground arith,
      )
