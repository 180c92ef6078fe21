-- ===== src/Live/Limit.antt =====
-- The number of live streams against the limit on it.
use traffic_lane_counter.Prelude.{
  ℕ, ◌+◌, ◌-◌, ◌≤◌, ◌≡◌, inl, inr, Bool, true, false, ◌||◌, none, some, List, [], ◌∷◌, String,
  string_eq, nat_eq, arith, leb, length, Option-cases, Bool-cases,
}
use traffic_lane_counter.Prelude.Dict.{Dict, lookup, insert, remove}
use traffic_lane_counter.Live.{
  Stream, Fleet, max_streams, ensure_check, register, ensure_live_pipeline, cleanup_stream,
  cleanup_all, stale_cameras, cleanup_stale_streams, start_all_live_pipelines, stop_always_on,
  stop_cameras, supervise, supervise_all, view, leave, is_allowed,
}

length-insert_present :
    {V : Type 0} (k : String) (v w : V) (d : Dict String V)
    → lookup k d ≡ some w
    → length (insert k v d) ≡ length d
unfolding insert lookup
length-insert_present k v w [] e = cc
length-insert_present k v w ((j, x) ∷ d) e = ground (arith, length-insert_present k v w d)

pub length-insert_absent :
    {V : Type 0} (k : String) (v : V) (d : Dict String V)
    → lookup k d ≡ none
    → length (insert k v d) ≡ length d + 1
unfolding insert lookup
length-insert_absent k v [] e = omega arith
length-insert_absent k v ((j, x) ∷ d) e = ground (arith, length-insert_absent k v d)

pub length-remove-le :
    {V : Type 0} (k : String) (d : Dict String V) → length (remove k d) ≤ length d
unfolding remove
length-remove-le k [] = omega arith
length-remove-le k ((j, x) ∷ d) = ground (arith, length-remove-le k d)

pub length-remove_present :
    {V : Type 0} (k : String) (v : V) (d : Dict String V)
    → lookup k d ≡ some v
    → length (remove k d) + 1 ≤ length d
unfolding remove lookup
length-remove_present k v [] e = cc
length-remove_present k v ((j, x) ∷ d) e =
    ground (arith, length-remove_present k v d, length-remove-le k d)

module _ (starts : String → Bool) (setting : ℕ) where
  abbrev pub IsWithin : Fleet → Type 0
  IsWithin f = length f.streams ≤ max_streams setting

  pub ensure-IsWithin :
      (now : ℕ) (c : String) (on : Bool) (f : Fleet)
      → IsWithin f
      → IsWithin (ensure_live_pipeline starts setting now c on f).1
  unfolding ensure_live_pipeline ensure_check register
  ensure-IsWithin now c on f h = elim (Option-cases (lookup c f.streams)) [
    | inl e ↦ elim (Bool-cases (leb (max_streams setting) (length f.streams))) [
      | inl l ↦ ground (arith, h)
      | inr l ↦ elim (Bool-cases (starts c)) [
        | inl t ↦
            rw (e, l, t, ensure_live_pipeline, ensure_check, register)
              (ground (
                arith,
                length-insert_absent c
                    (record { always_on = on; connections = 0; last_access = now }) f.streams,
              ))
        | inr t ↦ ground (arith, h)
      ]
    ]
    | inr (s, e) ↦
        let touched : Stream = record s { always_on = s.always_on || on; last_access = now } in
        ground (arith, e, h, length-insert_present c touched s f.streams)
  ]

  pub cleanup_stream-IsWithin :
      (c : String) (f : Fleet) → IsWithin f → IsWithin (cleanup_stream c f).1
  unfolding cleanup_stream
  cleanup_stream-IsWithin c f h = ground (arith, h, length-remove-le c f.streams)

  cleanup_all-IsWithin : (cs : List String) (f : Fleet) → IsWithin f → IsWithin (cleanup_all cs f)
  unfolding cleanup_all
  cleanup_all-IsWithin [] f h = h
  cleanup_all-IsWithin (c ∷ cs) f h =
      cleanup_all-IsWithin cs (cleanup_stream c f).1 (cleanup_stream-IsWithin c f h)

  pub cleanup-IsWithin :
      (now : ℕ) (force : Bool) (f : Fleet)
      → IsWithin f
      → IsWithin (cleanup_stale_streams now force f)
  unfolding cleanup_stale_streams
  cleanup-IsWithin now force f h =
      let g : Fleet = record f { last_cleanup = now } in
      ground (arith, h, cleanup_all-IsWithin (stale_cameras now f.streams) g)

  pub start_all-IsWithin :
      (clock : String → ℕ) (cs : List String) (f : Fleet)
      → IsWithin f
      → IsWithin (start_all_live_pipelines starts setting clock cs f)
  unfolding start_all_live_pipelines
  start_all-IsWithin clock [] f h = h
  start_all-IsWithin clock (c ∷ cs) f h = elim (Bool-cases (is_allowed c f)) [
    | inl t ↦
        rw (t, start_all_live_pipelines)
          (start_all-IsWithin clock cs _ (ensure-IsWithin (clock c) c true f h))
    | inr t ↦ rw (t, start_all_live_pipelines) (start_all-IsWithin clock cs f h)
  ]

  pub stop_always_on-IsWithin :
      (c : String) (f : Fleet) → IsWithin f → IsWithin (stop_always_on c f)
  unfolding stop_always_on
  stop_always_on-IsWithin c f h = elim (Option-cases (lookup c f.streams)) [
    | inl e ↦ ground (arith, h)
    | inr (s, e) ↦
        let cleared : Stream = record s { always_on = false } in
        let g : Fleet = record f { streams = insert c cleared f.streams } in
        let same = length-insert_present c cleared s f.streams e in
        ground (arith, e, h, same, cleanup_stream-IsWithin c g)
  ]

  pub stop_cameras-IsWithin :
      (cs : List String) (f : Fleet) → IsWithin f → IsWithin (stop_cameras cs f)
  unfolding stop_cameras
  stop_cameras-IsWithin [] f h = h
  stop_cameras-IsWithin (c ∷ cs) f h =
      stop_cameras-IsWithin cs (stop_always_on c f) (stop_always_on-IsWithin c f h)

  supervise-IsWithin :
      (now : ℕ) (c : String) (f : Fleet) → IsWithin f → IsWithin (supervise starts setting now c f)
  unfolding supervise
  supervise-IsWithin now c f h = elim (Option-cases (lookup c f.streams)) [
    | inl e ↦ ground (arith, e, h, ensure-IsWithin now c true f)
    | inr (s, e) ↦
        let touched : Stream = record s { last_access = now } in
        ground (arith, e, h, length-insert_present c touched s f.streams)
  ]

  pub supervise_all-IsWithin :
      (clock : String → ℕ) (cs : List String) (f : Fleet)
      → IsWithin f
      → IsWithin (supervise_all starts setting clock cs f)
  unfolding supervise_all
  supervise_all-IsWithin clock [] f h = h
  supervise_all-IsWithin clock (c ∷ cs) f h =
      supervise_all-IsWithin clock cs _ (supervise-IsWithin (clock c) c f h)

  pub leave-IsWithin : (now : ℕ) (c : String) (f : Fleet) → IsWithin f → IsWithin (leave now c f)
  unfolding leave
  leave-IsWithin now c f h = elim (Option-cases (lookup c f.streams)) [
    | inl e ↦ ground (arith, e, h)
    | inr (s, e) ↦
        let touched : Stream = record s { connections = s.connections - 1; last_access = now } in
        ground (arith, e, h, length-insert_present c touched s f.streams)
  ]

  pub view-IsWithin :
      (now : ℕ) (env : Bool) (c : String) (f : Fleet)
      → IsWithin f
      → IsWithin (view starts setting now env c f).1
  unfolding view
  view-IsWithin now env c f h =
      let g = ensure_live_pipeline starts setting now c env (cleanup_stale_streams now false f) in
      let cleaned = cleanup-IsWithin now false f h in
      let kept : IsWithin g.1 =
        ensure-IsWithin now c env (cleanup_stale_streams now false f) cleaned in
      elim (Option-cases (lookup c g.1.streams)) [
        | inl e ↦ ground (arith, e, kept)
        | inr (s, e) ↦
            let seen : Stream = record s { connections = s.connections + 1; last_access = now } in
            ground (arith, e, kept, length-insert_present c seen s g.1.streams)
      ]
