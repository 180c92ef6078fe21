-- ===== src/Live/Switch.antt =====
-- The switches of the operators: the whole fleet, and one camera.
use traffic_lane_counter.Prelude.{
  ℕ, ◌<◌, ◌≡◌, ◌≢◌, ◌⊎◌, refl, ◌∙◌, sym, subst, str_dec, inl, inr, Bool, true, false, ◌||◌, none,
  some, List, [], ◌∷◌, String, string_eq, nat_eq, arith, if◌then◌else◌, ◌==◌, Option-cases,
}
use traffic_lane_counter.Prelude.Dict.{Dict, lookup, insert, lookup-insert}
use traffic_lane_counter.Live.{
  Stream, Fleet, has_camera, is_allowed, ensure_check, register, ensure_live_pipeline,
  cleanup_stream, stop_always_on, stop_cameras, cameras_of, stop_always_on_pipelines,
  set_fleet_always_on, supervise, supervise_all,
}
use traffic_lane_counter.Live.Idle.{lookup-cleanup_stream}

-- The stream of the camera, if there is one, is there for its viewers only.
abbrev IsViewed : String → Fleet → Type 0
IsViewed k f =
    (s : Stream) → lookup k f.streams ≡ some s → (s.always_on ≡ false) × (0 < s.connections)

lookup-stop_always_on :
    (c k : String) (f : Fleet)
    → lookup k (stop_always_on c f).streams ≡ (
        if c == k
        then elim (lookup k f.streams) [
          | none ↦ none
          | some s ↦ if s.connections == 0 then none else some (record s { always_on = false })
        ]
        else lookup k f.streams)
unfolding stop_always_on
lookup-stop_always_on c k f = elim (Option-cases (lookup c f.streams)) [
  | inl e ↦ ground (arith, e)
  | inr (s, e) ↦
      let cleared : Stream = record s { always_on = false } in
      let g : Fleet = record f { streams = insert c cleared f.streams } in
      ground (arith, e, lookup-cleanup_stream c k g, lookup-insert c k cleared f.streams)
]

stop_always_on-IsViewed :
    (c k : String) (f : Fleet) → IsViewed k f → IsViewed k (stop_always_on c f)
stop_always_on-IsViewed c k f h s e = elim (Option-cases (lookup k f.streams)) [
  | inl n ↦ ground (arith, e, n, lookup-stop_always_on c k f)
  | inr (t, n) ↦ ground (arith, e, n, h t n, lookup-stop_always_on c k f)
]

stops-IsViewed : (k : String) (f : Fleet) → IsViewed k (stop_always_on k f)
stops-IsViewed k f s e = elim (Option-cases (lookup k f.streams)) [
  | inl n ↦ ground (arith, e, n, lookup-stop_always_on k k f)
  | inr (t, n) ↦ ground (arith, e, n, lookup-stop_always_on k k f)
]

stop_cameras-IsViewed :
    (cs : List String) (k : String) (f : Fleet) → IsViewed k f → IsViewed k (stop_cameras cs f)
unfolding stop_cameras
stop_cameras-IsViewed [] k f h = h
stop_cameras-IsViewed (c ∷ cs) k f h =
    stop_cameras-IsViewed cs k (stop_always_on c f) (stop_always_on-IsViewed c k f h)

stops_all-IsViewed :
    (cs : List String) (k : String) (f : Fleet)
    → has_camera k cs ≡ true
    → IsViewed k (stop_cameras cs f)
unfolding stop_cameras has_camera
stops_all-IsViewed [] k f m = cc
stops_all-IsViewed (c ∷ cs) k f m = elim (str_dec c k) [
  | yes p ↦
      stop_cameras-IsViewed cs k (stop_always_on c f)
        (subst (λ x. IsViewed k (stop_always_on x f)) (sym p) (stops-IsViewed k f))
  | no n ↦ stops_all-IsViewed cs k (stop_always_on c f) (ground (arith, m, n))
]

has_camera-cameras_of :
    (k : String) (d : Dict String Stream)
    → (lookup k d ≡ none) ⊎ (has_camera k (cameras_of d) ≡ true)
unfolding lookup has_camera
has_camera-cameras_of k [] = inl refl
has_camera-cameras_of k ((c, s) ∷ d) = elim (str_dec c k) [
  | yes p ↦ inr (ground (arith, p))
  | no n ↦ elim (has_camera-cameras_of k d) [
    | inl e ↦ inl (ground (arith, e, n))
    | inr e ↦ inr (ground (arith, e, n))
  ]
]

-- The switches stay as they are.
abbrev pub SameSwitches : Fleet → Fleet → Type 0
SameSwitches f g =
    (g.runtime_enabled ≡ f.runtime_enabled) × (g.disabled_cameras ≡ f.disabled_cameras)

pub stop_always_on-switches : (c : String) (f : Fleet) → SameSwitches f (stop_always_on c f)
unfolding stop_always_on cleanup_stream
stop_always_on-switches c f = ground arith

stop_cameras-switches : (cs : List String) (f : Fleet) → SameSwitches f (stop_cameras cs f)
unfolding stop_cameras
stop_cameras-switches [] f = (refl, refl)
stop_cameras-switches (c ∷ cs) f =
    let (on, off) = stop_cameras-switches cs (stop_always_on c f) in
    let (on', off') = stop_always_on-switches c f in (on ∙ on', off ∙ off')

-- When the operator switches the fleet off, every stream that is still there has a viewer and is not always on,
-- and no camera may be started as always on.
pub set_fleet_always_on-off :
    (starts : String → Bool) (setting : ℕ) (clock : String → ℕ) (ids : List String) (f : Fleet)
    (k : String)
    → let g = set_fleet_always_on starts setting clock ids false f in
      (is_allowed k g ≡ false)
      × ((s : Stream) → lookup k g.streams ≡ some s → (s.always_on ≡ false) × (0 < s.connections))
unfolding set_fleet_always_on stop_always_on_pipelines is_allowed
set_fleet_always_on-off starts setting clock ids f k =
    let g : Fleet = record f { runtime_enabled = false } in
    let viewed : IsViewed k (stop_cameras (cameras_of f.streams) g) =
      elim (has_camera-cameras_of k f.streams) [
        | inl e ↦ stop_cameras-IsViewed (cameras_of f.streams) k g (λ s t. absurd (cc (e, t)))
        | inr m ↦ stops_all-IsViewed (cameras_of f.streams) k g m
      ] in
    (ground (arith, (stop_cameras-switches (cameras_of f.streams) g).0), viewed)

module _ (starts : String → Bool) (setting now : ℕ) (c : String) where
  lookup-ensure :
      (k : String) (on : Bool) (f : Fleet)
      → c ≢ k
      → lookup k (ensure_live_pipeline starts setting now c on f).1.streams ≡ lookup k f.streams
  unfolding ensure_live_pipeline ensure_check register
  lookup-ensure k on f n =
      let new : Stream = record { always_on = on; connections = 0; last_access = now } in
      elim (Option-cases (lookup c f.streams)) [
        | inl e ↦ ground (arith, e, n, lookup-insert c k new f.streams)
        | inr (s, e) ↦
            let touched : Stream = record s { always_on = s.always_on || on; last_access = now } in
            ground (arith, e, n, lookup-insert c k touched f.streams)
      ]

  pub ensure-switches :
      (on : Bool) (f : Fleet) → SameSwitches f (ensure_live_pipeline starts setting now c on f).1
  unfolding ensure_live_pipeline ensure_check register
  ensure-switches on f = ground arith

  supervise-switches : (f : Fleet) → SameSwitches f (supervise starts setting now c f)
  unfolding supervise
  supervise-switches f = ground (arith, ensure-switches true f)

  supervise-keeps_off :
      (k : String) (f : Fleet)
      → is_allowed k f ≡ false
      → lookup k f.streams ≡ none
      → lookup k (supervise starts setting now c f).streams ≡ none
  unfolding supervise
  supervise-keeps_off k f a e = elim (str_dec c k) [
    | yes p ↦
        let stays : is_allowed c f ≡ false = subst (λ x. is_allowed x f ≡ false) (sym p) a in
        rw (stays, supervise) e
    | no n ↦ elim (Option-cases (lookup c f.streams)) [
      | inl x ↦ ground (arith, e, x, n, lookup-ensure k true f)
      | inr (s, x) ↦
          let touched : Stream = record s { last_access = now } in
          ground (arith, e, x, n, lookup-insert c k touched f.streams)
    ]
  ]

-- A round of the supervisor starts no pipeline of a camera that may not be always on, because the fleet is
-- switched off or because the camera is.
pub supervise_all-keeps_off :
    (starts : String → Bool) (setting : ℕ) (clock : String → ℕ) (ids : List String) (k : String)
    (f : Fleet)
    → is_allowed k f ≡ false
    → lookup k f.streams ≡ none
    → lookup k (supervise_all starts setting clock ids f).streams ≡ none
unfolding supervise_all
supervise_all-keeps_off starts setting clock [] k f a e = e
supervise_all-keeps_off starts setting clock (c ∷ cs) k f a e =
    let g = supervise starts setting (clock c) c f in
    let (on, off) = supervise-switches starts setting (clock c) c f in
    let still : is_allowed k g ≡ false = unfold is_allowed in (rw (on, off) a) in
    supervise_all-keeps_off starts setting clock cs k g still
      (supervise-keeps_off starts setting (clock c) c k f a e)
