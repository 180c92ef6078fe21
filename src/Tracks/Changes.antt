-- ===== src/Tracks/Changes.antt =====
-- The lane changes that `LaneStateManager.update` returns.
use traffic_lane_counter.Prelude.{
  ℕ, ◌≤◌, ◌≡◌, refl, ◌∙◌, ap, ◌≢◌, inl, inr, false, Option, none, some, List, [], ◌∷◌, ◌++◌, String,
  nat_eq, string_eq, arith, All,
}
use mathlib.Core.Path.{ap₂}
use mathlib.Core.List.{append-nil, append_assoc}
use traffic_lane_counter.Prelude.Lists.{All-append}
use traffic_lane_counter.Vision.{Vision}
use traffic_lane_counter.Lanes.{LaneAssigner, assign_lane}
use traffic_lane_counter.Lanes.Order.{HasLane, IsRawLane, assign_lane-IsRawLane}
use traffic_lane_counter.Tracks.Timeout.{lookup-update_track}
use traffic_lane_counter.Tracks.Invariant.{
  IsValid, IsValid-mono, IsValidState, observe-IsValidState, state_of-IsValidState,
  update_track-IsValid,
}
use traffic_lane_counter.Tracks.{
  Settings, Track, TrackState, LaneChange, LaneStateManager, lane_change, seen, cleanup, observe,
  state_of, update_track, update_tracks, update,
}

-- No two detections of the frame have the same id.
abbrev pub DistinctIds : {F : Type 0} → List (Track F) → Type 0
DistinctIds [] = Unit {0}
DistinctIds (t ∷ ts) = (seen t.track_id ts ≡ false) × DistinctIds ts

-- The event between two lanes that are really different, and no other.
abbrev pub IsChange : ℕ → (String → Type 0) → LaneChange → Type 0
IsChange frame P e =
    (e.frame ≡ frame)
    × (e.previous_stable_lane ≢ e.current_stable_lane)
    × P e.previous_stable_lane
    × P e.current_stable_lane

lane_change-IsChange :
    (P : String → Type 0) (frame tid : ℕ) (cls : String) (before now : Option String)
    → ((l : String) → before ≡ some l → P l)
    → ((l : String) → now ≡ some l → P l)
    → All (IsChange frame P) (lane_change frame tid cls before now)
unfolding lane_change
lane_change-IsChange P frame tid cls none now p q = tt
lane_change-IsChange P frame tid cls (some x) none p q = tt
lane_change-IsChange P frame tid cls (some x) (some y) p q = ground (arith, p x refl, q y refl)

module _ (v : Vision) (frame : ℕ) (a : LaneAssigner v.F v.Polygon) where
  open v use {F}

  -- The state of a track after the frame, by its state before it alone.
  abbrev pub next_state : LaneStateManager F → Track F → TrackState F
  next_state m t = observe v m.settings frame t (assign_lane v a t.bbox) (state_of v m frame t)

  -- The lane change of one detection, by the state of its track before the frame alone.
  abbrev pub change_of : LaneStateManager F → Track F → List LaneChange
  change_of m t =
      lane_change frame t.track_id t.class_name (state_of v m frame t).stable_lane
        (next_state m t).stable_lane

  abbrev pub changes_of : LaneStateManager F → List (Track F) → List LaneChange
  changes_of m [] = []
  changes_of m (t ∷ ts) = change_of m t ++ changes_of m ts

  pub state_of-update_track :
      (m : LaneStateManager F) (t u : Track F)
      → t.track_id ≢ u.track_id
      → state_of v (update_track v frame a m t) frame u ≡ state_of v m frame u
  unfolding state_of
  state_of-update_track m t u n = ground (arith, lookup-update_track v frame a m t u.track_id)

  pub settings-update_track :
      (m : LaneStateManager F) (t : Track F) → (update_track v frame a m t).settings ≡ m.settings
  unfolding update_track
  settings-update_track m t = refl

  changes_of-update_track :
      (m : LaneStateManager F) (t : Track F) (us : List (Track F))
      → seen t.track_id us ≡ false
      → changes_of (update_track v frame a m t) us ≡ changes_of m us
  unfolding seen
  changes_of-update_track m t [] n = refl
  changes_of-update_track m t (u ∷ us) n = simp (
    state_of-update_track m t u (λ e. ground arith),
    settings-update_track m t,
    changes_of-update_track m t us (ground arith),
  )

  events-update_track :
      (m : LaneStateManager F) (t : Track F)
      → (update_track v frame a m t).current_frame_events ≡ m.current_frame_events ++ change_of m t
  unfolding update_track
  events-update_track m t = refl

  events-update_tracks :
      (m : LaneStateManager F) (ts : List (Track F))
      → DistinctIds ts
      → (update_tracks v frame a m ts).current_frame_events
        ≡ m.current_frame_events ++ changes_of m ts
  unfolding update_tracks
  events-update_tracks m [] d = rw append-nil
  events-update_tracks m (t ∷ ts) d =
      events-update_tracks (update_track v frame a m t) ts d.1
      ∙ ap₂ ◌++◌ (events-update_track m t) (changes_of-update_track m t ts d.0)
      ∙ append_assoc m.current_frame_events (change_of m t) (changes_of m ts)

  changes_of-start :
      (m : LaneStateManager F) (ts : List (Track F))
      → changes_of (record m { current_frame_events = [] }) ts ≡ changes_of m ts
  unfolding state_of
  changes_of-start m [] = refl
  changes_of-start m (t ∷ ts) = ap (◌++◌ (change_of m t)) (changes_of-start m ts)

  IsChanges : LaneStateManager F → Type 0
  IsChanges m = All (IsChange frame (λ l. HasLane l a.lanes)) m.current_frame_events

  stable-HasLane :
      (c : Settings) (tid : ℕ) (s : TrackState F)
      → IsValidState (IsRawLane a) c frame tid s
      → (l : String) → s.stable_lane ≡ some l
      → HasLane l a.lanes
  stable-HasLane c tid s i l e = elim (i.stable l e).0 [
    | inl u ↦ absurd ((i.stable l e).1 u)
    | inr h ↦ h
  ]

  update_tracks-IsChanges :
      (m : LaneStateManager F) (ts : List (Track F))
      → IsValid (IsRawLane a) frame m
      → IsChanges m
      → IsChanges (update_tracks v frame a m ts)
  unfolding update_tracks IsChanges
  update_tracks-IsChanges m [] i h = h
  update_tracks-IsChanges m (t ∷ ts) i h =
      let raw = assign_lane-IsRawLane v a in
      let old = state_of-IsValidState v (IsRawLane a) frame a raw m t i in
      let new =
        observe-IsValidState v (IsRawLane a) m.settings frame t (assign_lane v a t.bbox)
          (state_of v m frame t) i.positive (raw t.bbox) old in
      update_tracks-IsChanges (update_track v frame a m t) ts
        (update_track-IsValid v (IsRawLane a) frame a raw m t i)
        (rw (events-update_track m t) (
          All-append (IsChange frame (λ l. HasLane l a.lanes)) m.current_frame_events
            (change_of m t) h
            (lane_change-IsChange (λ l. HasLane l a.lanes) frame t.track_id t.class_name _ _
              (stable-HasLane m.settings t.track_id _ old)
              (stable-HasLane m.settings t.track_id _ new))))

pub events-update_changes :
    (v : Vision) (m : LaneStateManager v.F) (frame : ℕ) (tracks : List (Track v.F))
    (a : LaneAssigner v.F v.Polygon)
    → DistinctIds tracks
    → (update v m frame tracks a).current_frame_events ≡ changes_of v frame a m tracks
unfolding update cleanup
events-update_changes v m frame tracks a d =
    events-update_tracks v frame a (record m { current_frame_events = [] }) tracks d
    ∙ changes_of-start v frame a m tracks

-- Each event of an update of a valid manager is of this frame, and between two different lanes that
-- are both lanes of the assigner.
pub events-update-IsChange :
    (v : Vision) (m : LaneStateManager v.F) (last frame : ℕ) (tracks : List (Track v.F))
    (a : LaneAssigner v.F v.Polygon)
    → last ≤ frame
    → IsValid (IsRawLane a) last m
    → All (IsChange frame (λ l. HasLane l a.lanes)) (update v m frame tracks a).current_frame_events
unfolding update cleanup IsChanges
events-update-IsChange v m last frame tracks a h i =
    update_tracks-IsChanges v frame a _ tracks
      (IsValid-mono (IsRawLane a) last frame _ h
        (record { positive = i.positive; distinct = i.distinct; states = i.states }))
      tt
