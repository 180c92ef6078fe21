-- ===== src/Tracks/Timeout.antt =====
-- Which tracks an update keeps: lines 137 to 146 of lane_state_manager.py.
use traffic_lane_counter.Prelude.{
  ℕ, ◌+◌, ◌≡◌, refl, ◌⊎◌, inl, inr, String, Bool, true, false, Option, none, some, List, [], ◌∷◌,
  ◌==◌, nat_eq, if◌then◌else◌, ltb, arith, Bool-cases, Option-cases,
}
use traffic_lane_counter.Prelude.Dict.{
  Dict, lookup, remove, lookup-insert, lookup-remove, Absent, Distinct, insert-Distinct,
  remove-Distinct,
}
use traffic_lane_counter.Vision.{Vision}
use traffic_lane_counter.Lanes.{LaneAssigner, assign_lane}
use traffic_lane_counter.Tracks.{
  Settings, Track, TrackState, LaneStateManager, smooth, is_dead, remove_all, cleanup, observe,
  seen, state_of, update_track, update_tracks, update, dead_track_ids,
}

-- What is left of a state when its track is not seen in the frame.
abbrev pub unseen : {F : Type 0} → ℕ → ℕ → Option (TrackState F) → Option (TrackState F)
unseen frame timeout none = none
unseen frame timeout (some s) = if ltb (s.last_seen_frame + timeout) frame then none else some s

id_in : ℕ → List ℕ → Bool
id_in k [] = false
id_in k (x ∷ xs) = if x == k then true else id_in k xs

module _ {F : Type 0} where
  lookup-remove_all :
      (k : ℕ) (ids : List ℕ) (d : Dict ℕ (TrackState F))
      → lookup k (remove_all ids d) ≡ (if id_in k ids then none else lookup k d)
  unfolding remove_all id_in
  lookup-remove_all k [] d = refl
  lookup-remove_all k (x ∷ xs) d =
      ground (arith, lookup-remove_all k xs (remove x d), lookup-remove x k d)

  remove_all-Distinct :
      (ids : List ℕ) (d : Dict ℕ (TrackState F)) → Distinct d → Distinct (remove_all ids d)
  unfolding remove_all
  remove_all-Distinct [] d u = u
  remove_all-Distinct (x ∷ xs) d u = remove_all-Distinct xs (remove x d) (remove-Distinct x d u)

  module _ (frame timeout : ℕ) (tracks : List (Track F)) where
    id_in-Absent :
        (k : ℕ) (d : Dict ℕ (TrackState F))
        → Absent k d
        → id_in k (dead_track_ids frame timeout tracks d) ≡ false
    unfolding id_in dead_track_ids
    id_in-Absent k [] a = refl
    id_in-Absent k ((j, s) ∷ d) a = ground (arith, id_in-Absent k d a.1)

    dead-lookup :
        (k : ℕ) (d : Dict ℕ (TrackState F)) (s : TrackState F)
        → Distinct d
        → lookup k d ≡ some s
        → id_in k (dead_track_ids frame timeout tracks d) ≡ is_dead frame timeout tracks k s
    unfolding id_in dead_track_ids lookup
    dead-lookup k [] s u e = cc
    dead-lookup k ((j, t) ∷ d) s u e =
        ground (arith, λ (h : lookup k d ≡ some s). dead-lookup k d s u.1 h, id_in-Absent j d u.0)

  -- The clean-up, as a client that looks a track up sees it.
  pub lookup-cleanup :
      (frame : ℕ) (tracks : List (Track F)) (m : LaneStateManager F) (k : ℕ)
      → Distinct m.track_states
      → lookup k (cleanup frame tracks m).track_states ≡ (
          if seen k tracks
          then lookup k m.track_states
          else unseen frame m.active_track_timeout_frames (lookup k m.track_states))
  unfolding cleanup is_dead
  lookup-cleanup frame tracks m k u =
      let dead = dead_track_ids frame m.active_track_timeout_frames tracks m.track_states in
      let left = lookup-remove_all k dead m.track_states in
      elim (Option-cases (lookup k m.track_states)) [
        | inl e ↦ ground (arith, left)
        | inr (s, e) ↦ ground (
          arith,
          left,
          dead-lookup frame m.active_track_timeout_frames tracks k m.track_states s u e,
        )
      ]

module _ (v : Vision) (frame : ℕ) (a : LaneAssigner v.F v.Polygon) where
  open v use {F}

  pub lookup-update_track :
      (m : LaneStateManager F) (t : Track F) (k : ℕ)
      → lookup k (update_track v frame a m t).track_states ≡ (
          if t.track_id == k
          then some (observe v m.settings frame t (assign_lane v a t.bbox) (state_of v m frame t))
          else lookup k m.track_states)
  unfolding update_track
  lookup-update_track m t k = lookup-insert t.track_id k _ m.track_states

  update_track-Distinct :
      (m : LaneStateManager F) (t : Track F)
      → Distinct m.track_states
      → Distinct (update_track v frame a m t).track_states
  unfolding update_track
  update_track-Distinct m t u = insert-Distinct t.track_id _ m.track_states u

  pub update_tracks-Distinct :
      (m : LaneStateManager F) (ts : List (Track F))
      → Distinct m.track_states
      → Distinct (update_tracks v frame a m ts).track_states
  unfolding update_tracks
  update_tracks-Distinct m [] u = u
  update_tracks-Distinct m (t ∷ ts) u =
      update_tracks-Distinct (update_track v frame a m t) ts (update_track-Distinct m t u)

  pub settings-update_tracks :
      (m : LaneStateManager F) (ts : List (Track F))
      → (update_tracks v frame a m ts).settings ≡ m.settings
  unfolding update_tracks update_track
  settings-update_tracks m [] = refl
  settings-update_tracks m (t ∷ ts) = settings-update_tracks (update_track v frame a m t) ts

  pub lookup-update_tracks_unseen :
      (m : LaneStateManager F) (ts : List (Track F)) (k : ℕ)
      → seen k ts ≡ false
      → lookup k (update_tracks v frame a m ts).track_states ≡ lookup k m.track_states
  unfolding update_tracks seen
  lookup-update_tracks_unseen m [] k h = refl
  lookup-update_tracks_unseen m (t ∷ ts) k h = ground (
    arith,
    lookup-update_tracks_unseen (update_track v frame a m t) ts k,
    lookup-update_track m t k,
  )

  last_seen_frame-observe :
      (c : Settings) (t : Track F) (raw : String) (s : TrackState F)
      → (observe v c frame t raw s).last_seen_frame ≡ frame
  unfolding observe smooth
  last_seen_frame-observe c t raw s = ground arith

  -- The track has a state, last seen in this frame.
  abbrev IsCurrent : Option (TrackState F) → Type 0
  IsCurrent o = (s : TrackState F) × (o ≡ some s) × (s.last_seen_frame ≡ frame)

  IsCurrent-if :
      (b : Bool) (x y : Option (TrackState F))
      → IsCurrent x
      → (b ≡ false → IsCurrent y)
      → IsCurrent (if b then x else y)
  IsCurrent-if true x y h k = h
  IsCurrent-if false x y h k = k refl

  update_track-IsCurrent :
      (m : LaneStateManager F) (t : Track F) (k : ℕ)
      → ((t.track_id == k) ≡ false → IsCurrent (lookup k m.track_states))
      → IsCurrent (lookup k (update_track v frame a m t).track_states)
  update_track-IsCurrent m t k h =
      rw (lookup-update_track m t k)
        (IsCurrent-if (t.track_id == k) _ _ (_, refl, last_seen_frame-observe m.settings t _ _) h)

  update_tracks_keeps :
      (m : LaneStateManager F) (ts : List (Track F)) (k : ℕ)
      → IsCurrent (lookup k m.track_states)
      → IsCurrent (lookup k (update_tracks v frame a m ts).track_states)
  unfolding update_tracks
  update_tracks_keeps m [] k h = h
  update_tracks_keeps m (t ∷ ts) k h =
      update_tracks_keeps (update_track v frame a m t) ts k (update_track-IsCurrent m t k (λ _. h))

  update_tracks-seen :
      (m : LaneStateManager F) (ts : List (Track F)) (k : ℕ)
      → seen k ts ≡ true
      → IsCurrent (lookup k (update_tracks v frame a m ts).track_states)
  unfolding update_tracks seen
  update_tracks-seen m [] k h = absurd (cc h)
  update_tracks-seen m (t ∷ ts) k h = elim (Bool-cases (t.track_id == k)) [
    | inl e ↦
        update_tracks_keeps (update_track v frame a m t) ts k
          (update_track-IsCurrent m t k (λ n. absurd (cc (e, n))))
    | inr n ↦ update_tracks-seen (update_track v frame a m t) ts k (ground arith)
  ]

-- After an update a track that the frame shows has a state, last seen in this frame. The state of any
-- other track is untouched, or gone if the track was last seen more than the timeout ago.
pub lookup-update :
    (v : Vision) (m : LaneStateManager v.F) (frame : ℕ) (tracks : List (Track v.F))
    (a : LaneAssigner v.F v.Polygon) (k : ℕ)
    → Distinct m.track_states
    → (seen k tracks ≡ true
        → (s : TrackState v.F) × (lookup k (update v m frame tracks a).track_states ≡ some s)
          × (s.last_seen_frame ≡ frame))
      × (seen k tracks ≡ false
          → lookup k (update v m frame tracks a).track_states
            ≡ unseen frame m.active_track_timeout_frames (lookup k m.track_states))
unfolding update
lookup-update v m frame tracks a k u =
    let m0 : LaneStateManager v.F = record m { current_frame_events = [] } in
    let m1 = update_tracks v frame a m0 tracks in
    let view = lookup-cleanup frame tracks m1 k (update_tracks-Distinct v frame a m0 tracks u) in
    (
      λ h. rw (view, h) (update_tracks-seen v frame a m0 tracks k h),
      λ h. rw (
        view,
        h,
        lookup-update_tracks_unseen v frame a m0 tracks k h,
        settings-update_tracks v frame a m0 tracks,
      ),
    )

pub update-Distinct :
    (v : Vision) (m : LaneStateManager v.F) (frame : ℕ) (tracks : List (Track v.F))
    (a : LaneAssigner v.F v.Polygon)
    → Distinct m.track_states
    → Distinct (update v m frame tracks a).track_states
unfolding update cleanup
update-Distinct v m frame tracks a u =
    remove_all-Distinct _ _
      (update_tracks-Distinct v frame a (record m { current_frame_events = [] }) tracks u)

-- After an update every track is in one of two cases. Either the frame shows it: then it has a state,
-- last seen in this frame. Or the frame does not: then its state is the one from before, or gone if
-- the track was last seen more than the timeout ago.
pub lookup-update_cases :
    (v : Vision) (m : LaneStateManager v.F) (frame : ℕ) (tracks : List (Track v.F))
    (a : LaneAssigner v.F v.Polygon) (k : ℕ)
    → Distinct m.track_states
    → ((seen k tracks ≡ true)
        × (s : TrackState v.F) × (lookup k (update v m frame tracks a).track_states ≡ some s)
        × (s.last_seen_frame ≡ frame))
      ⊎ ((seen k tracks ≡ false)
          × (lookup k (update v m frame tracks a).track_states
              ≡ unseen frame m.active_track_timeout_frames (lookup k m.track_states)))
lookup-update_cases v m frame tracks a k u =
    let (shown, hidden) = lookup-update v m frame tracks a k u in
    elim (Bool-cases (seen k tracks)) [
      | inl e ↦ let (s, found, now) = shown e in inl (e, s, found, now)
      | inr e ↦ inr (e, hidden e)
    ]
