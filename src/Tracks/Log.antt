-- ===== src/Tracks/Log.antt =====
-- The events of `LaneStateManager.update` against the stable lanes before and after it.
use traffic_lane_counter.Prelude.{
  ℕ, ◌≡◌, ◌≢◌, refl, ◌∙◌, ap, sym, subst, inl, inr, true, false, Option, none, some, List, [], ◌∷◌,
  ◌++◌, String, nat_eq, string_eq, ◌==◌, arith, All, Bool-cases, Option-cases,
}
use traffic_lane_counter.Prelude.Dict.{Dict, lookup, Distinct}
use traffic_lane_counter.Vision.{Vision}
use traffic_lane_counter.Lanes.{LaneAssigner}
use traffic_lane_counter.Tracks.Timeout.{
  lookup-update_track, lookup-cleanup, lookup-update_tracks_unseen, update_tracks-Distinct,
}
use traffic_lane_counter.Tracks.Changes.{
  DistinctIds, next_state, changes_of, state_of-update_track, settings-update_track,
  events-update_changes,
}
use traffic_lane_counter.Tracks.{
  Track, TrackState, LaneChange, LaneStateManager, lane_change, seen, state_of, new_track,
  update_track, update_tracks, update,
}

-- The stable lane of a track; a track that is not known has none.
abbrev pub stable_of : {F : Type 0} → Option (TrackState F) → Option String
stable_of none = none
stable_of (some s) = s.stable_lane

abbrev pub stable_in : {F : Type 0} → Dict ℕ (TrackState F) → ℕ → Option String
stable_in states tid = stable_of (lookup tid states)

-- The log of a frame, by the stable lane of each id before and after it: for the tracks in their order, one entry for
-- each that had a lane and has a different one, and no entry for any other.
pub data IsLog {F : Type 0} (frame : ℕ) (before after : ℕ → Option String)
    : List (Track F) → List LaneChange → Type 0 where
  no_tracks : IsLog frame before after [] []
  silent :
      {t : Track F} {ts : List (Track F)} {es : List LaneChange}
      → ((x y : String) → before t.track_id ≡ some x → after t.track_id ≡ some y → x ≡ y)
      → IsLog frame before after ts es
      → IsLog frame before after (t ∷ ts) es
  reports :
      {t : Track F} {ts : List (Track F)} {es : List LaneChange} (x y : String)
      → before t.track_id ≡ some x
      → after t.track_id ≡ some y
      → x ≢ y
      → IsLog frame before after ts es
      → IsLog frame before after (t ∷ ts) (
          record {
            frame = frame;
            track_id = t.track_id;
            class_name = t.class_name;
            previous_stable_lane = x;
            current_stable_lane = y;
          }
          ∷ es)

lane_change-IsLog :
    {F : Type 0} (frame : ℕ) (before after : ℕ → Option String) (t : Track F) (ts : List (Track F))
    (es : List LaneChange) (b n : Option String)
    → before t.track_id ≡ b
    → after t.track_id ≡ n
    → IsLog frame before after ts es
    → IsLog frame before after (t ∷ ts) (lane_change frame t.track_id t.class_name b n ++ es)
unfolding lane_change
lane_change-IsLog frame before after t ts es none n p q log = silent (λ x y h k. cc) log
lane_change-IsLog frame before after t ts es (some x) none p q log = silent (λ x y h k. cc) log
lane_change-IsLog frame before after t ts es (some x) (some y) p q log =
    elim (Bool-cases (x == y)) [
      | inl same ↦ rw same (silent (λ a b h k. ground (arith, same, h, k, p, q)) log)
      | inr differ ↦ rw differ (reports x y p q (λ e. ground (arith, differ, e)) log)
    ]

all_seen :
    {F : Type 0} (full sub : List (Track F))
    → ((k : ℕ) → seen k sub ≡ true → seen k full ≡ true)
    → All (λ t. seen t.track_id full ≡ true) sub
unfolding seen
all_seen full [] h = tt
all_seen full (t ∷ ts) h =
    (h t.track_id (ground arith), all_seen full ts (λ k e. h k (ground (arith, e))))

module _ (v : Vision) (frame : ℕ) (a : LaneAssigner v.F v.Polygon) where
  open v use {F}

  state_of-stable :
      (m : LaneStateManager F) (t : Track F)
      → stable_in m.track_states t.track_id ≡ (state_of v m frame t).stable_lane
  unfolding state_of new_track
  state_of-stable m t = elim (Option-cases (lookup t.track_id m.track_states)) [
    | inl e ↦ ap stable_of e ∙ rw e refl
    | inr (s, e) ↦ ap stable_of e ∙ rw e refl
  ]

  changes_of-IsLog :
      (m : LaneStateManager F) (after : ℕ → Option String) (ts : List (Track F))
      → All (λ t. after t.track_id ≡ (next_state v frame a m t).stable_lane) ts
      → IsLog frame (stable_in m.track_states) after ts (changes_of v frame a m ts)
  changes_of-IsLog m after [] h = no_tracks
  changes_of-IsLog m after (t ∷ ts) (now, h) =
      lane_change-IsLog frame (stable_in m.track_states) after t ts (changes_of v frame a m ts) _ _
        (state_of-stable m t) now (changes_of-IsLog m after ts h)

  next_state-update_track :
      (m : LaneStateManager F) (t u : Track F)
      → t.track_id ≢ u.track_id
      → next_state v frame a (update_track v frame a m t) u ≡ next_state v frame a m u
  next_state-update_track m t u n =
      simp (settings-update_track v frame a m t, state_of-update_track v frame a m t u n)

  -- In the manager behind the loop each track of the frame has the state that its own observation made.
  Follows : LaneStateManager F → LaneStateManager F → Track F → Type 0
  Follows m n t = lookup t.track_id n.track_states ≡ some (next_state v frame a m t)

  Follows-tail :
      (m n : LaneStateManager F) (t : Track F) (us : List (Track F))
      → seen t.track_id us ≡ false
      → All (Follows (update_track v frame a m t) n) us
      → All (Follows m n) us
  unfolding seen Follows
  Follows-tail m n t [] d h = tt
  Follows-tail m n t (u ∷ us) d (e, h) = (
    e ∙ ap some (next_state-update_track m t u (λ same. ground arith)),
    Follows-tail m n t us (ground arith) h,
  )

  update_tracks-Follows :
      (m : LaneStateManager F) (ts : List (Track F))
      → DistinctIds ts
      → All (Follows m (update_tracks v frame a m ts)) ts
  unfolding update_tracks Follows
  update_tracks-Follows m [] d = tt
  update_tracks-Follows m (t ∷ ts) d = (
    lookup-update_tracks_unseen v frame a (update_track v frame a m t) ts t.track_id d.0
        ∙ ground (arith, lookup-update_track v frame a m t t.track_id),
    Follows-tail m (update_tracks v frame a m (t ∷ ts)) t ts d.0
        (update_tracks-Follows (update_track v frame a m t) ts d.1),
  )

  stays_stable :
      (m n u : LaneStateManager F) (ts full : List (Track F))
      → ((k : ℕ) → seen k full ≡ true → lookup k u.track_states ≡ lookup k n.track_states)
      → All (λ t. seen t.track_id full ≡ true) ts
      → All (Follows m n) ts
      → All (λ t. stable_in u.track_states t.track_id ≡ (next_state v frame a m t).stable_lane) ts
  unfolding Follows
  stays_stable m n u [] full same all h = tt
  stays_stable m n u (t ∷ ts) full same (s, all) (e, h) =
      (ap stable_of (same t.track_id s ∙ e), stays_stable m n u ts full same all h)

-- If the ids of the states and those of the detections are distinct, the events of an update are the log of the stable
-- lanes before and after it: for the detections in their order, one event, with the frame, the id and the class, for
-- each whose track had a stable lane and now has a different one, and no event for any other.
pub events-update :
    (v : Vision) (m : LaneStateManager v.F) (frame : ℕ) (tracks : List (Track v.F))
    (a : LaneAssigner v.F v.Polygon)
    → Distinct m.track_states
    → DistinctIds tracks
    → let n = update v m frame tracks a in
      IsLog frame
        (stable_in m.track_states)
        (stable_in n.track_states)
        tracks
        n.current_frame_events
unfolding update state_of
events-update v m frame tracks a u d =
    let m0 : LaneStateManager v.F = record m { current_frame_events = [] } in
    let n = update_tracks v frame a m0 tracks in
    let whole = update v m frame tracks a in
    let kept = λ (k : ℕ) (s : seen k tracks ≡ true).
      let view = lookup-cleanup frame tracks n k (update_tracks-Distinct v frame a m0 tracks u) in
      rw s at view in
    let now =
      stays_stable v frame a m0 n whole tracks tracks kept (all_seen tracks tracks (λ k s. s))
        (update_tracks-Follows v frame a m0 tracks d) in
    subst (IsLog frame (stable_in m.track_states) (stable_in whole.track_states) tracks)
      (sym (events-update_changes v m frame tracks a d))
      (changes_of-IsLog v frame a m (stable_in whole.track_states) tracks now)
