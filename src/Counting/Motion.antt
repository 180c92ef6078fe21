-- ===== src/Counting/Motion.antt =====
-- The motion histories of `LineCounter`: `_anchors`.
use traffic_lane_counter.Prelude.{
  ℕ, ◌+◌, ◌-◌, ◌≤◌, ◌≡◌, ◌≢◌, inl, inr, Bool, true, false, Option, none, some, List, [], ◌∷◌, ◌++◌,
  String, ◌==◌, nat_eq, if◌then◌else◌, ltb, arith, All, Bool-cases, Option-cases, get_or, length,
}
use traffic_lane_counter.Prelude.Lists.{length-drop}
use traffic_lane_counter.Prelude.Dict.{
  Dict, lookup, Distinct, lookup-insert, All-insert, All-remove, lookup-All,
}
use traffic_lane_counter.Vision.{Vision}
use traffic_lane_counter.Lanes.{LaneAssigner}
use traffic_lane_counter.Tracks
use traffic_lane_counter.Tracks.{TrackState, LaneStateManager, Track, seen}
use traffic_lane_counter.Tracks.Timeout.{lookup-update, unseen, update-Distinct}
use traffic_lane_counter.Counting.{
  LineCounter, push_anchor, anchor, effective_lane, countable, follow, forget, count_once,
  count_track, count_tracks, update,
}

module _ (v : Vision) where
  open v use {F}

  length-push_anchor :
      (limit : ℕ) (hist : List (F × F)) (p : F × F) → length (push_anchor v limit hist p) ≤ limit
  unfolding push_anchor
  length-push_anchor limit hist p =
      ground (arith, length-drop (length (hist ++ p ∷ []) - limit) (hist ++ p ∷ []))

  -- Every motion history is within the limit.
  pub record IsBounded (c : LineCounter F) : Type 0 where
    pub histories : All (λ e. length e.1 ≤ c.motion_history) c.anchors

  follow-IsBounded :
      (tid : ℕ) (s : TrackState F) (c : LineCounter F) → IsBounded c → IsBounded (follow v tid s c)
  unfolding follow
  follow-IsBounded tid s c h = elim (Option-cases (anchor v s.bbox)) [
    | inl e ↦ rw (e, follow) h
    | inr (p, e) ↦
        rw (e, follow)
          (record {
            histories =
                All-insert (λ x. length x.1 ≤ c.motion_history) tid _ c.anchors
                  (λ j _. length-push_anchor c.motion_history (get_or (lookup tid c.anchors) []) p)
                  h.histories;
          })
  ]

  forget-IsBounded :
      (f tid : ℕ) (s : TrackState F) (c : LineCounter F)
      → IsBounded c
      → IsBounded (forget v f tid s c)
  unfolding forget
  forget-IsBounded f tid s c h = elim (Bool-cases (ltb (s.last_seen_frame + 60) f)) [
    | inl e ↦
        rw (e, forget)
          (record {
            histories = All-remove (λ x. length x.1 ≤ c.motion_history) tid c.anchors h.histories;
          })
    | inr e ↦ rw (e, forget) h
  ]

  anchors-count_once :
      (f tid : ℕ) (s : TrackState F) (l : String) (c : LineCounter F)
      → ((count_once v f tid s l c).0.anchors ≡ c.anchors)
        × ((count_once v f tid s l c).0.motion_history ≡ c.motion_history)
  unfolding count_once
  anchors-count_once f tid s l c = ground arith

  -- The motion histories behind a track are those of `follow` or of `forget`.
  anchors-count_track :
      (f tid : ℕ) (s : TrackState F) (c : LineCounter F)
      → let c' = (if s.last_seen_frame == f then follow v tid s c else forget v f tid s c) in
        ((count_track v f (tid, s) c).0.anchors ≡ c'.anchors)
        × ((count_track v f (tid, s) c).0.motion_history ≡ c'.motion_history)
  unfolding count_track
  anchors-count_track f tid s c =
      let c' = follow v tid s c in
      elim (Option-cases (countable (effective_lane c' s))) [
        | inl e ↦ ground arith
        | inr (l, e) ↦ ground (arith, anchors-count_once f tid s l c')
      ]

  IsBounded-if :
      (b : Bool) (c d : LineCounter F) → IsBounded c → IsBounded d → IsBounded (if b then c else d)
  IsBounded-if true c d h k = h
  IsBounded-if false c d h k = k

  IsBounded-same :
      (c d : LineCounter F)
      → d.anchors ≡ c.anchors
      → d.motion_history ≡ c.motion_history
      → IsBounded c
      → IsBounded d
  IsBounded-same c d p q h = record { histories = rw (p, q) h.histories }

  count_tracks-IsBounded :
      (f : ℕ) (states : Dict ℕ (TrackState F)) (c : LineCounter F)
      → IsBounded c
      → IsBounded (count_tracks v f states c).0
  unfolding count_tracks
  count_tracks-IsBounded f [] c h = h
  count_tracks-IsBounded f ((tid, s) ∷ states) c h =
      let same = anchors-count_track f tid s c in
      count_tracks-IsBounded f states (count_track v f (tid, s) c).0 (
        IsBounded-same _ _ same.0 same.1 (
          IsBounded-if (s.last_seen_frame == f) _ _ (follow-IsBounded tid s c h)
            (forget-IsBounded f tid s c h)))

  -- An update keeps every motion history within its limit.
  pub update-IsBounded :
      (c : LineCounter F) (frame : ℕ) (m : LaneStateManager F)
      → IsBounded c
      → IsBounded (update v c frame m).0
  unfolding update
  update-IsBounded c frame m h = count_tracks-IsBounded frame m.track_states c h

  -- A state that the test for stale histories lets pass.
  abbrev IsRecent : ℕ → ℕ × TrackState F → Type 0
  IsRecent f e = f ≤ e.1.last_seen_frame + 60

  follow_keeps :
      (tid k : ℕ) (s : TrackState F) (c : LineCounter F)
      → lookup k c.anchors ≢ none
      → lookup k (follow v tid s c).anchors ≢ none
  unfolding follow
  follow_keeps tid k s c h = elim (Option-cases (anchor v s.bbox)) [
    | inl e ↦ rw (e, follow) h
    | inr (p, e) ↦
        rw (e, follow)
          (let l =
              lookup-insert tid k
                (push_anchor v c.motion_history (get_or (lookup tid c.anchors) []) p) c.anchors in
            λ q. ground (arith, l, h))
  ]

  count_track_keeps :
      (f tid k : ℕ) (s : TrackState F) (c : LineCounter F)
      → IsRecent f (tid, s)
      → lookup k c.anchors ≢ none
      → lookup k (count_track v f (tid, s) c).0.anchors ≢ none
  unfolding forget
  count_track_keeps f tid k s c r h =
      ground (arith, anchors-count_track f tid s c, follow_keeps tid k s c h)

  count_tracks_keeps :
      (f k : ℕ) (states : Dict ℕ (TrackState F)) (c : LineCounter F)
      → All (IsRecent f) states
      → lookup k c.anchors ≢ none
      → lookup k (count_tracks v f states c).0.anchors ≢ none
  unfolding count_tracks
  count_tracks_keeps f k [] c r h = h
  count_tracks_keeps f k ((tid, s) ∷ states) c r h =
      count_tracks_keeps f k states (count_track v f (tid, s) c).0 r.1
        (count_track_keeps f tid k s c r.0 h)

unseen-recent :
    {F : Type 0} (frame timeout : ℕ) (o : Option (TrackState F)) (s : TrackState F)
    → timeout ≤ 60
    → unseen frame timeout o ≡ some s
    → frame ≤ s.last_seen_frame + 60
unseen-recent frame timeout none s h e = absurd (cc e)
unseen-recent frame timeout (some t) s h e = ground arith

update-IsRecent :
    (v : Vision) (m : LaneStateManager v.F) (frame : ℕ) (tracks : List (Track v.F))
    (a : LaneAssigner v.F v.Polygon)
    → Distinct m.track_states
    → m.active_track_timeout_frames ≤ 60
    → All (IsRecent v frame) (Tracks.update v m frame tracks a).track_states
update-IsRecent v m frame tracks a u h =
    lookup-All (IsRecent v frame) (Tracks.update v m frame tracks a).track_states
      (update-Distinct v m frame tracks a u)
      λ k s q.
        let (shown, hidden) = lookup-update v m frame tracks a k u in
        elim (Bool-cases (seen k tracks)) [
          | inl e ↦ let (t, found, now) = shown e in ground arith
          | inr e ↦
              unseen-recent frame m.active_track_timeout_frames (lookup k m.track_states) s h
                (ground (arith, hidden e))
        ]

-- With a track timeout of at most 60 frames (the default is 10), the counter never drops a motion
-- history: the manager has removed the state of a dead track before it is 60 frames old.
pub anchors_never_dropped :
    (v : Vision) (m : LaneStateManager v.F) (frame : ℕ) (tracks : List (Track v.F))
    (a : LaneAssigner v.F v.Polygon) (c : LineCounter v.F) (k : ℕ)
    → Distinct m.track_states
    → m.active_track_timeout_frames ≤ 60
    → lookup k c.anchors ≢ none
    → lookup k (update v c frame (Tracks.update v m frame tracks a)).0.anchors ≢ none
unfolding update
anchors_never_dropped v m frame tracks a c k u h =
    count_tracks_keeps v frame k (Tracks.update v m frame tracks a).track_states c
      (update-IsRecent v m frame tracks a u h)
