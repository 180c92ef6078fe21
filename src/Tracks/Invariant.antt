-- ===== src/Tracks/Invariant.antt =====
-- What every track state satisfies from frame to frame.
use native.Mathlib.Nat.{le_trans}
use traffic_lane_counter.Prelude.{
  ℕ, ◌≤◌, ◌<◌, ◌≡◌, refl, ◌≢◌, inl, inr, some, List, [], ◌∷◌, String, ◌==◌, string_eq, nat_eq,
  arith, length, All, ◌∙◌, Option-cases,
}
use traffic_lane_counter.Prelude.Lists.{All-mono}
use traffic_lane_counter.Prelude.Dict.{
  Dict, lookup, remove, Distinct, insert-Distinct, remove-Distinct, All-insert, All-remove,
  All-lookup,
}
use traffic_lane_counter.Vision.{Vision, Box}
use traffic_lane_counter.Lanes.{LaneAssigner, assign_lane}
use traffic_lane_counter.Lanes.Order.{IsRawLane, assign_lane-IsRawLane}
use traffic_lane_counter.Tracks.Stable.{
  All-push_history, settle-IsStable, IsStable-if, IsStable-none, length-push_history, smooth_fields,
  stable_lane-smooth,
}
use traffic_lane_counter.Tracks.{
  Settings, Track, TrackState, LaneStateManager, smooth, remove_all, cleanup, new_track, observe,
  state_of, update_track, update_tracks, update, dead_track_ids,
}

module _ {F : Type 0} (P : String → Type 0) where
  pub record IsValidState (c : Settings) (frame tid : ℕ) (s : TrackState F) : Type 0 where
    pub key : s.track_id ≡ tid
    pub window : length s.raw_history ≤ c.history_window
    pub order : s.first_seen_frame ≤ s.last_seen_frame
    pub past : s.last_seen_frame ≤ frame
    pub lanes : All P s.raw_history
    pub stable : (l : String) → s.stable_lane ≡ some l → P l × (l ≢ "unknown")

  IsValidState-mono :
      (c : Settings) (f g tid : ℕ) (s : TrackState F)
      → f ≤ g
      → IsValidState c f tid s
      → IsValidState c g tid s
  IsValidState-mono c f g tid s h i = record {
    key = i.key;
    window = i.window;
    order = i.order;
    past = le_trans i.past h;
    lanes = i.lanes;
    stable = i.stable;
  }

  smooth-IsValidState :
      (c : Settings) (frame tid : ℕ) (raw : String) (s : TrackState F)
      → 0 < c.min_consecutive_for_change
      → IsValidState c frame tid s
      → IsValidState c frame tid (smooth c raw s)
  smooth-IsValidState c frame tid raw s p i =
      let (same_id, same_first, same_last, same_history) = smooth_fields c raw s in
      record {
        key = same_id ∙ i.key;
        window = rw same_history i.window;
        order = rw (same_first, same_last) i.order;
        past = rw same_last i.past;
        lanes = rw same_history i.lanes;
        stable = rw (stable_lane-smooth c raw s) (
            IsStable-if P (raw == "unknown") _ _ (IsStable-if P _ _ _ (IsStable-none P) i.stable) (
              settle-IsStable P c.min_consecutive_for_change s.raw_history s.stable_lane p i.lanes
                i.stable));
      }

module _ (v : Vision) (P : String → Type 0) where
  open v use {F, Polygon, float_zero}

  new_track-IsValidState :
      (c : Settings) (frame tid : ℕ) (cls : String)
      → IsValidState P c frame tid (new_track v tid cls frame)
  unfolding new_track
  new_track-IsValidState c frame tid cls = record {
    key = refl;
    window = omega arith;
    order = omega arith;
    past = omega arith;
    lanes = tt;
    stable = IsStable-none P;
  }

  pub observe-IsValidState :
      (c : Settings) (frame : ℕ) (t : Track F) (raw : String) (s : TrackState F) {tid : ℕ}
      → 0 < c.min_consecutive_for_change
      → P raw
      → IsValidState P c frame tid s
      → IsValidState P c frame tid (observe v c frame t raw s)
  unfolding observe
  observe-IsValidState c frame t raw s {tid} p r i =
      smooth-IsValidState P c frame tid raw _ p (record {
        key = i.key;
        window = length-push_history c.history_window s.raw_history raw i.window;
        order = le_trans i.order i.past;
        past = omega arith;
        lanes = All-push_history P c.history_window s.raw_history raw i.lanes r;
        stable = i.stable;
      })

-- The states are those of distinct tracks, and each is valid at this frame.
pub record IsValid {F : Type 0} (P : String → Type 0) (frame : ℕ) (m : LaneStateManager F)
    : Type 0 where
  pub positive : 0 < m.min_consecutive_for_change
  pub distinct : Distinct m.track_states
  pub states : All (λ e. IsValidState P m.settings frame e.0 e.1) m.track_states

pub IsValid-mono :
    {F : Type 0} (P : String → Type 0) (f g : ℕ) (m : LaneStateManager F)
    → f ≤ g
    → IsValid P f m
    → IsValid P g m
IsValid-mono P f g m h i = record {
  positive = i.positive;
  distinct = i.distinct;
  states = All-mono _ (λ e. IsValidState-mono P m.settings f g e.0 e.1 h) m.track_states i.states;
}

remove_all-IsValid :
    {F : Type 0} (Q : ℕ × TrackState F → Type 0) (ids : List ℕ) (d : Dict ℕ (TrackState F))
    → Distinct d × All Q d
    → Distinct (remove_all ids d) × All Q (remove_all ids d)
unfolding remove_all
remove_all-IsValid Q [] d i = i
remove_all-IsValid Q (tid ∷ ids) d i =
    remove_all-IsValid Q ids (remove tid d) (remove-Distinct tid d i.0, All-remove Q tid d i.1)

cleanup-IsValid :
    {F : Type 0} (P : String → Type 0) (frame : ℕ) (tracks : List (Track F))
    (m : LaneStateManager F)
    → IsValid P frame m
    → IsValid P frame (cleanup frame tracks m)
unfolding cleanup
cleanup-IsValid P frame tracks m i =
    let r =
      remove_all-IsValid (λ e. IsValidState P m.settings frame e.0 e.1)
        (dead_track_ids frame m.active_track_timeout_frames tracks m.track_states) m.track_states
        (i.distinct, i.states) in
    record { positive = i.positive; distinct = r.0; states = r.1 }

module _ (v : Vision) (P : String → Type 0) (frame : ℕ) (a : LaneAssigner v.F v.Polygon)
    (raw : (b : Box v.F) → P (assign_lane v a b)) where
  open v use {F}

  pub state_of-IsValidState :
      (m : LaneStateManager F) (t : Track F)
      → IsValid P frame m
      → IsValidState P m.settings frame t.track_id (state_of v m frame t)
  unfolding state_of
  state_of-IsValidState m t i = elim (Option-cases (lookup t.track_id m.track_states)) [
    | inl e ↦ rw e (new_track-IsValidState v P m.settings frame t.track_id t.class_name)
    | inr (s, e) ↦ rw e (
        All-lookup (λ x. IsValidState P m.settings frame x.0 x.1) t.track_id m.track_states i.states
          e)
  ]

  pub update_track-IsValid :
      (m : LaneStateManager F) (t : Track F)
      → IsValid P frame m
      → IsValid P frame (update_track v frame a m t)
  unfolding update_track
  update_track-IsValid m t i =
      let ok =
        observe-IsValidState v P m.settings frame t (assign_lane v a t.bbox) (state_of v m frame t)
          i.positive (raw t.bbox) (state_of-IsValidState m t i) in
      record {
        positive = i.positive;
        distinct = insert-Distinct t.track_id _ m.track_states i.distinct;
        states =
            All-insert (λ x. IsValidState P m.settings frame x.0 x.1) t.track_id _ m.track_states
              (λ j e. rw e ok) i.states;
      }

  update_tracks-IsValid :
      (m : LaneStateManager F) (ts : List (Track F))
      → IsValid P frame m
      → IsValid P frame (update_tracks v frame a m ts)
  unfolding update_tracks
  update_tracks-IsValid m [] i = i
  update_tracks-IsValid m (t ∷ ts) i =
      update_tracks-IsValid (update_track v frame a m t) ts (update_track-IsValid m t i)

-- An update at a frame that is not before the last one keeps the manager valid: one state for each
-- track id, under its own id, seen between its first frame and this one, with a history within the
-- window whose lanes the assigner gave out, and a stable lane that is one of the assigner's lanes.
pub update-IsValid :
    (v : Vision) (m : LaneStateManager v.F) (last frame : ℕ) (tracks : List (Track v.F))
    (a : LaneAssigner v.F v.Polygon)
    → last ≤ frame
    → IsValid (IsRawLane a) last m
    → IsValid (IsRawLane a) frame (update v m frame tracks a)
unfolding update
update-IsValid v m last frame tracks a h i = cleanup-IsValid (IsRawLane a) frame tracks _ (
    update_tracks-IsValid v (IsRawLane a) frame a (assign_lane-IsRawLane v a) _ tracks (
      IsValid-mono (IsRawLane a) last frame _ h
        (record { positive = i.positive; distinct = i.distinct; states = i.states })))
