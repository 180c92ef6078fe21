-- ===== src/Tracks.antt =====
-- packages/tf_core/occupancy/lane_state_manager.py: `TrackState` and `LaneStateManager`.
-- Frames, ages and counts are natural numbers; a test `a - b > c` of the source is `b + c < a`
-- here, so that no subtraction is cut off at 0.
pub mod Vote
pub mod Majority
pub mod Smoothing
pub mod Stable
pub mod Invariant
pub mod Timeout
pub mod Changes
pub mod Log
use traffic_lane_counter.Prelude.{
  ℕ, suc, ◌+◌, Bool, true, false, ◌&&◌, not, Option, none, some, List, [], ◌∷◌, ◌++◌, map, foldl,
  String, ◌==◌, nat_eq, string_eq, if◌then◌else◌, ltb, leb, get_or, length, last_items,
}
use traffic_lane_counter.Prelude.Dict.{Dict, lookup, insert, remove}
use traffic_lane_counter.Vision.{Vision, Box}
use traffic_lane_counter.Config.{Config}
use Vote.{vote}
use traffic_lane_counter.Lanes.{LaneAssigner, assign_lane}

-- A detection of the tracker: `track_id`, `class_name`, `confidence`, `bbox`.
pub record Track (F : Type 0) : Type 0 where
  pub track_id : ℕ
  pub class_name : String
  pub confidence : F
  pub bbox : Box F

-- `bbox` is the empty list until the first observation: `none`.
pub record TrackState (F : Type 0) : Type 0 where
  pub track_id : ℕ
  pub class_name : String
  pub first_seen_frame : ℕ
  pub last_seen_frame : ℕ
  pub bbox : Option (Box F)
  pub confidence : F
  pub raw_history : List String
  pub stable_lane : Option String
  pub consecutive_unknown_count : ℕ

pub record LaneChange : Type 0 where
  pub frame : ℕ
  pub track_id : ℕ
  pub class_name : String
  pub previous_stable_lane : String
  pub current_stable_lane : String

pub record Settings : Type 0 where
  pub active_track_timeout_frames : ℕ
  pub min_track_age_frames : ℕ
  pub history_window : ℕ
  pub min_consecutive_for_change : ℕ
  pub unknown_timeout_frames : ℕ

pub record LaneStateManager (F : Type 0) : Type 0 where
  pub settings : Settings
  pub open settings use *
  pub track_states : Dict ℕ (TrackState F)
  pub current_frame_events : List LaneChange

unfoldable pub new_manager : {F : Type 0} → Config F → LaneStateManager F
new_manager c = record {
  settings = record {
    active_track_timeout_frames = get_or c.active_track_timeout_frames 10;
    min_track_age_frames = get_or c.min_track_age_frames 3;
    history_window = get_or c.history_window 10;
    min_consecutive_for_change = get_or c.min_consecutive_for_change 5;
    unknown_timeout_frames = get_or c.unknown_timeout_frames 15;
  };
  track_states = [];
  current_frame_events = [];
}

abbrev pub is_some {ℓ} : {A : Type ℓ} → Option A → Bool
is_some none = false
is_some (some _) = true

-- `age >= min_age and self.stable_lane is not None`, with `age = current - first_seen + 1`.
unfoldable pub is_counted : {F : Type 0} → TrackState F → ℕ → ℕ → Bool
is_counted s current_frame_idx min_age =
    leb (s.first_seen_frame + min_age) (current_frame_idx + 1) && is_some s.stable_lane

-- The raw history takes the new lane, and drops the oldest if it is over the window.
unfoldable pub push_history : ℕ → List String → String → List String
push_history window [] lane = if ltb window 1 then [] else lane ∷ []
push_history window (old ∷ rest) lane =
    if ltb window (length (old ∷ rest) + 1) then rest ++ lane ∷ [] else old ∷ rest ++ lane ∷ []

all_equal : String → List String → Bool
all_equal lane [] = true
all_equal lane (x ∷ xs) = x == lane && not (x == "unknown") && all_equal lane xs

-- The lane of `last_C`, if all of it is that one known lane and it has `C` entries. (The loader
-- takes positive `C` only, so `last_C` is never empty where the test passes.)
unfoldable pub agreed_lane : ℕ → List String → Option String
unfolding all_equal
agreed_lane c [] = none
agreed_lane c (x ∷ xs) = if length (x ∷ xs) == c && all_equal x (x ∷ xs) then some x else none

-- Check 1: the last `C` raw lanes agree.
unfoldable pub fast_change : ℕ → List String → Option String
fast_change c history = agreed_lane c (if leb c (length history) then last_items c history else [])

-- Check 1, then check 2 (the vote), then the lane it had.
unfoldable pub settle : ℕ → List String → Option String → Option String
settle c history stable = elim (fast_change c history) [
  | some lane ↦ some lane
  | none ↦ elim (vote history) [ some lane ↦ some lane | none ↦ stable ]
]

-- The smoothing of one observation, the raw lane being in the history already.
unfoldable pub smooth : {F : Type 0} → Settings → String → TrackState F → TrackState F
smooth c raw_lane s =
    if raw_lane == "unknown"
    then record s {
      consecutive_unknown_count = s.consecutive_unknown_count + 1;
      stable_lane =
          if ltb c.unknown_timeout_frames (s.consecutive_unknown_count + 1)
          then none
          else s.stable_lane;
    }
    else record s {
      consecutive_unknown_count = 0;
      stable_lane = settle c.min_consecutive_for_change s.raw_history s.stable_lane;
    }

-- The event of a change from one stable lane to another one.
unfoldable pub lane_change : ℕ → ℕ → String → Option String → Option String → List LaneChange
lane_change frame tid cls none now = []
lane_change frame tid cls (some before) none = []
lane_change frame tid cls (some before) (some now) =
    if before == now
    then []
    else record {
      frame = frame;
      track_id = tid;
      class_name = cls;
      previous_stable_lane = before;
      current_stable_lane = now;
    }
      ∷ []

-- `tid in seen_track_ids`
unfoldable pub seen : {F : Type 0} → ℕ → List (Track F) → Bool
seen tid [] = false
seen tid (t ∷ ts) = if t.track_id == tid then true else seen tid ts

module _ {F : Type 0} where
  -- `tid not in seen_track_ids` and `frames_missing > active_track_timeout_frames`
  unfoldable pub is_dead : ℕ → ℕ → List (Track F) → ℕ → TrackState F → Bool
  is_dead frame timeout tracks tid s =
      not (seen tid tracks) && ltb (s.last_seen_frame + timeout) frame

  unfoldable pub dead_track_ids : ℕ → ℕ → List (Track F) → Dict ℕ (TrackState F) → List ℕ
  dead_track_ids frame timeout tracks [] = []
  dead_track_ids frame timeout tracks ((tid, s) ∷ d) =
      let rest = dead_track_ids frame timeout tracks d in
      if is_dead frame timeout tracks tid s then tid ∷ rest else rest

  unfoldable pub remove_all : List ℕ → Dict ℕ (TrackState F) → Dict ℕ (TrackState F)
  remove_all [] d = d
  remove_all (tid ∷ tids) d = remove_all tids (remove tid d)

  unfoldable pub cleanup : ℕ → List (Track F) → LaneStateManager F → LaneStateManager F
  cleanup frame tracks m = record m {
    track_states =
        remove_all (dead_track_ids frame m.active_track_timeout_frames tracks m.track_states)
          m.track_states;
  }

module _ (v : Vision) where
  open v use {F, Polygon, float_zero}

  unfoldable pub new_track : ℕ → String → ℕ → TrackState F
  new_track tid cls frame = record {
    track_id = tid;
    class_name = cls;
    first_seen_frame = frame;
    last_seen_frame = frame;
    bbox = none;
    confidence = float_zero;
    raw_history = [];
    stable_lane = none;
    consecutive_unknown_count = 0;
  }

  -- The state of a track after one observation with this raw lane.
  unfoldable pub observe : Settings → ℕ → Track F → String → TrackState F → TrackState F
  observe c frame t raw_lane old = smooth c raw_lane (record old {
    last_seen_frame = frame;
    bbox = some t.bbox;
    confidence = t.confidence;
    raw_history = push_history c.history_window old.raw_history raw_lane;
  })

  -- `self.track_states[tid]`, or the new one that is stored there.
  unfoldable pub state_of : LaneStateManager F → ℕ → Track F → TrackState F
  unfolding new_track
  state_of m frame t =
      get_or (lookup t.track_id m.track_states) (new_track t.track_id t.class_name frame)

  -- The body of the loop over the detected tracks.
  unfoldable pub update_track :
      ℕ → LaneAssigner F Polygon → LaneStateManager F → Track F → LaneStateManager F
  update_track frame assigner m t =
      let old = state_of m frame t in
      let state = observe m.settings frame t (assign_lane v assigner t.bbox) old in
      record m {
        track_states = insert t.track_id state m.track_states;
        current_frame_events =
            m.current_frame_events
            ++ lane_change frame t.track_id t.class_name old.stable_lane state.stable_lane;
      }

  unfoldable pub update_tracks :
      ℕ → LaneAssigner F Polygon → LaneStateManager F → List (Track F) → LaneStateManager F
  update_tracks frame assigner m [] = m
  update_tracks frame assigner m (t ∷ ts) =
      update_tracks frame assigner (update_track frame assigner m t) ts

  -- The events that `update` returns are `current_frame_events` of the new manager.
  unfoldable pub update :
      LaneStateManager F → ℕ → List (Track F) → LaneAssigner F Polygon → LaneStateManager F
  update m frame tracks assigner =
      cleanup frame tracks
        (update_tracks frame assigner (record m { current_frame_events = [] }) tracks)
