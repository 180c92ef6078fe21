-- ===== src/Counting.antt =====
-- packages/tf_core/counting/line_counter.py: `LineCounter`. The set `_counted` is the list of its
-- members; `self.counts[lane][class]` is a `Tally` with the two directions as its keys.
pub mod Once
pub mod Totals
pub mod Reached
pub mod Motion
use traffic_lane_counter.Prelude.{
  ℕ, ◌+◌, ◌-◌, Bool, true, false, ◌&&◌, ◌||◌, not, Option, none, some, List, [], ◌∷◌, ◌++◌, String,
  ◌==◌, nat_eq, string_eq, pair_eq, if◌then◌else◌, ltb, get_or, length, drop, last?,
}
use traffic_lane_counter.Prelude.Dict.{Dict, lookup, insert, remove}
use traffic_lane_counter.Vision.{Vision, Box}
use traffic_lane_counter.Config.{Config, LaneData}
use traffic_lane_counter.Tracks.{TrackState, LaneStateManager}

pub data Direction : Type 0 where
  forward backward : Direction

pub record Tally : Type 0 where
  pub forward_count : ℕ
  pub backward_count : ℕ

abbrev pub zero_tally : Tally
zero_tally = record { forward_count = 0; backward_count = 0 }

-- `bucket[class_name][direction] += 1`
unfoldable pub bump : Direction → Tally → Tally
bump forward t = record t { forward_count = t.forward_count + 1 }
bump backward t = record t { backward_count = t.backward_count + 1 }

abbrev pub Counts : Type 0
Counts = Dict String (Dict String Tally)

-- A count event. `line_id` is always the lane with the suffix `_track`, and `count_mode` a constant.
pub record CountEvent (F : Type 0) : Type 0 where
  pub frame : ℕ
  pub track_id : ℕ
  pub class_name : String
  pub lane_id : String
  pub direction : Direction
  pub confidence : F

pub record LineCounter (F : Type 0) : Type 0 where
  pub count_unstable_lane : Bool
  pub min_track_age_frames : ℕ
  pub motion_history : ℕ
  pub allowed_classes : List String
  pub counts : Counts
  pub counted : List (ℕ × String)
  pub anchors : Dict ℕ (List (F × F))

-- `{cls: {d: 0 for d in DIRECTIONS} for cls in allowed_classes}`
unfoldable pub class_buckets : List String → Dict String Tally → Dict String Tally
class_buckets [] bucket = bucket
class_buckets (cls ∷ rest) bucket = class_buckets rest (insert cls zero_tally bucket)

-- `str(lane.get("id") or lane.get("lane_id") or "")`
abbrev pub name_of : {F : Type 0} → LaneData F → String
name_of lane = if lane.id == "" then lane.lane_id else lane.id

-- the loop of `__init__` over the lanes; a lane without a name is skipped
unfoldable pub lane_buckets : {F : Type 0} → List String → List (LaneData F) → Counts → Counts
unfolding class_buckets
lane_buckets classes [] counts = counts
lane_buckets classes (lane ∷ lanes) counts = lane_buckets classes lanes (
    let lane_id = name_of lane in
    if lane_id == "" then counts else insert lane_id (class_buckets classes []) counts)

unfoldable pub new_counter : {F : Type 0} → Config F → LineCounter F
unfolding lane_buckets
new_counter c = record {
  count_unstable_lane = get_or c.count_unstable_lane false;
  min_track_age_frames = get_or c.min_track_age_frames 3;
  motion_history = get_or c.motion_history 5;
  allowed_classes = get_or c.allowed_classes [];
  counts = lane_buckets (get_or c.allowed_classes []) c.lanes [];
  counted = [];
  anchors = [];
}

-- `_ensure_class_bucket`
unfoldable pub ensure_class_bucket : String → String → Counts → Counts
ensure_class_bucket lane cls counts =
    let bucket = get_or (lookup lane counts) [] in
    insert lane (elim (lookup cls bucket) [ none ↦ insert cls zero_tally bucket | some _ ↦ bucket ])
      counts

-- `self.counts[lane][cls][direction] += 1`, where both keys are there
unfoldable pub add_count : String → String → Direction → Counts → Counts
unfolding bump
add_count lane cls d counts =
    let bucket = get_or (lookup lane counts) [] in
    insert lane (insert cls (bump d (get_or (lookup cls bucket) zero_tally)) bucket) counts

-- `key in self._counted`
unfoldable pub is_member : ℕ × String → List (ℕ × String) → Bool
is_member key [] = false
is_member key (k ∷ ks) = if k == key then true else is_member key ks

-- `_effective_lane`
unfoldable pub effective_lane : {F : Type 0} → LineCounter F → TrackState F → Option String
effective_lane c s = elim s.stable_lane [
  | some lane ↦ some lane
  | none ↦
      if c.count_unstable_lane
      then elim (last? s.raw_history) [
        | none ↦ none
        | some lane ↦ if lane == "unknown" then none else some lane
      ]
      else none
]

-- `if not lane_id or lane_id == "unknown": continue`
unfoldable pub countable : Option String → Option String
countable none = none
countable (some lane) = if lane == "" || lane == "unknown" then none else some lane

module _ (v : Vision) where
  open v use {F, float_zero, float_two, add, sub, half, abs, lt}

  -- `_anchor`
  unfoldable pub anchor : Option (Box F) → Option (F × F)
  anchor none = none
  anchor (some b) = some (half (add b.xmin b.xmax), b.ymax)

  -- `_direction_from_motion`: both returns under the small-motion test are `forward`.
  unfoldable pub direction_of : List (F × F) → Direction
  direction_of [] = forward
  direction_of (p ∷ []) = forward
  direction_of (p ∷ q ∷ rest) =
      let dy = sub (get_or (last? (q ∷ rest)) q).1 p.1 in
      if lt (abs dy) float_two then forward else if lt float_zero dy then backward else forward

  unfoldable pub direction_from_motion : LineCounter F → ℕ → Direction
  unfolding direction_of
  direction_from_motion c tid = direction_of (get_or (lookup tid c.anchors) [])

  -- `hist.append(anchor)`, and the cut to the last `_motion_history` entries
  unfoldable pub push_anchor : ℕ → List (F × F) → F × F → List (F × F)
  push_anchor limit hist p =
      if ltb limit (length (hist ++ p ∷ []))
      then drop (length (hist ++ p ∷ []) - limit) (hist ++ p ∷ [])
      else hist ++ p ∷ []

  unfoldable pub follow : ℕ → TrackState F → LineCounter F → LineCounter F
  unfolding anchor push_anchor
  follow tid s c = elim (anchor s.bbox) [
    | none ↦ c
    | some p ↦ record c {
      anchors =
          insert tid (push_anchor c.motion_history (get_or (lookup tid c.anchors) []) p) c.anchors;
    }
  ]

  -- A track that this frame does not show: its motion history goes after 60 frames.
  unfoldable pub forget : ℕ → ℕ → TrackState F → LineCounter F → LineCounter F
  forget frame tid s c =
      if ltb (s.last_seen_frame + 60) frame then record c { anchors = remove tid c.anchors } else c

  -- The part of the loop body behind the lane test.
  unfoldable pub count_once :
      ℕ → ℕ → TrackState F → String → LineCounter F → LineCounter F × List (CountEvent F)
  unfolding is_member
  count_once frame tid s lane c =
      if is_member (tid, lane) c.counted
      then (c, [])
      else let d = direction_from_motion c tid in
        let cls = if s.class_name == "" then "unknown" else s.class_name in
        (
          record c {
            counted = (tid, lane) ∷ c.counted;
            counts = add_count lane cls d (ensure_class_bucket lane cls c.counts);
          },
          record {
            frame = frame;
            track_id = tid;
            class_name = cls;
            lane_id = lane;
            direction = d;
            confidence = s.confidence;
          }
              ∷ [],
        )

  -- The body of the loop over the track states.
  unfoldable pub count_track :
      ℕ → ℕ × TrackState F → LineCounter F → LineCounter F × List (CountEvent F)
  unfolding effective_lane countable
  count_track frame (tid, s) c =
      if not (s.last_seen_frame == frame)
      then (forget frame tid s c, [])
      else let c' = follow tid s c in
        if ltb (frame + 1) (s.first_seen_frame + c.min_track_age_frames)
        then (c', [])
        else elim (countable (effective_lane c' s)) [
          | none ↦ (c', [])
          | some lane ↦ count_once frame tid s lane c'
        ]

  unfoldable pub count_tracks :
      ℕ → Dict ℕ (TrackState F) → LineCounter F → LineCounter F × List (CountEvent F)
  count_tracks frame [] c = (c, [])
  count_tracks frame (entry ∷ states) c =
      let (c', new) = count_track frame entry c in
      let (c'', later) = count_tracks frame states c' in (c'', new ++ later)

  unfoldable pub update :
      LineCounter F → ℕ → LaneStateManager F → LineCounter F × List (CountEvent F)
  update c frame m = count_tracks frame m.track_states c
