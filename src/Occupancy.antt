-- ===== src/Occupancy.antt =====
-- packages/tf_core/occupancy/occupancy_engine.py: `OccupancyEngine`.
pub mod Totals
use traffic_lane_counter.Prelude.{
  ℕ, ◌+◌, Bool, Option, none, some, List, [], ◌∷◌, map, String, string_eq, if◌then◌else◌, get_or,
}
use traffic_lane_counter.Prelude.Dict.{Dict, lookup, insert}
use traffic_lane_counter.Config.{Config}
use traffic_lane_counter.Tracks.{TrackState, LaneStateManager, is_counted}

pub record OccupancyEngine : Type 0 where
  pub lane_ids : List String
  pub min_track_age_frames : ℕ

unfoldable pub new_engine : {F : Type 0} → Config F → OccupancyEngine
new_engine c = record {
  lane_ids = map (λ lane. lane.id) c.lanes;
  min_track_age_frames = get_or c.min_track_age_frames 3;
}

-- `{lane_id: 0 for lane_id in self.lane_ids}`
unfoldable pub zero_occupancy : List String → Dict String ℕ → Dict String ℕ
zero_occupancy [] occupancy = occupancy
zero_occupancy (lane ∷ lanes) occupancy = zero_occupancy lanes (insert lane 0 occupancy)

-- `if lane_id in occupancy: occupancy[lane_id] += 1`, for the stable lane of a counted track
unfoldable pub occupy : Option String → Dict String ℕ → Dict String ℕ
occupy none occupancy = occupancy
occupy (some lane) occupancy = elim (lookup lane occupancy) [
  | none ↦ occupancy
  | some n ↦ insert lane (n + 1) occupancy
]

module _ {F : Type 0} where
  unfoldable pub occupy_all : ℕ → ℕ → Dict ℕ (TrackState F) → Dict String ℕ → Dict String ℕ
  unfolding occupy
  occupy_all frame min_age [] occupancy = occupancy
  occupy_all frame min_age ((tid, s) ∷ states) occupancy =
      occupy_all frame min_age states
        (if is_counted s frame min_age then occupy s.stable_lane occupancy else occupancy)

  unfoldable pub compute_occupancy : OccupancyEngine → ℕ → LaneStateManager F → Dict String ℕ
  unfolding zero_occupancy occupy_all
  compute_occupancy e frame m =
      occupy_all frame e.min_track_age_frames m.track_states (zero_occupancy e.lane_ids [])
