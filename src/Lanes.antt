-- ===== src/Lanes.antt =====
-- packages/tf_core/lanes: `Lane` (lane_config.py) and `LaneAssigner` (lane_assigner.py).
pub mod Order
use traffic_lane_counter.Prelude.{
  Bool, true, false, ◌&&◌, List, [], ◌∷◌, map, String, ◌==◌, string_eq, if◌then◌else◌, get_or,
}
use traffic_lane_counter.Vision.{Vision, Box, Side, outside, on_edge, inside}
use traffic_lane_counter.Config.{Config, LaneData}

pub record Lane (F P : Type 0) : Type 0 where
  pub id : String
  pub points : List (F × F)
  pub polygon : P

pub record LaneAssigner (F P : Type 0) : Type 0 where
  pub boundary_mode : String
  pub lanes : List (Lane F P)

-- The tests of the loop: `dist >= 0` in one mode, `dist > 0` in the other, never in any other mode.
unfoldable pub accepts : String → Side → Bool
accepts mode outside = false
accepts mode on_edge = mode == "inside_or_on_edge"
accepts mode inside =
    if mode == "inside_or_on_edge" then true else if mode == "inside_only" then true else false

module _ (v : Vision) where
  open v use {F, Polygon, add, half, to_polygon, point_polygon_test}

  unfoldable pub new_lane : LaneData F → Lane F Polygon
  new_lane d = record { id = d.id; points = d.points; polygon = to_polygon d.points }

  unfoldable pub new_assigner : Config F → LaneAssigner F Polygon
  unfolding new_lane
  new_assigner c = record {
    boundary_mode = get_or c.boundary_mode "inside_or_on_edge";
    lanes = map new_lane c.lanes;
  }

  -- The bottom centre of the box.
  abbrev pub ground_point : Box F → F × F
  ground_point b = (half (add b.xmin b.xmax), b.ymax)

  -- The loop over the lanes, in the order of the configuration.
  unfoldable pub first_lane : String → F × F → List (Lane F Polygon) → String
  first_lane mode pt [] = "unknown"
  first_lane mode pt (l ∷ ls) =
      if accepts mode (point_polygon_test l.polygon pt) then l.id else first_lane mode pt ls

  unfoldable pub assign_lane : LaneAssigner F Polygon → Box F → String
  unfolding first_lane
  assign_lane a b = first_lane a.boundary_mode (ground_point b) a.lanes
