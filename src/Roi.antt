-- ===== src/Roi.antt =====
-- The region of interest: packages/tf_core/roi.py. Coordinates are floats in Python; here a coordinate
-- is a whole number of 1/256 pixel, sizes and offsets are whole pixels.
pub mod Bounds
pub mod Boxes
use traffic_lane_counter.Prelude.{
  ℕ, zero, suc, ◌+◌, ◌-◌, ◌*◌, ◌/◌, ◌≤◌, Bool, Option, none, some, List, [], ◌∷◌, ◌++◌, map, String,
  arith, leb, ltb, length, if◌then◌else◌,
}
use mathlib.Core.Option
use traffic_lane_counter.Vision.{Box}
use traffic_lane_counter.Prelude.Int.{
  ℤ, pos, negsuc, pos_part, neg_part, sub_ℕ, ◌+ℤ◌, ◌-ℤ◌, ltb_ℤ, max_ℤ, min_ℤ, floor_div, scale,
}

abbrev pub unit : ℕ
unit = 256

-- `float(n)`
unfoldable pub float : ℤ → ℤ
unfolding scale
float n = scale n unit

-- `int(x)` cuts the fraction off.
unfoldable pub int : ℤ → ℤ
int (pos x) = pos (x / unit)
int (negsuc x) = sub_ℕ 0 (suc x / unit)

abbrev pub Point : Type 0
Point = ℤ × ℤ

pub record CountingLine : Type 0 where
  pub start : Option Point
  pub end : Option Point
  pub direction_ref : Option Point

-- A lane's entry; what the crop does not read stands in `other`.
pub record LaneEntry (D : Type 0) : Type 0 where
  pub points : List Point
  pub counting_line : Option CountingLine
  pub other : D

pub record Config (D : Type 0) : Type 0 where
  pub frame_width : ℤ
  pub frame_height : ℤ
  pub coordinate_space : Option String
  pub lanes : List (LaneEntry D)

-- The running extremes; before the first point they are infinite, and there is no record.
pub record Extent : Type 0 where
  pub x_min : ℤ
  pub y_min : ℤ
  pub x_max : ℤ
  pub y_max : ℤ

pub record Roi : Type 0 where
  pub frame_width : ℕ
  pub frame_height : ℕ
  pub x1 : ℤ
  pub y1 : ℤ
  pub x2 : ℤ
  pub y2 : ℤ

-- The polygons of the lanes that have one.
unfoldable pub lane_polygons : {D : Type 0} → List (LaneEntry D) → List (List Point)
lane_polygons [] = []
lane_polygons (l ∷ ls) =
    let rest = lane_polygons ls in if leb 3 (length l.points) then l.points ∷ rest else rest

-- Zones come first; `[]` stands for `None` too.
unfoldable pub source_polygons :
    {D : Type 0} → List (LaneEntry D) → List (List Point) → List (List Point)
source_polygons lanes [] = lane_polygons lanes
source_polygons lanes (z ∷ zs) = z ∷ zs

unfoldable pub widen : Option Extent → Point → Extent
widen none (x, y) = record { x_min = x; y_min = y; x_max = x; y_max = y }
widen (some e) (x, y) = record {
  x_min = min_ℤ e.x_min x;
  y_min = min_ℤ e.y_min y;
  x_max = max_ℤ e.x_max x;
  y_max = max_ℤ e.y_max y;
}

unfoldable pub polygon_extent : Option Extent → List Point → Option Extent
polygon_extent e [] = e
polygon_extent e (p ∷ ps) = polygon_extent (some (widen e p)) ps

unfoldable pub extent : Option Extent → List (List Point) → Option Extent
extent e [] = e
extent e (p ∷ ps) = extent (polygon_extent e p) ps

unfoldable pub crop_of : ℕ → ℕ → ℕ → Option Extent → Roi
crop_of width height padding none = record {
  frame_width = width;
  frame_height = height;
  x1 = pos 0;
  y1 = pos 0;
  x2 = pos width;
  y2 = pos height;
}
crop_of width height padding (some e) = record {
  frame_width = width;
  frame_height = height;
  x1 = max_ℤ (pos 0) (int e.x_min -ℤ pos padding);
  y1 = max_ℤ (pos 0) (int e.y_min -ℤ pos padding);
  x2 = min_ℤ (pos width) (int e.x_max +ℤ pos padding);
  y2 = min_ℤ (pos height) (int e.y_max +ℤ pos padding);
}

-- `LaneROICrop(lanes_config, frame_size, padding, zone_polygons)`
unfoldable pub new_roi : {D : Type 0} → List (LaneEntry D) → ℕ → ℕ → ℕ → List (List Point) → Roi
unfolding source_polygons lane_polygons extent polygon_extent widen crop_of
new_roi lanes width height padding zones =
    crop_of width height padding (extent none (source_polygons lanes zones))

unfoldable pub crop_width : Roi → ℤ
crop_width r = r.x2 -ℤ r.x1

unfoldable pub crop_height : Roi → ℤ
crop_height r = r.y2 -ℤ r.y1

unfoldable pub suggested_imgsz : Roi → ℕ → ℤ
unfolding crop_width crop_height
suggested_imgsz r stride =
    let longest = max_ℤ (crop_width r) (crop_height r) in
    scale (floor_div (longest +ℤ pos stride -ℤ pos 1) stride) stride

-- `[pt[0] - self.offset_x, pt[1] - self.offset_y]`
unfoldable pub offset_point : Roi → Point → Point
offset_point r (x, y) = (x -ℤ float r.x1, y -ℤ float r.y1)

unfoldable pub offset_line : Roi → CountingLine → CountingLine
unfolding offset_point
offset_line r l = record {
  start = Option.map (offset_point r) l.start;
  end = Option.map (offset_point r) l.end;
  direction_ref = Option.map (offset_point r) l.direction_ref;
}

unfoldable pub offset_lane : {D : Type 0} → Roi → LaneEntry D → LaneEntry D
unfolding offset_point offset_line
offset_lane r l = record l {
  points = map (offset_point r) l.points;
  counting_line = Option.map (offset_line r) l.counting_line;
}

unfoldable pub transform_config : {D : Type 0} → Roi → Config D → Config D
unfolding offset_lane crop_width crop_height
transform_config r c = record {
  frame_width = crop_width r;
  frame_height = crop_height r;
  coordinate_space = some "crop_space";
  lanes = map (offset_lane r) c.lanes;
}

-- `max(0.0, min(x, float(size)))`
unfoldable pub clamp : Option ℕ → ℤ → ℤ
clamp none x = x
clamp (some size) x = max_ℤ (pos 0) (min_ℤ x (float (pos size)))

-- A box that is empty along an axis becomes one pixel wide there.
unfoldable pub spread : Option ℕ → ℤ × ℤ → ℤ × ℤ
spread none (a, b) = (a, b)
spread (some size) (a, b) =
    if ltb_ℤ a b
    then (a, b)
    else let a' = if ltb_ℤ a (float (pos size)) then a else float (pos size) -ℤ float (pos 1) in
      (a', a' +ℤ float (pos 1))

-- One axis of a box, back in the frame
unfoldable pub restore : ℤ → Option ℕ → ℤ × ℤ → ℤ × ℤ
unfolding clamp spread
restore offset size (a, b) =
    spread size (clamp size (a +ℤ float offset), clamp size (b +ℤ float offset))

unfoldable pub to_original : Roi → Option ℕ → Option ℕ → Box ℤ → Box ℤ
unfolding restore
to_original r width height b =
    let x = restore r.x1 width (b.xmin, b.xmax) in
    let y = restore r.y1 height (b.ymin, b.ymax) in
    record { xmin = x.0; ymin = y.0; xmax = x.1; ymax = y.1 }
