-- ===== src/Loader/Lines.antt =====
-- The lanes of the configuration and their counting lines, packages/tf_core/io/config_loader.py.
use traffic_lane_counter.Prelude.{Bool, ◌&&◌, not, none, some, String, leb, Result, failed, done}
use traffic_lane_counter.Prelude.Int.{ℤ, pos, ltb_ℤ, ◌-ℤ◌, ◌*ℤ◌}
use traffic_lane_counter.Loader.{
  Value, null, list, Values, end, item, Entries, ◌>>=◌, ◌>>◌, require, get, at, as_number,
  is_nonempty_text, count_items, to_entries,
}

-- `a == b` on numbers
unfoldable pub eq_ℤ : ℤ → ℤ → Bool
eq_ℤ a b = not (ltb_ℤ a b) && not (ltb_ℤ b a)

-- The two numbers of a point `[x, y]`
unfoldable pub read_point : String → String → Value → Result String (ℤ × ℤ)
unfolding as_number
read_point wrong no_numbers (list (item x (item y end))) = elim (as_number x) [
  | none ↦ failed no_numbers
  | some a ↦ elim (as_number y) [ none ↦ failed no_numbers | some b ↦ done (a, b) ]
]
read_point wrong no_numbers v = failed wrong

-- Width and height of the frame, in thousandths of a pixel
abbrev pub Size : Type 0
Size = ℤ × ℤ

unfoldable pub is_in_frame : Size → ℤ × ℤ → Bool
is_in_frame (width, height) (x, y) =
    not (ltb_ℤ x (pos 0)) && not (ltb_ℤ width x) && (not (ltb_ℤ y (pos 0)) && not (ltb_ℤ height y))

unfoldable pub check_point : Size → Value → Result String (Unit {0})
unfolding read_point is_in_frame
check_point size v = do
  p ← read_point "Lane point must be a list of [x, y]." "Lane point coordinates must be numbers." v
  require (is_in_frame size p) "Lane point coordinates are outside frame boundaries."

unfoldable pub check_points : Size → Values → Result String (Unit {0})
unfolding check_point
check_points size end = done tt
check_points size (item v vs) = check_point size v >> check_points size vs

-- One end of a counting line
unfoldable pub line_point : Size → String → Entries → Result String (ℤ × ℤ)
unfolding get read_point is_in_frame
line_point size key cl = elim (get key cl) [
  | none ↦ failed "Lane counting_line misses a point."
  | some v ↦ do
    p ←
        read_point "Lane counting_line point must be [x, y]."
          "Lane counting_line coordinates must be numbers." v
    require (is_in_frame size p) "Lane counting_line point is outside frame."
    done p
]

-- `(ex - sx) * (ry - sy) - (ey - sy) * (rx - sx)`
unfoldable pub cross : ℤ × ℤ → ℤ × ℤ → ℤ × ℤ → ℤ
cross (sx, sy) (ex, ey) (rx, ry) = (ex -ℤ sx) *ℤ (ry -ℤ sy) -ℤ (ey -ℤ sy) *ℤ (rx -ℤ sx)

-- `_validate_counting_line`
unfoldable pub check_counting_line : Size → Value → Result String (Unit {0})
unfolding to_entries line_point eq_ℤ cross
check_counting_line size v = do
  cl ← to_entries "Lane counting_line must be a dictionary." v
  start ← line_point size "start" cl
  stop ← line_point size "end" cl
  reference ← line_point size "direction_ref" cl
  require (not (eq_ℤ start.0 stop.0 && eq_ℤ start.1 stop.1))
      "Lane counting_line: start and end are identical (zero-length line)."
  require (not (eq_ℤ (cross start stop reference) (pos 0)))
      "Lane counting_line.direction_ref is collinear with the line."

-- `None` and a missing key are no counting line.
unfoldable pub check_lane_line : Size → Entries → Result String (Unit {0})
unfolding get check_counting_line
check_lane_line size lane = elim (get "counting_line" lane) [
  | none ↦ done tt
  | some v ↦ elim v [ null ↦ done tt | other ↦ check_counting_line size other ]
]

unfoldable pub check_polygon : Size → Value → Result String (Unit {0})
unfolding count_items check_points
check_polygon size (list points) =
    require (leb 3 (count_items points)) "Lane points must be a list of at least 3 points."
    >> check_points size points
check_polygon size v = failed "Lane points must be a list of at least 3 points."

unfoldable pub check_lane : Size → Value → Result String (Unit {0})
unfolding to_entries get is_nonempty_text check_polygon check_lane_line at
check_lane size v = do
  lane ← to_entries "Lane must be a dictionary." v
  require (is_nonempty_text (at "id" lane)) "Lane must have a non-empty 'id' string."
  elim (get "points" lane) [
    | none ↦ failed "Lane is missing 'points'."
    | some points ↦ check_polygon size points >> check_lane_line size lane
  ]

unfoldable pub check_lanes : Size → Values → Result String (Unit {0})
unfolding check_lane
check_lanes size end = done tt
check_lanes size (item v vs) = check_lane size v >> check_lanes size vs
