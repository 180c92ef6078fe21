-- ===== src/Tests/Cropped.antt =====
-- The region of interest of one lane in a frame of 640 by 480 pixels, with a padding of 50 pixels.
use traffic_lane_counter.Prelude.{ℕ, ◌≡◌, refl, some, none, [], ◌∷◌, arith, List}
use traffic_lane_counter.Prelude.Int.{ℤ, pos, negsuc, ◌≤ℤ◌, ◌+ℤ◌, ◌-ℤ◌, max_ℤ, min_ℤ}
use mathlib.Core.List.Memᴰ.{head, tail}
use traffic_lane_counter.Vision.{Box}
use traffic_lane_counter.Roi.{
  Point, LaneEntry, Roi, new_roi, source_polygons, offset_point, to_original, float, int,
  lane_polygons,
}
use traffic_lane_counter.Roi.Bounds.{Within, new_roi-Within}
use traffic_lane_counter.Roi.Boxes.{IsSpan, to_original-IsSpan, to_original-offset_point}

abbrev at : ℕ → ℕ → Point
unfolding float
at x y = (float (pos x), float (pos y))

abbrev triangle : List Point
triangle = at 100 100 ∷ at 300 120 ∷ at 200 400 ∷ []

abbrev lane : LaneEntry ℕ
lane = record { points = triangle; counting_line = none; other = 1 }

abbrev crop : Roi
crop = record {
  frame_width = 640;
  frame_height = 480;
  x1 = pos 50;
  y1 = pos 50;
  x2 = pos 350;
  y2 = pos 450;
}

crop_of_triangle : new_roi (lane ∷ []) 640 480 50 [] ≡ crop
unfolding new_roi max_ℤ min_ℤ ◌-ℤ◌ ◌+ℤ◌ int at
crop_of_triangle = refl

new_roi-Within_example :
    let r = new_roi (lane ∷ []) 640 480 50 [] in
    (pos 0 ≤ℤ r.x1)
    × (pos 0 ≤ℤ r.y1)
    × (r.x2 ≤ℤ pos 640)
    × (r.y2 ≤ℤ pos 480)
    × Within r.x1 r.y1 r.x2 r.y2 (at 300 120)
unfolding source_polygons float lane_polygons
new_roi-Within_example =
    new_roi-Within (lane ∷ []) 640 480 50 [] triangle (at 300 120) (omega arith) (head refl)
      (tail (head refl)) (omega arith, omega arith, omega arith, omega arith)

abbrev wide : Box ℤ
wide = record { xmin = negsuc 9; ymin = pos 5; xmax = float (pos 700); ymax = pos 90 }

to_original-IsSpan_example :
    let b' = to_original crop (some 640) (some 480) wide in
    IsSpan 640 (b'.xmin, b'.xmax) × IsSpan 480 (b'.ymin, b'.ymax)
unfolding float
to_original-IsSpan_example =
    to_original-IsSpan crop 640 480 wide (omega arith) (omega arith) (omega arith) (omega arith)

to_original-offset_point_example :
    let p' = offset_point crop (at 100 100) in
    let q' = offset_point crop (at 200 400) in
    to_original crop
      (some 640)
      (some 480)
      (record { xmin = p'.0; ymin = p'.1; xmax = q'.0; ymax = q'.1 })
    ≡ record {
      xmin = float (pos 100);
      ymin = float (pos 100);
      xmax = float (pos 200);
      ymax = float (pos 400);
    }
unfolding float
to_original-offset_point_example =
    to_original-offset_point crop 640 480 (at 100 100) (at 200 400)
      (omega arith, omega arith, omega arith) (omega arith, omega arith, omega arith)
