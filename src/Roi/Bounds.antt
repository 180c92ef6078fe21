-- ===== src/Roi/Bounds.antt =====
-- The crop rectangle of the region of interest and the boxes that come back from it.
use traffic_lane_counter.Prelude.{
  ℕ, ◌+◌, ◌-◌, ◌*◌, ◌/◌, ◌≤◌, ◌<◌, ◌≡◌, refl, sym, subst, Option, none, some, List, [], ◌∷◌, arith,
}
use native.Mathlib.Nat.{div-add-mod', mod-lt}
use mathlib.Core.List.{Memᴰ}
use mathlib.Core.List.Memᴰ.{head, tail}
use traffic_lane_counter.Prelude.Int.{
  ℤ, pos, negsuc, pos_part, neg_part, ◌+ℤ◌, ◌-ℤ◌, ◌≤ℤ◌, ◌<ℤ◌, max_ℤ, min_ℤ, floor_div, scale,
  +ℤ_parts, -ℤ_parts, max_ℤ-le, max_ℤ-lub, min_ℤ-le, scale_parts, int_laws,
}
use traffic_lane_counter.Roi.{
  unit, float, int, Point, LaneEntry, Extent, Roi, source_polygons, widen, polygon_extent, extent,
  crop_of, new_roi, crop_width, crop_height, suggested_imgsz,
}

pub float_parts :
    (a : ℤ) → (pos_part (float a) ≡ pos_part a * 256) × (neg_part (float a) ≡ neg_part a * 256)
unfolding float
float_parts a = scale_parts a unit

int_bounds : (a : ℤ) → (pos 0 ≤ℤ a → float (int a) ≤ℤ a) × (a <ℤ float (int a +ℤ pos 1))
unfolding int float scale ◌+ℤ◌
int_bounds a = ground arith

int_mono : (a b : ℤ) → a ≤ℤ b → int a ≤ℤ int b
unfolding int
int_mono a b h = ground arith

abbrev Covers : Option Extent → Point → Type 0
Covers none p = ⊥
Covers (some e) p = (e.x_min ≤ℤ p.0) × (p.0 ≤ℤ e.x_max) × (e.y_min ≤ℤ p.1) × (p.1 ≤ℤ e.y_max)

widen-Covers : (e : Option Extent) (p : Point) → Covers (some (widen e p)) p
unfolding widen
widen-Covers none (x, y) = (omega arith, omega arith, omega arith, omega arith)
widen-Covers (some e) (x, y) =
    ((min_ℤ-le e.x_min x).1, (max_ℤ-le e.x_max x).1, (min_ℤ-le e.y_min y).1, (max_ℤ-le e.y_max y).1)

widen-keeps : (e : Option Extent) (p q : Point) → Covers e q → Covers (some (widen e p)) q
unfolding widen
widen-keeps none (x, y) q h = elim h [ ]
widen-keeps (some e) (x, y) q h = (
  omega (arith, min_ℤ-le e.x_min x, h),
  omega (arith, max_ℤ-le e.x_max x, h),
  omega (arith, min_ℤ-le e.y_min y, h),
  omega (arith, max_ℤ-le e.y_max y, h),
)

polygon_extent-keeps :
    (e : Option Extent) (ps : List Point) (q : Point) → Covers e q → Covers (polygon_extent e ps) q
unfolding polygon_extent
polygon_extent-keeps e [] q h = h
polygon_extent-keeps e (p ∷ ps) q h =
    polygon_extent-keeps (some (widen e p)) ps q (widen-keeps e p q h)

polygon_extent-Covers :
    (e : Option Extent) (ps : List Point) (q : Point) → Memᴰ q ps → Covers (polygon_extent e ps) q
unfolding polygon_extent
polygon_extent-Covers e [] q m = elim m [ ]
polygon_extent-Covers e (p ∷ ps) q (head r) =
    polygon_extent-keeps (some (widen e p)) ps q
      (subst (Covers (some (widen e p))) (sym r) (widen-Covers e p))
polygon_extent-Covers e (p ∷ ps) q (tail m) = polygon_extent-Covers (some (widen e p)) ps q m

extent-keeps :
    (e : Option Extent) (ps : List (List Point)) (q : Point) → Covers e q → Covers (extent e ps) q
unfolding extent
extent-keeps e [] q h = h
extent-keeps e (p ∷ ps) q h = extent-keeps (polygon_extent e p) ps q (polygon_extent-keeps e p q h)

extent-Covers :
    (e : Option Extent) (ps : List (List Point)) (poly : List Point) (q : Point)
    → Memᴰ poly ps
    → Memᴰ q poly
    → Covers (extent e ps) q
unfolding extent
extent-Covers e [] poly q k m = elim k [ ]
extent-Covers e (p ∷ ps) poly q (head r) m =
    extent-keeps (polygon_extent e p) ps q (polygon_extent-Covers e p q (subst (λ x. Memᴰ q x) r m))
extent-Covers e (p ∷ ps) poly q (tail k) m = extent-Covers (polygon_extent e p) ps poly q k m

-- The point lies in the rectangle, its edges included.
abbrev pub Within : ℤ → ℤ → ℤ → ℤ → Point → Type 0
Within x1 y1 x2 y2 p = (float x1 ≤ℤ p.0) × (p.0 ≤ℤ float x2) × (float y1 ≤ℤ p.1) × (p.1 ≤ℤ float y2)

float-min : (a b x : ℤ) → x ≤ℤ float a → x ≤ℤ float b → x ≤ℤ float (min_ℤ a b)
unfolding min_ℤ
float-min a b x h k = ground arith

-- One axis of the crop
low_edge :
    (padding : ℕ) (low x : ℤ)
    → low ≤ℤ x
    → pos 0 ≤ℤ x
    → float (max_ℤ (pos 0) (int low -ℤ pos padding)) ≤ℤ x
unfolding int
low_edge padding low x h k =
    let c = int low -ℤ pos padding in
    let below : pos 0 ≤ℤ int x = int_mono (pos 0) x k in
    let least : max_ℤ (pos 0) c ≤ℤ int x =
      max_ℤ-lub (pos 0) c (int x) below
        (omega (arith, int_mono low x h, -ℤ_parts (int low) (pos padding))) in
    omega (arith, least, float_parts (max_ℤ (pos 0) c), float_parts (int x), (int_bounds x).0 k)

high_edge :
    (padding size : ℕ) (high x : ℤ)
    → 0 < padding
    → x ≤ℤ high
    → x ≤ℤ float (pos size)
    → x ≤ℤ float (min_ℤ (pos size) (int high +ℤ pos padding))
high_edge padding size high x g h k =
    let c = int high +ℤ pos padding in
    let near : x ≤ℤ float c = omega (
      arith,
      h,
      (int_bounds high).1,
      float_parts c,
      float_parts (int high +ℤ pos 1),
      +ℤ_parts (int high) (pos padding),
      +ℤ_parts (int high) (pos 1),
    ) in
    float-min (pos size) c x k near

-- With a padding of at least a pixel, and a point of the polygons (the zones, or else the lanes) that lies in the frame:
-- the crop does not reach beyond the left, top, right and bottom edges of the frame, and it holds this point.
pub new_roi-Within :
    {D : Type 0} (lanes : List (LaneEntry D)) (width height padding : ℕ) (zones : List (List Point))
    (poly : List Point) (p : Point)
    → 0 < padding
    → Memᴰ poly (source_polygons lanes zones)
    → Memᴰ p poly
    → Within (pos 0) (pos 0) (pos width) (pos height) p
    → let r = new_roi lanes width height padding zones in
      (pos 0 ≤ℤ r.x1)
      × (pos 0 ≤ℤ r.y1)
      × (r.x2 ≤ℤ pos width)
      × (r.y2 ≤ℤ pos height)
      × Within r.x1 r.y1 r.x2 r.y2 p
unfolding new_roi crop_of
new_roi-Within lanes width height padding zones poly p g mp m h =
    covered (extent none (source_polygons lanes zones))
      (extent-Covers none (source_polygons lanes zones) poly p mp m)
  where
    covered :
        (e : Option Extent)
        → Covers e p
        → let r = crop_of width height padding e in
          (pos 0 ≤ℤ r.x1)
          × (pos 0 ≤ℤ r.y1)
          × (r.x2 ≤ℤ pos width)
          × (r.y2 ≤ℤ pos height)
          × Within r.x1 r.y1 r.x2 r.y2 p
    covered none c = elim c [ ]
    covered (some e) c = (
      (max_ℤ-le (pos 0) (int e.x_min -ℤ pos padding)).0,
      (max_ℤ-le (pos 0) (int e.y_min -ℤ pos padding)).0,
      (min_ℤ-le (pos width) (int e.x_max +ℤ pos padding)).0,
      (min_ℤ-le (pos height) (int e.y_max +ℤ pos padding)).0,
      (
        low_edge padding e.x_min p.0 c.0 (omega (arith, h.0, float_parts (pos 0))),
        high_edge padding width e.x_max p.0 g c.1 h.1,
        low_edge padding e.y_min p.1 c.2 (omega (arith, h.2, float_parts (pos 0))),
        high_edge padding height e.y_max p.1 g c.3 h.3,
      ),
    )

round_up :
    (n stride : ℕ)
    → 0 < stride
    → (n ≤ (n + stride - 1) / stride * stride) × ((n + stride - 1) / stride * stride < n + stride)
round_up n stride h =
    let m = n + stride - 1 in
    (omega (arith, div-add-mod' m stride, mod-lt m h), omega (arith, div-add-mod' m stride))

imgsz_of :
    (n stride : ℕ)
    → 0 < stride
    → scale (floor_div (pos n +ℤ pos stride -ℤ pos 1) stride) stride
      ≡ pos ((n + stride - 1) / stride * stride)
unfolding scale floor_div
imgsz_of n stride h =
    let e : pos n +ℤ pos stride -ℤ pos 1 ≡ pos (n + stride - 1) =
      omega (int_laws, +ℤ_parts (pos n) (pos stride), -ℤ_parts (pos n +ℤ pos stride) (pos 1)) in
    rw e

round_up-IsBounded :
    (a : ℤ) (stride : ℕ)
    → 0 < stride
    → pos 0 ≤ℤ a
    → (k : ℕ) × (scale (floor_div (a +ℤ pos stride -ℤ pos 1) stride) stride ≡ pos (k * stride))
      × (a ≤ℤ scale (floor_div (a +ℤ pos stride -ℤ pos 1) stride) stride)
      × (scale (floor_div (a +ℤ pos stride -ℤ pos 1) stride) stride <ℤ a +ℤ pos stride)
round_up-IsBounded (negsuc n) stride h g = absurd (omega arith)
round_up-IsBounded (pos n) stride h g =
    let r = round_up n stride h in
    rw (imgsz_of n stride h) (
      (n + stride - 1) / stride,
      refl,
      omega (arith, r.0),
      omega (arith, r.1, +ℤ_parts (pos n) (pos stride)),
    )

-- The suggested image size is a multiple of the stride, at least the longer edge of the crop and less than a
-- stride above it, if the stride is positive and that edge is not negative.
pub suggested_imgsz_bounds :
    (r : Roi) (stride : ℕ)
    → 0 < stride
    → pos 0 ≤ℤ max_ℤ (crop_width r) (crop_height r)
    → (k : ℕ) × (suggested_imgsz r stride ≡ pos (k * stride))
      × (max_ℤ (crop_width r) (crop_height r) ≤ℤ suggested_imgsz r stride)
      × (suggested_imgsz r stride <ℤ max_ℤ (crop_width r) (crop_height r) +ℤ pos stride)
unfolding suggested_imgsz
suggested_imgsz_bounds r stride h g =
    round_up-IsBounded (max_ℤ (crop_width r) (crop_height r)) stride h g
