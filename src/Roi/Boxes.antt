-- ===== src/Roi/Boxes.antt =====
-- Boxes that come back from the region of interest to the frame.
use traffic_lane_counter.Prelude.{ℕ, ◌<◌, ◌≡◌, ◌⊎◌, some, arith, Bool-cases, true, false, inl, inr}
use traffic_lane_counter.Prelude.Int.{
  ℤ, pos, ◌+ℤ◌, ◌-ℤ◌, ◌≤ℤ◌, ◌<ℤ◌, ltb_ℤ, max_ℤ, min_ℤ, +ℤ_parts, -ℤ_parts, eq_of_parts, int_laws,
}
use traffic_lane_counter.Vision.{Box}
use traffic_lane_counter.Roi.{float, Point, Roi, offset_point, clamp, spread, restore, to_original}
use traffic_lane_counter.Roi.Bounds.{float_parts}

-- `low < high`, both in the frame of this size
abbrev pub IsSpan : ℕ → ℤ × ℤ → Type 0
IsSpan size (a, b) = (pos 0 ≤ℤ a) × (a <ℤ b) × (b ≤ℤ float (pos size))

clamp_bounds :
    (size : ℕ) (x : ℤ) → (pos 0 ≤ℤ clamp (some size) x) × (clamp (some size) x ≤ℤ float (pos size))
unfolding clamp max_ℤ min_ℤ
clamp_bounds size x = ground (arith, float_parts (pos size))

clamp_id : (size : ℕ) (x : ℤ) → pos 0 ≤ℤ x → x ≤ℤ float (pos size) → clamp (some size) x ≡ x
unfolding clamp max_ℤ min_ℤ
clamp_id size x h k = ground (arith, float_parts (pos size))

clamp_low : (size : ℕ) (x : ℤ) → x ≤ℤ pos 0 → clamp (some size) x ≡ pos 0
unfolding clamp max_ℤ min_ℤ
clamp_low size x h = ground (arith, float_parts (pos size))

clamp_high : (size : ℕ) (x : ℤ) → float (pos size) ≤ℤ x → clamp (some size) x ≡ float (pos size)
unfolding clamp max_ℤ min_ℤ
clamp_high size x h = ground (
  arith,
  float_parts (pos size),
  eq_of_parts x (float (pos size)),
  eq_of_parts (pos 0) (float (pos size)),
)

clamp_mono :
    (size : ℕ) (x y : ℤ)
    → x <ℤ y
    → (clamp (some size) x <ℤ clamp (some size) y)
      ⊎ (clamp (some size) x ≡ pos 0)
      ⊎ (clamp (some size) x ≡ float (pos size))
clamp_mono size x y h =
    let s = float (pos size) in
    elim (Bool-cases (ltb_ℤ x s)) [
      | inr e ↦ inr (inr (clamp_high size x (ground arith)))
      | inl e ↦ elim (Bool-cases (ltb_ℤ (pos 0) x)) [
        | inr f ↦ inr (inl (clamp_low size x (ground arith)))
        | inl f ↦ elim (Bool-cases (ltb_ℤ y s)) [
          | inl g ↦ inl (
              rw
                (
                  clamp_id size x (ground arith) (ground arith),
                  clamp_id size y (ground arith) (ground arith),
                )
                h)
          | inr g ↦ inl (
              rw (clamp_id size x (ground arith) (ground arith), clamp_high size y (ground arith))
                (ground arith))
        ]
      ]
    ]

zero_test : (size : ℕ) → 0 < size → ltb_ℤ (pos 0) (float (pos size)) ≡ true
zero_test size h = ground (arith, float_parts (pos size))

same_test : (a : ℤ) → ltb_ℤ a a ≡ false
same_test a = ground arith

spread-IsSpan :
    (size : ℕ) (a b : ℤ)
    → 0 < size
    → pos 0 ≤ℤ a
    → b ≤ℤ float (pos size)
    → (a <ℤ b) ⊎ (a ≡ pos 0) ⊎ (a ≡ float (pos size))
    → IsSpan size (spread (some size) (a, b))
unfolding spread
spread-IsSpan size a b g h k c =
    let s = float (pos size) in
    elim (Bool-cases (ltb_ℤ a b)) [
      | inl e ↦ rw (e, spread) (h, ground arith, k)
      | inr e ↦ elim c [
        | inl l ↦ absurd (ground arith)
        | inr (inl z) ↦
            rw (e, spread, z, zero_test)
              (
                omega arith,
                omega (arith, +ℤ_parts (pos 0) (float (pos 1)), float_parts (pos 1)),
                omega (
                  arith,
                  +ℤ_parts (pos 0) (float (pos 1)),
                  float_parts (pos 1),
                  float_parts (pos size),
                ),
              )
        | inr (inr z) ↦
            rw (e, spread, z, same_test)
              (
                omega (
                  arith,
                  -ℤ_parts s (float (pos 1)),
                  float_parts (pos 1),
                  float_parts (pos size),
                ),
                omega (arith, +ℤ_parts (s -ℤ float (pos 1)) (float (pos 1)), float_parts (pos 1)),
                omega (
                  arith,
                  +ℤ_parts (s -ℤ float (pos 1)) (float (pos 1)),
                  -ℤ_parts s (float (pos 1)),
                ),
              )
      ]
    ]

restore-IsSpan :
    (offset : ℤ) (size : ℕ) (a b : ℤ)
    → 0 < size
    → a <ℤ b
    → IsSpan size (restore offset (some size) (a, b))
unfolding restore
restore-IsSpan offset size a b g h =
    let x = a +ℤ float offset in
    let y = b +ℤ float offset in
    let less : x <ℤ y = omega (arith, +ℤ_parts a (float offset), +ℤ_parts b (float offset)) in
    spread-IsSpan size (clamp (some size) x) (clamp (some size) y) g (clamp_bounds size x).0
      (clamp_bounds size y).1 (clamp_mono size x y less)

back : (x o : ℤ) → x -ℤ o +ℤ o ≡ x
back x o = omega (int_laws, -ℤ_parts x o, +ℤ_parts (x -ℤ o) o)

restore_id :
    (offset : ℤ) (size : ℕ) (a b : ℤ)
    → IsSpan size (a, b)
    → restore offset (some size) (a -ℤ float offset, b -ℤ float offset) ≡ (a, b)
unfolding restore spread
restore_id offset size a b h =
    rw
      (
        back a (float offset),
        back b (float offset),
        clamp_id size a h.0 (omega (arith, h)),
        clamp_id size b (omega (arith, h)) h.2,
      )
      (ground (arith, h))

-- A box that is not empty in the crop comes back as a box that is not empty and lies in the frame, whatever
-- the offset of the crop is, if the frame is not empty.
pub to_original-IsSpan :
    (r : Roi) (width height : ℕ) (b : Box ℤ)
    → 0 < width
    → 0 < height
    → b.xmin <ℤ b.xmax
    → b.ymin <ℤ b.ymax
    → let b' = to_original r (some width) (some height) b in
      IsSpan width (b'.xmin, b'.xmax) × IsSpan height (b'.ymin, b'.ymax)
unfolding to_original
to_original-IsSpan r width height b g h k l =
    (restore-IsSpan r.x1 width b.xmin b.xmax g k, restore-IsSpan r.y1 height b.ymin b.ymax h l)

-- The box between two points of the frame, the first above and to the left of the second, is moved to the crop
-- as the configuration's points are, and comes back unchanged.
pub to_original-offset_point :
    (r : Roi) (width height : ℕ) (p q : Point)
    → IsSpan width (p.0, q.0)
    → IsSpan height (p.1, q.1)
    → let p' = offset_point r p in
      let q' = offset_point r q in
      to_original r
        (some width)
        (some height)
        (record { xmin = p'.0; ymin = p'.1; xmax = q'.0; ymax = q'.1 })
      ≡ record { xmin = p.0; ymin = p.1; xmax = q.0; ymax = q.1 }
unfolding to_original offset_point
to_original-offset_point r width height p q h k =
    rw (restore_id r.x1 width p.0 q.0 h, restore_id r.y1 height p.1 q.1 k)
