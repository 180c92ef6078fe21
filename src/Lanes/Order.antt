-- ===== src/Lanes/Order.antt =====
-- The search of `LaneAssigner.assign_lane` in the order of the configuration.
use traffic_lane_counter.Prelude.{
  ◌≡◌, ◌≢◌, refl, ap, ◌⊎◌, inl, inr, true, false, ◌==◌, List, [], ◌∷◌, ◌++◌, String, string_eq,
  arith, All, Bool-cases,
}
use traffic_lane_counter.Vision.{Vision, Box, Side, outside, on_edge, inside}
use traffic_lane_counter.Lanes.{Lane, LaneAssigner, accepts, first_lane, assign_lane, ground_point}

-- One of the lanes has this id.
abbrev pub HasLane : {F P : Type 0} → String → List (Lane F P) → Type 0
HasLane x [] = ⊥
HasLane x (l ∷ ls) = (l.id ≡ x) ⊎ HasLane x ls

-- `unknown`, or the id of a lane of the assigner.
abbrev pub IsRawLane : {F P : Type 0} → LaneAssigner F P → String → Type 0
IsRawLane a x = (x ≡ "unknown") ⊎ HasLane x a.lanes

-- In the mode `inside_or_on_edge` a point is accepted unless it is outside, in the mode `inside_only` where it is
-- inside, and in no other mode.
abbrev pub AcceptsSide : String → Side → Type 0
AcceptsSide mode side =
    ((mode ≡ "inside_or_on_edge") × (side ≢ outside)) ⊎ ((mode ≡ "inside_only") × (side ≡ inside))

accepts-AcceptsSide :
    (mode : String) (side : Side) → accepts mode side ≡ true → AcceptsSide mode side
unfolding accepts
accepts-AcceptsSide mode outside h = cc
accepts-AcceptsSide mode on_edge h = inl (ground arith, λ e. cc)
accepts-AcceptsSide mode inside h = elim (Bool-cases (mode == "inside_or_on_edge")) [
  | inl t ↦ inl (ground (arith, t), λ e. cc)
  | inr n ↦ inr (ground (arith, n, h), refl)
]

accepts-refuses :
    (mode : String) (side : Side) → accepts mode side ≡ false → ¬ AcceptsSide mode side
unfolding accepts
accepts-refuses mode outside h (inl (m, s)) = s refl
accepts-refuses mode outside h (inr (m, s)) = cc
accepts-refuses mode on_edge h (inl (m, s)) = ground (arith, m, h)
accepts-refuses mode on_edge h (inr (m, s)) = cc
accepts-refuses mode inside h (inl (m, s)) = ground (arith, m, h)
accepts-refuses mode inside h (inr (m, s)) = ground (arith, m, h)

module _ (v : Vision) where
  open v use {F, Polygon, add, half, point_polygon_test}

  abbrev pub Accepts : String → F × F → Lane F Polygon → Type 0
  Accepts mode pt l = AcceptsSide mode (point_polygon_test l.polygon pt)

  -- The answers that the order of the lanes allows.
  pub data Assigned (mode : String) (pt : F × F) (lanes : List (Lane F Polygon))
      : String → Type 0 where
    nowhere : All (λ l. ¬ Accepts mode pt l) lanes → Assigned mode pt lanes "unknown"
    first :
        (before : List (Lane F Polygon)) (l : Lane F Polygon) (after : List (Lane F Polygon))
        → lanes ≡ before ++ l ∷ after
        → All (λ k. ¬ Accepts mode pt k) before
        → Accepts mode pt l
        → Assigned mode pt lanes l.id

  Assigned-cons :
      (mode : String) (pt : F × F) (l : Lane F Polygon) (ls : List (Lane F Polygon)) (r : String)
      → ¬ Accepts mode pt l
      → Assigned mode pt ls r
      → Assigned mode pt (l ∷ ls) r
  Assigned-cons mode pt l ls r n (nowhere h) = nowhere (n, h)
  Assigned-cons mode pt l ls r n (first before k after e h p) =
      first (l ∷ before) k after (ap (◌∷◌ l) e) (n, h) p

  first_lane-Assigned :
      (mode : String) (pt : F × F) (ls : List (Lane F Polygon))
      → Assigned mode pt ls (first_lane v mode pt ls)
  unfolding first_lane
  first_lane-Assigned mode pt [] = nowhere tt
  first_lane-Assigned mode pt (l ∷ ls) =
      elim (Bool-cases (accepts mode (point_polygon_test l.polygon pt))) [
        | inl hit ↦ rw hit (first [] l ls refl tt (accepts-AcceptsSide mode _ hit))
        | inr miss ↦ rw miss (
            Assigned-cons mode pt l ls _ (accepts-refuses mode _ miss)
              (first_lane-Assigned mode pt ls))
      ]

  -- A box is assigned to the first lane, in the order of the configuration, whose polygon accepts the point halfway
  -- between its left and right edges on its bottom edge, and is `unknown` if none does. With the mode
  -- `inside_or_on_edge` a polygon accepts every point that is not outside of it, with `inside_only` the points inside.
  pub assign_lane-Assigned :
      (a : LaneAssigner F Polygon) (b : Box F)
      → Assigned a.boundary_mode (half (add b.xmin b.xmax), b.ymax) a.lanes (assign_lane v a b)
  unfolding assign_lane
  assign_lane-Assigned a b = first_lane-Assigned a.boundary_mode (ground_point v b) a.lanes

  first_lane-IsRawLane :
      (mode : String) (pt : F × F) (ls : List (Lane F Polygon))
      → (first_lane v mode pt ls ≡ "unknown") ⊎ HasLane (first_lane v mode pt ls) ls
  unfolding first_lane
  first_lane-IsRawLane mode pt [] = inl refl
  first_lane-IsRawLane mode pt (l ∷ ls) = ground (arith, first_lane-IsRawLane mode pt ls)

  pub assign_lane-IsRawLane :
      (a : LaneAssigner F Polygon) (b : Box F) → IsRawLane a (assign_lane v a b)
  unfolding assign_lane
  assign_lane-IsRawLane a b = first_lane-IsRawLane a.boundary_mode (ground_point v b) a.lanes
