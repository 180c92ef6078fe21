-- ===== src/Validators/Lanes.antt =====
-- Which lane configurations the validation accepts.
use traffic_lane_counter.Prelude.{
  ℕ, ◌+◌, ◌<◌, ◌≡◌, ◌↔◌, refl, Bool, true, false, ◌&&◌, not, Option, none, some, List, [], ◌∷◌,
  String, string_eq, ltb, map, length, failed, done, arith, All,
}
use traffic_lane_counter.Validators.{
  Coordinates, FrameSize, CountingLineDef, LaneItem, LaneConfig, ConfigError, malformed_point,
  point_outside, malformed_line, line_outside, short_polygon, duplicate_lane, Check, and_check,
  require, is_in, in_frame, check_point, check_points, validate_counting_line, check_lane,
  check_lanes, validate_lane_config,
}

-- No two lanes have the same id, and none has one of these.
abbrev pub AreDistinct : List String → List String → Type 0
AreDistinct ids [] = Unit {0}
AreDistinct ids (x ∷ xs) = (is_in x ids ≡ false) × AreDistinct (x ∷ ids) xs

pub and_check_iff : (a b : Check) → (and_check a b ≡ done tt) ↔ ((a ≡ done tt) × (b ≡ done tt))
and_check_iff (failed e) b = (λ h. absurd (cc h), λ h. absurd (cc h.0))
and_check_iff (done tt) b = (λ h. (refl, h), λ h. h.1)

pub require_iff : (b : Bool) (e : ConfigError) → (require b e ≡ done tt) ↔ (b ≡ true)
require_iff true e = (λ h. refl, λ h. refl)
require_iff false e = (λ h. absurd (cc h), λ h. absurd (cc h))

four :
    (a b c d : Bool)
    → (((a && b) && (c && d)) ≡ true) ↔ ((a ≡ true) × (b ≡ true) × (c ≡ true) × (d ≡ true))
four true true true d = (λ h. (refl, refl, refl, h), λ h. h.3)
four true true false d = (λ h. cc, λ h. h.2)
four true false c d = (λ h. cc, λ h. h.1)
four false b c d = (λ h. cc, λ h. h.0)

module _ (v : Coordinates) where
  open v use {F, of_int, le}

  -- A point of two coordinates: the first from 0 to the width, the second from 0 to the height.
  abbrev pub IsPoint : FrameSize → List F → Type 0
  IsPoint size (x ∷ y ∷ []) =
      (le (of_int 0) x ≡ true)
      × (le x (of_int size.width) ≡ true)
      × (le (of_int 0) y ≡ true)
      × (le y (of_int size.height) ≡ true)
  IsPoint size _ = ⊥

  abbrev pub IsLine : FrameSize → Option (CountingLineDef F) → Type 0
  IsLine size none = Unit {0}
  IsLine size (some l) = IsPoint size l.start × IsPoint size l.end × IsPoint size l.direction_ref

  -- A polygon of at least three points in the frame, and the points of the counting line in it.
  abbrev pub IsLane : FrameSize → LaneItem F → Type 0
  IsLane size l =
      (2 < length l.polygon) × All (IsPoint size) l.polygon × IsLine size l.counting_line

  in_frame_iff :
      (size : FrameSize) (x y : F) → (in_frame v size x y ≡ true) ↔ IsPoint size (x ∷ y ∷ [])
  unfolding in_frame
  in_frame_iff size x y =
      four (le (of_int 0) x) (le x (of_int size.width)) (le (of_int 0) y)
        (le y (of_int size.height))

  check_point_iff :
      (a b : ConfigError) (size : FrameSize) (p : List F)
      → (check_point v a b size p ≡ done tt) ↔ IsPoint size p
  unfolding check_point
  check_point_iff a b size [] = (λ h. absurd (cc h), λ h. absurd h)
  check_point_iff a b size (x ∷ []) = (λ h. absurd (cc h), λ h. absurd h)
  check_point_iff a b size (x ∷ y ∷ []) =
      let accepted = require_iff (in_frame v size x y) b in
      let inside = in_frame_iff size x y in
      (λ h. inside.0 (accepted.0 h), λ h. accepted.1 (inside.1 h))
  check_point_iff a b size (x ∷ y ∷ z ∷ p) = (λ h. absurd (cc h), λ h. absurd h)

  check_points_iff :
      (lane : String) (size : FrameSize) (idx : ℕ) (ps : List (List F))
      → (check_points v lane size idx ps ≡ done tt) ↔ All (IsPoint size) ps
  unfolding check_points
  check_points_iff lane size idx [] = (λ h. tt, λ h. refl)
  check_points_iff lane size idx (p ∷ ps) =
      let both =
        and_check_iff (check_point v (malformed_point lane idx) (point_outside lane idx) size p)
          (check_points v lane size (idx + 1) ps) in
      let one = check_point_iff (malformed_point lane idx) (point_outside lane idx) size p in
      let more = check_points_iff lane size (idx + 1) ps in
      (λ h. (one.0 (both.0 h).0, more.0 (both.0 h).1), λ h. both.1 (one.1 h.0, more.1 h.1))

  validate_counting_line_iff :
      (lane : String) (size : FrameSize) (l : Option (CountingLineDef F))
      → (validate_counting_line v lane l size ≡ done tt) ↔ IsLine size l
  unfolding validate_counting_line
  validate_counting_line_iff lane size none = (λ h. tt, λ h. refl)
  validate_counting_line_iff lane size (some l) =
      let point = λ (name : String) (p : List F).
        check_point_iff (malformed_line lane name) (line_outside lane name) size p in
      let check = λ (name : String) (p : List F).
        check_point v (malformed_line lane name) (line_outside lane name) size p in
      let late = and_check_iff (check "end" l.end) (check "direction_ref" l.direction_ref) in
      let all =
        and_check_iff (check "start" l.start)
          (and_check (check "end" l.end) (check "direction_ref" l.direction_ref)) in
      (
        λ h.
            let (a, b) = all.0 h in
            let (c, d) = late.0 b in
            (
              (point "start" l.start).0 a,
              (point "end" l.end).0 c,
              (point "direction_ref" l.direction_ref).0 d,
            ),
        λ h. all.1 (
          (point "start" l.start).1 h.0,
          late.1 ((point "end" l.end).1 h.1, (point "direction_ref" l.direction_ref).1 h.2),
        ),
      )

  check_lane_iff :
      (size : FrameSize) (l : LaneItem F) → (check_lane v size l ≡ done tt) ↔ IsLane size l
  unfolding check_lane
  check_lane_iff size l =
      let first = require_iff (ltb 2 (length l.polygon)) (short_polygon l.lane_id) in
      let points = check_points_iff l.lane_id size 0 l.polygon in
      let line = validate_counting_line_iff l.lane_id size l.counting_line in
      let late =
        and_check_iff (check_points v l.lane_id size 0 l.polygon)
          (validate_counting_line v l.lane_id l.counting_line size) in
      let all = and_check_iff (require (ltb 2 (length l.polygon)) (short_polygon l.lane_id)) (
        and_check (check_points v l.lane_id size 0 l.polygon)
          (validate_counting_line v l.lane_id l.counting_line size)) in
      (
        λ h.
            let (a, b) = all.0 h in
            let (c, d) = late.0 b in
            let three : ltb 2 (length l.polygon) ≡ true = first.0 a in
            (ground arith, points.0 c, line.0 d),
        λ h.
            let three : ltb 2 (length l.polygon) ≡ true = ground (arith, h.0) in
            all.1 (first.1 three, late.1 (points.1 h.1, line.1 h.2)),
      )

  check_lanes_iff :
      (size : FrameSize) (ids : List String) (ls : List (LaneItem F))
      → (check_lanes v size ids ls ≡ done tt)
        ↔ (AreDistinct ids (map (λ l. l.lane_id) ls) × All (IsLane size) ls)
  unfolding check_lanes
  check_lanes_iff size ids [] = (λ h. (tt, tt), λ h. refl)
  check_lanes_iff size ids (l ∷ ls) =
      let new = require_iff (not (is_in l.lane_id ids)) (duplicate_lane l.lane_id) in
      let lane = check_lane_iff size l in
      let more = check_lanes_iff size (l.lane_id ∷ ids) ls in
      let late = and_check_iff (check_lane v size l) (check_lanes v size (l.lane_id ∷ ids) ls) in
      let all =
        and_check_iff (require (not (is_in l.lane_id ids)) (duplicate_lane l.lane_id))
          (and_check (check_lane v size l) (check_lanes v size (l.lane_id ∷ ids) ls)) in
      (
        λ h.
            let (a, b) = all.0 h in
            let (c, d) = late.0 b in
            let rest = more.0 d in
            let fresh = new.0 a in ((ground (arith, fresh), rest.0), (lane.0 c, rest.1)),
        λ h.
            let fresh : not (is_in l.lane_id ids) ≡ true = ground (arith, h.0.0) in
            all.1 (new.1 fresh, late.1 (lane.1 h.1.0, more.1 (h.0.1, h.1.1))),
      )

  -- The validation accepts a lane configuration exactly when the ids of its lanes are distinct, and each lane has a
  -- polygon of at least three points and, if any, a counting line, all of whose points have two coordinates, x from
  -- 0 to the width of the frame and y from 0 to its height.
  pub validate_lane_config_iff :
      (c : LaneConfig F)
      → (validate_lane_config v c ≡ done tt)
        ↔ (AreDistinct [] (map (λ l. l.lane_id) c.lanes) × All (IsLane c.frame_size) c.lanes)
  unfolding validate_lane_config
  validate_lane_config_iff c = check_lanes_iff c.frame_size [] c.lanes
