-- ===== src/Validators.antt =====
-- packages/tf_core/config/validators.py, on the models of packages/tf_core/config/schemas.py as
-- pydantic has parsed them: a counting line is there a `CountingLineDef`, never a mapping.
pub mod Lanes
pub mod Models
use traffic_lane_counter.Prelude.{
  ℕ, suc, ◌+◌, Bool, true, false, ◌&&◌, ◌||◌, not, Option, none, some, List, [], ◌∷◌, String, ◌==◌,
  string_eq, nat_eq, if◌then◌else◌, ltb, length, Result, failed, done,
}

-- Coordinates: the numbers of the points, which compare to the whole numbers of the frame.
pub record Coordinates : Type 1 where
  pub F : Type 0
  pub of_int : ℕ → F
  pub le : F → F → Bool

pub record FrameSize : Type 0 where
  pub width : ℕ
  pub height : ℕ

pub record ModelVersion : Type 0 where
  pub model_id : String
  pub path : String
  pub class_mode : String

pub record CountingLineDef (F : Type 0) : Type 0 where
  pub start : List F
  pub end : List F
  pub direction_ref : List F

pub record LaneItem (F : Type 0) : Type 0 where
  pub lane_id : String
  pub name : String
  pub polygon : List (List F)
  pub counting_line : Option (CountingLineDef F)

pub record LaneConfig (F : Type 0) : Type 0 where
  pub camera_id : String
  pub frame_size : FrameSize
  pub lanes : List (LaneItem F)

-- The fields of `CameraConfig` that the validation reads.
pub record CameraConfig : Type 0 where
  pub camera_id : String
  pub source_type : String
  pub source : String
  pub frame_size : FrameSize
  pub model_id : String
  pub allowed_classes : Option (List String)
  pub history_window : ℕ
  pub min_consecutive_for_change : ℕ

-- `ConfigError`, by its texts; `missing_mode` is the `KeyError` of `CLASS_MODES[class_mode]`.
pub data ConfigError : Type 0 where
  duplicate_model : String → ConfigError
  unsupported_mode : String → String → ConfigError
  missing_path : String → ConfigError
  duplicate_lane : String → ConfigError
  short_polygon : String → ConfigError
  malformed_point : String → ℕ → ConfigError
  point_outside : String → ℕ → ConfigError
  malformed_line : String → String → ConfigError
  line_outside : String → String → ConfigError
  unknown_model : String → ConfigError
  camera_mismatch : String → String → ConfigError
  size_mismatch : ConfigError
  invalid_classes : List String → String → ConfigError
  missing_mode : String → ConfigError
  long_streak : ConfigError

abbrev pub Check : Type 0
Check = Result ConfigError (Unit {0})

-- One check after the other, up to the first that fails.
abbrev pub and_check : Check → Check → Check
and_check (failed e) next = failed e
and_check (done u) next = next

-- `if not b: raise ConfigError`
abbrev pub require : Bool → ConfigError → Check
require b e = if b then done tt else failed e

-- `CLASS_MODES`
unfoldable pub class_modes : String → Option (List String)
class_modes mode =
    if mode == "coco_pretrained"
    then some ("bicycle" ∷ "car" ∷ "motorcycle" ∷ "bus" ∷ "truck" ∷ [])
    else if mode == "detrac_native"
    then some ("car" ∷ "van" ∷ "bus" ∷ "others" ∷ [])
    else none

-- `name in names`
unfoldable pub is_in : String → List String → Bool
is_in x [] = false
is_in x (y ∷ ys) = if y == x then true else is_in x ys

abbrev pub is_known : String → Bool
is_known mode = elim (class_modes mode) [ none ↦ false | some _ ↦ true ]

-- The loop of `validate_models_config`, with the ids so far; `exists` is the test of a resolved path.
unfoldable pub check_models : (String → Bool) → List String → List ModelVersion → Check
unfolding is_in class_modes
check_models exists ids [] = done tt
check_models exists ids (m ∷ ms) =
    and_check (require (not (is_in m.model_id ids)) (duplicate_model m.model_id)) (
      and_check (require (is_known m.class_mode) (unsupported_mode m.model_id m.class_mode)) (
        and_check (require (exists m.path) (missing_path m.path))
          (check_models exists (m.model_id ∷ ids) ms)))

unfoldable pub validate_models_config : (String → Bool) → List ModelVersion → Check
unfolding check_models
validate_models_config exists models = check_models exists [] models

-- The names that the mode does not support
unfoldable pub unsupported : List String → List String → List String
unfolding is_in
unsupported names [] = []
unsupported names (x ∷ xs) =
    let rest = unsupported names xs in if is_in x names then rest else x ∷ rest

unfoldable pub validate_allowed_classes : List String → String → Check
unfolding class_modes unsupported
validate_allowed_classes classes mode = elim (class_modes mode) [
  | none ↦ failed (missing_mode mode)
  | some names ↦ elim (unsupported names classes) [
    | [] ↦ done tt
    | ◌∷◌ x xs ↦ failed (invalid_classes (x ∷ xs) mode)
  ]
]

-- `next(item for item in models if item.model_id == model_id)`
unfoldable pub find_model : String → List ModelVersion → Option ModelVersion
find_model id [] = none
find_model id (m ∷ ms) = if m.model_id == id then some m else find_model id ms

module _ (v : Coordinates) where
  open v use {F, of_int, le}

  -- `0 <= x <= width and 0 <= y <= height`
  unfoldable pub in_frame : FrameSize → F → F → Bool
  in_frame size x y =
      (le (of_int 0) x && le x (of_int size.width))
      && (le (of_int 0) y && le y (of_int size.height))

  -- A point must have two coordinates, and lie in the frame.
  unfoldable pub check_point : ConfigError → ConfigError → FrameSize → List F → Check
  unfolding in_frame
  check_point malformed outside size (x ∷ y ∷ []) = require (in_frame size x y) outside
  check_point malformed outside size _ = failed malformed

  -- The loop over the points of a polygon, from this index
  unfoldable pub check_points : String → FrameSize → ℕ → List (List F) → Check
  unfolding check_point
  check_points lane size idx [] = done tt
  check_points lane size idx (p ∷ ps) =
      and_check (check_point (malformed_point lane idx) (point_outside lane idx) size p)
        (check_points lane size (idx + 1) ps)

  -- `_validate_counting_line`
  unfoldable pub validate_counting_line : String → Option (CountingLineDef F) → FrameSize → Check
  unfolding check_point
  validate_counting_line lane none size = done tt
  validate_counting_line lane (some l) size =
      and_check (check_point (malformed_line lane "start") (line_outside lane "start") size l.start)
        (and_check (check_point (malformed_line lane "end") (line_outside lane "end") size l.end) (
          check_point (malformed_line lane "direction_ref") (line_outside lane "direction_ref") size
            l.direction_ref))

  -- The body of the loop of `validate_lane_config`, but for the test of the id
  unfoldable pub check_lane : FrameSize → LaneItem F → Check
  unfolding check_points validate_counting_line
  check_lane size l = and_check (require (ltb 2 (length l.polygon)) (short_polygon l.lane_id)) (
      and_check (check_points l.lane_id size 0 l.polygon)
        (validate_counting_line l.lane_id l.counting_line size))

  unfoldable pub check_lanes : FrameSize → List String → List (LaneItem F) → Check
  unfolding is_in check_lane
  check_lanes size ids [] = done tt
  check_lanes size ids (l ∷ ls) =
      and_check (require (not (is_in l.lane_id ids)) (duplicate_lane l.lane_id))
        (and_check (check_lane size l) (check_lanes size (l.lane_id ∷ ids) ls))

  unfoldable pub validate_lane_config : LaneConfig F → Check
  unfolding check_lanes
  validate_lane_config c = check_lanes c.frame_size [] c.lanes

  abbrev pub same_size : FrameSize → FrameSize → Bool
  same_size s t = s.width == t.width && s.height == t.height

  abbrev pub needs_source : String → Bool
  needs_source kind = kind == "video" || kind == "image_dir"

  unfoldable pub validate_camera_config :
      (String → Bool) → CameraConfig → List ModelVersion → LaneConfig F → Check
  unfolding find_model validate_allowed_classes
  validate_camera_config exists c models lanes = elim (find_model c.model_id models) [
    | none ↦ failed (unknown_model c.model_id)
    | some model ↦
        and_check
          (require (not (needs_source c.source_type) || exists c.source) (missing_path c.source))
          (and_check
            (require (lanes.camera_id == c.camera_id) (camera_mismatch lanes.camera_id c.camera_id))
            (and_check (require (same_size c.frame_size lanes.frame_size) size_mismatch) (
              and_check
                (elim c.allowed_classes [
                  | none ↦ done tt
                  | some classes ↦ validate_allowed_classes classes model.class_mode
                ])
                (require (not (ltb c.history_window c.min_consecutive_for_change)) long_streak))))
  ]
