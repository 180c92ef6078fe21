-- ===== src/Loader/Sections.antt =====
-- The frame, the class modes and the detector of the configuration, packages/tf_core/io/config_loader.py, in the
-- order of the source.
use traffic_lane_counter.Prelude.{
  Bool, true, false, ◌&&◌, ◌||◌, Option, none, some, List, [], ◌∷◌, String, ◌==◌, string_eq, Result,
  failed, done,
}
use traffic_lane_counter.Prelude.Int.{pos}
use traffic_lane_counter.Loader.{
  Value, bool, int, float, text, list, dict, Values, end, item, Entries, no_entry, entry, ◌>>=◌,
  ◌>>◌, require, get, put, setdefault, setdefaults, at, is_positive_int, is_between, is_text,
  is_nonempty_text, is_one_of, is_list_of, to_entries, section,
}

unfoldable pub load_frame_size : Entries → Result String (Value × Value)
unfolding section is_positive_int at
load_frame_size c = do
  frame_size ←
      section "frame_size" "Missing 'frame_size' section in configuration."
        "'frame_size' must contain 'width' and 'height'." c
  elim (get "width" frame_size) [
    | none ↦ failed "'frame_size' must contain 'width' and 'height'."
    | some width ↦ elim (get "height" frame_size) [
      | none ↦ failed "'frame_size' must contain 'width' and 'height'."
      | some height ↦
          require (is_positive_int width && is_positive_int height)
            "'frame_size' width and height must be positive integers."
          >> done (width, height)
    ]
  ]

unfoldable pub load_coordinate_space : Entries → Result String Entries
unfolding put at setdefault is_one_of
load_coordinate_space c =
    let space : Value = elim (get "coordinate_space" c) [
      | none ↦ text "original_frame"
      | some v ↦ v
    ] in
    require (is_one_of ("original_frame" ∷ []) space) "Unsupported coordinate_space."
    >> done (put "coordinate_space" space c)

-- A list of texts
unfoldable pub texts : List String → Values
texts [] = end
texts (s ∷ ss) = item (text s) (texts ss)

abbrev pub default_class_modes : Value
unfolding texts
default_class_modes = dict (
    entry "coco_pretrained" (list (texts ("bicycle" ∷ "car" ∷ "motorcycle" ∷ "bus" ∷ "truck" ∷ [])))
      (entry "detrac_native" (list (texts ("car" ∷ "van" ∷ "bus" ∷ "others" ∷ []))) no_entry))

unfoldable pub are_class_lists : Entries → Bool
unfolding is_list_of is_text
are_class_lists no_entry = true
are_class_lists (entry mode classes d) = is_list_of is_text classes && are_class_lists d

-- The configuration with its class modes, and these
unfoldable pub load_class_modes : Entries → Result String (Entries × Entries)
unfolding setdefault at to_entries are_class_lists texts
load_class_modes c = do
  let c' = setdefault "class_modes" default_class_modes c
  modes ←
      to_entries "'class_modes' must be a dictionary mapping mode names to list of class names."
        (at "class_modes" c')
  require (are_class_lists modes) "Classes in 'class_modes' must be a list of strings."
  done (c', modes)

-- The section with its defaults, checked
unfoldable pub filled :
    List (String × Value) → (Entries → Result String (Unit {0})) → Entries → Result String Entries
unfolding setdefaults
filled defaults check given = let d = setdefaults defaults given in check d >> done d

abbrev pub detector_defaults : List (String × Value)
detector_defaults =
    ("weights", text "weights/yolo11n.pt")
    ∷ ("imgsz", int (pos 960))
    ∷ ("half", bool true)
    ∷ ("detect_every_n_frames", int (pos 1))
    ∷ ("max_detections", int (pos 300))
    ∷ ("roi_crop", bool true)
    ∷ ("roi_padding", int (pos 80))
    ∷ ("conf", float (pos 220))
    ∷ ("iou", float (pos 500))
    ∷ ("class_mode", text "coco_pretrained")
    ∷ []

-- `class_modes[class_mode]`; a mode that is no text is not there.
unfoldable pub mode_classes : Value → Entries → Option Value
unfolding get
mode_classes (text mode) modes = get mode modes
mode_classes v modes = none

unfoldable pub is_same_text : Value → Value → Bool
is_same_text (text s) (text t) = s == t
is_same_text a b = false

unfoldable pub has_item : Values → Value → Bool
unfolding is_same_text
has_item end v = false
has_item (item w ws) v = is_same_text w v || has_item ws v

-- Is the value one of the texts of the list?
unfoldable pub is_class_of : Value → Value → Bool
unfolding has_item
is_class_of (list ws) v = has_item ws v
is_class_of w v = false

unfoldable pub check_detector : Entries → Result String (Unit {0})
unfolding at is_nonempty_text is_positive_int is_between
check_detector d = do
  require (is_nonempty_text (at "weights" d)) "detector.weights must be a non-empty string."
  require (is_positive_int (at "imgsz" d)) "detector.imgsz must be a positive integer."
  require (is_between (pos 0) (pos 1000) (at "conf" d))
      "detector.conf must be a float between 0.0 and 1.0."
  require (is_between (pos 0) (pos 1000) (at "iou" d))
      "detector.iou must be a float between 0.0 and 1.0."

-- The allowed classes of the detector: those of its mode, if it names none
unfoldable pub allow_classes : Entries → Entries → Result String Entries
unfolding get at put mode_classes is_class_of is_list_of
allow_classes modes d = elim (mode_classes (at "class_mode" d) modes) [
  | none ↦ failed "detector.class_mode is not defined in class_modes."
  | some classes ↦
      let allowed : Value = elim (get "allowed_classes" d) [ none ↦ classes | some v ↦ v ] in
      require (is_list_of (is_class_of classes) allowed)
        "detector.allowed_classes must be a subset of class_modes."
      >> done (put "allowed_classes" allowed d)
]

unfoldable pub load_detector : Entries → Entries → Result String Entries
unfolding filled check_detector allow_classes
load_detector modes given = filled detector_defaults check_detector given >>= allow_classes modes
