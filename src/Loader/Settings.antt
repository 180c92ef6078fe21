-- ===== src/Loader/Settings.antt =====
-- The sections `tracking`, `lane_assignment`, `smoothing`, `input`, `output` and `counting` of the configuration,
-- packages/tf_core/io/config_loader.py: each with its defaults and its checks.
use traffic_lane_counter.Prelude.{
  Bool, true, false, not, none, some, List, [], ◌∷◌, String, string_eq, Result,
}
use traffic_lane_counter.Prelude.Int.{pos, ltb_ℤ}
use traffic_lane_counter.Loader.{
  Value, bool, int, float, text, list, Entries, ◌>>◌, require, at, as_int, as_number,
  is_positive_int, is_natural_int, is_text, is_nonempty_text, is_one_of, is_list_of,
}
use traffic_lane_counter.Loader.Sections.{texts, filled}

abbrev pub tracking_defaults : List (String × Value)
tracking_defaults =
    ("tracker", text "bytetrack.yaml")
    ∷ ("active_track_timeout_frames", int (pos 15))
    ∷ ("min_track_age_frames", int (pos 2))
    ∷ []

unfoldable pub check_tracking : Entries → Result String (Unit {0})
unfolding at is_nonempty_text is_positive_int is_natural_int
check_tracking d = do
  require (is_nonempty_text (at "tracker" d)) "tracking.tracker must be a non-empty string."
  require (is_positive_int (at "active_track_timeout_frames" d))
      "tracking.active_track_timeout_frames must be a positive integer."
  require (is_natural_int (at "min_track_age_frames" d))
      "tracking.min_track_age_frames must be a non-negative integer."

unfoldable pub load_tracking : Entries → Result String Entries
unfolding filled check_tracking
load_tracking = filled tracking_defaults check_tracking

abbrev pub lane_assignment_defaults : List (String × Value)
lane_assignment_defaults =
    ("boundary_mode", text "inside_or_on_edge")
    ∷ ("unknown_policy", text "keep_last_stable")
    ∷ ("unknown_timeout_frames", int (pos 15))
    ∷ []

unfoldable pub check_lane_assignment : Entries → Result String (Unit {0})
unfolding at is_one_of is_positive_int
check_lane_assignment d = do
  require (is_one_of ("inside_or_on_edge" ∷ "inside_only" ∷ []) (at "boundary_mode" d))
      "lane_assignment.boundary_mode must be 'inside_or_on_edge' or 'inside_only'."
  require (is_one_of ("keep_last_stable" ∷ []) (at "unknown_policy" d))
      "lane_assignment.unknown_policy must be 'keep_last_stable'."
  require (is_positive_int (at "unknown_timeout_frames" d))
      "lane_assignment.unknown_timeout_frames must be a positive integer."

unfoldable pub load_lane_assignment : Entries → Result String Entries
unfolding filled check_lane_assignment
load_lane_assignment = filled lane_assignment_defaults check_lane_assignment

abbrev pub smoothing_defaults : List (String × Value)
smoothing_defaults =
    ("method", text "hybrid")
    ∷ ("history_window", int (pos 10))
    ∷ ("min_consecutive_for_change", int (pos 5))
    ∷ []

-- `a > b` for values that are integers
unfoldable pub is_larger : Value → Value → Bool
unfolding as_int
is_larger a b = elim (as_int a) [
  | none ↦ false
  | some m ↦ elim (as_int b) [ none ↦ false | some n ↦ ltb_ℤ n m ]
]

unfoldable pub check_smoothing : Entries → Result String (Unit {0})
unfolding at is_one_of is_positive_int is_larger
check_smoothing d = do
  require (is_one_of ("hybrid" ∷ []) (at "method" d)) "smoothing.method must be 'hybrid'."
  require (is_positive_int (at "history_window" d))
      "smoothing.history_window must be a positive integer."
  require (is_positive_int (at "min_consecutive_for_change" d))
      "smoothing.min_consecutive_for_change must be a positive integer."
  require (not (is_larger (at "min_consecutive_for_change" d) (at "history_window" d)))
      "smoothing.min_consecutive_for_change cannot be larger than smoothing.history_window."

unfoldable pub load_smoothing : Entries → Result String Entries
unfolding filled check_smoothing
load_smoothing = filled smoothing_defaults check_smoothing

abbrev pub input_defaults : List (String × Value)
unfolding texts
input_defaults =
    ("source_type", text "auto")
    ∷ ("image_extensions", list (texts (".jpg" ∷ ".jpeg" ∷ ".png" ∷ [])))
    ∷ ("image_sorting", text "alphabetical")
    ∷ ("fps", int (pos 25))
    ∷ []

unfoldable pub is_positive_number : Value → Bool
unfolding as_number
is_positive_number v = elim (as_number v) [ none ↦ false | some x ↦ ltb_ℤ (pos 0) x ]

unfoldable pub check_input : Entries → Result String (Unit {0})
unfolding at texts is_one_of is_list_of is_text is_positive_number
check_input d = do
  require
      (is_one_of ("auto" ∷ "video" ∷ "image_dir" ∷ "rtsp" ∷ "youtube" ∷ "youtube_live" ∷ [])
        (at "source_type" d))
      "input.source_type must be one of 'auto', 'video', 'image_dir', 'rtsp', 'youtube', or 'youtube_live'."
  require (is_list_of is_text (at "image_extensions" d))
      "input.image_extensions must be a list of strings."
  require (is_one_of ("alphabetical" ∷ []) (at "image_sorting" d))
      "input.image_sorting must be 'alphabetical'."
  require (is_positive_number (at "fps" d)) "input.fps must be a positive number."

unfoldable pub load_input : Entries → Result String Entries
unfolding filled check_input
load_input = filled input_defaults check_input

abbrev pub output_defaults : List (String × Value)
output_defaults =
    ("save_video", bool true)
    ∷ ("save_jsonl", bool true)
    ∷ ("save_csv", bool true)
    ∷ ("video_fps_mode", text "source")
    ∷ []

abbrev pub counting_defaults : List (String × Value)
counting_defaults =
    ("min_cross_distance_px", float (pos 2000)) ∷ ("count_unstable_lane", bool true) ∷ []

unfoldable pub is_nonnegative_number : Value → Bool
unfolding as_number
is_nonnegative_number v = elim (as_number v) [ none ↦ false | some x ↦ not (ltb_ℤ x (pos 0)) ]

unfoldable pub is_bool : Value → Bool
is_bool (bool b) = true
is_bool v = false

unfoldable pub check_counting : Entries → Result String (Unit {0})
unfolding at is_nonnegative_number is_bool
check_counting d = do
  require (is_nonnegative_number (at "min_cross_distance_px" d))
      "counting.min_cross_distance_px must be a non-negative number."
  require (is_bool (at "count_unstable_lane" d)) "counting.count_unstable_lane must be a boolean."

unfoldable pub load_counting : Entries → Result String Entries
unfolding filled check_counting
load_counting = filled counting_defaults check_counting
