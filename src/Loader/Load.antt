-- ===== src/Loader/Load.antt =====
-- `load_and_validate_config`, packages/tf_core/io/config_loader.py.
use traffic_lane_counter.Prelude.{none, some, String, Result, failed, done}
use traffic_lane_counter.Prelude.Int.{ℤ, pos, scale}
use traffic_lane_counter.Loader.{
  Value, list, dict, Values, Entries, no_entry, ◌>>=◌, ◌>>◌, get, put, setdefault, at, as_int,
  to_entries, section,
}
use traffic_lane_counter.Loader.Sections.{
  load_frame_size, load_coordinate_space, load_class_modes, load_detector, filled,
}
use traffic_lane_counter.Loader.Settings.{
  load_tracking, load_lane_assignment, load_smoothing, load_input, output_defaults, load_counting,
}
use traffic_lane_counter.Loader.Lines.{Size, check_lanes}

-- What stands at the path of the configuration.
pub data File : Type 0 where
  missing_file unparsable : File
  parsed : Value → File

unfoldable pub to_values : String → Value → Result String Values
to_values e (list vs) = done vs
to_values e v = failed e

-- A positive integer of the frame, in thousandths of a pixel
unfoldable pub thousandths : Value → ℤ
unfolding as_int
thousandths v = elim (as_int v) [ none ↦ pos 0 | some n ↦ scale n 1000 ]

-- A section that must be there, loaded in its place
unfoldable pub load_section :
    String → String → String → (Entries → Result String Entries) → Entries → Result String Entries
unfolding section put
load_section k missing wrong load c = do
  given ← section k missing wrong c
  loaded ← load given
  done (put k (dict loaded) c)

-- The sections that must be there, from the smoothing, from the lane assignment, from the tracking, and all
unfoldable pub from_smoothing : Entries → Result String Entries
unfolding load_section load_smoothing
from_smoothing =
    load_section "smoothing" "Missing 'smoothing' section in configuration."
      "'smoothing' section must be a dictionary." load_smoothing

unfoldable pub from_assignment : Entries → Result String Entries
unfolding load_section load_lane_assignment from_smoothing
from_assignment c =
    load_section "lane_assignment" "Missing 'lane_assignment' section in configuration."
      "'lane_assignment' section must be a dictionary." load_lane_assignment c
    >>= from_smoothing

unfoldable pub from_tracking : Entries → Result String Entries
unfolding load_section load_tracking from_assignment
from_tracking c =
    load_section "tracking" "Missing 'tracking' section in configuration."
      "'tracking' section must be a dictionary." load_tracking c
    >>= from_assignment

unfoldable pub load_required : Entries → Entries → Result String Entries
unfolding load_section load_detector from_tracking
load_required modes c =
    load_section "detector" "Missing 'detector' section in configuration."
      "'detector' section must be a dictionary." (load_detector modes) c
    >>= from_tracking

-- A section that may be missing
unfoldable pub load_option :
    String → String → (Entries → Result String Entries) → Entries → Result String Entries
unfolding setdefault at to_entries put
load_option k wrong load c = do
  let c1 = setdefault k (dict no_entry) c
  given ← to_entries wrong (at k c1)
  loaded ← load given
  done (put k (dict loaded) c1)

unfoldable pub no_check : Entries → Result String (Unit {0})
no_check d = done tt

unfoldable pub load_output : Entries → Result String Entries
unfolding load_option filled no_check
load_output =
    load_option "output" "'output' section must be a dictionary." (filled output_defaults no_check)

-- The optional sections `input` and `output`
unfoldable pub load_optional : Entries → Result String Entries
unfolding load_option load_input load_output
load_optional c =
    load_option "input" "'input' section must be a dictionary." load_input c >>= load_output

unfoldable pub check_lane_list : Size → Entries → Result String (Unit {0})
unfolding get to_values check_lanes
check_lane_list size c = elim (get "lanes" c) [
  | none ↦ failed "Missing 'lanes' section in configuration."
  | some v ↦ to_values "'lanes' must be a list." v >>= check_lanes size
]

-- The lanes, and the optional section `counting`
unfoldable pub load_lanes : Size → Entries → Result String Entries
unfolding check_lane_list load_option load_counting
load_lanes size c =
    check_lane_list size c
    >> load_option "counting" "'counting' section must be a dictionary." load_counting c

-- The configuration behind its class modes, with these and the frame's width and height
unfoldable pub load_rest : Value × Value → Entries × Entries → Result String Entries
unfolding load_required load_optional load_lanes thousandths
load_rest (width, height) (c, modes) = do
  c' ← load_required modes c
  c'' ← load_optional c'
  load_lanes (thousandths width, thousandths height) c''

unfoldable pub load_config : Entries → Result String Entries
unfolding load_frame_size load_coordinate_space load_class_modes load_rest
load_config c = do
  size ← load_frame_size c
  c1 ← load_coordinate_space c
  c2 ← load_class_modes c1
  load_rest size c2

unfoldable pub load_and_validate_config : File → Result String Entries
unfolding load_config to_entries
load_and_validate_config missing_file = failed "Configuration file not found."
load_and_validate_config unparsable = failed "Failed to parse YAML configuration."
load_and_validate_config (parsed v) =
    to_entries "Configuration must be a dictionary." v >>= load_config
