-- ===== src/Loader/Again.antt =====
-- An accepted configuration, packages/tf_core/io/config_loader.py: it is complete, and loads again as it is.
use traffic_lane_counter.Prelude.{◌≡◌, refl, ◌∙◌, str_dec, List, [], ◌∷◌, String, string_eq, done}
use traffic_lane_counter.Loader.{Value, dict, to_entries, Entries, ◌>>=◌}
use traffic_lane_counter.Loader.Sections.{
  load_frame_size, load_coordinate_space, load_class_modes, load_detector, filled,
}
use traffic_lane_counter.Loader.Settings.{
  load_tracking, load_lane_assignment, load_smoothing, load_input, load_counting, tracking_defaults,
  check_tracking, lane_assignment_defaults, check_lane_assignment, smoothing_defaults,
  check_smoothing, input_defaults, check_input, output_defaults, counting_defaults, check_counting,
}
use traffic_lane_counter.Loader.Lines.{Size}
use traffic_lane_counter.Loader.Load.{
  thousandths, from_smoothing, from_assignment, from_tracking, load_required, no_check, load_output,
  load_optional, load_lanes, load_rest, load_config, File, missing_file, unparsable, parsed,
  load_and_validate_config,
}
use traffic_lane_counter.Loader.Filled.{
  >>=-eq-done, filled-IsFilled, filled_again, load_detector_again,
}
use traffic_lane_counter.Loader.Stages.{load_section_again, load_option_again}
use traffic_lane_counter.Loader.Trail.{Trail, get-Trail, lanes_same, required_inv, rest_inv}
use traffic_lane_counter.Loader.Accepts.{
  IsLoaded, frame_size_same, space_loads, modes_load, space_again, modes_again,
}

-- The keys that loading writes from one step on, in its order
abbrev from_counting : List String
from_counting = "counting" ∷ []

abbrev from_output : List String
from_output = "output" ∷ from_counting

abbrev from_input : List String
from_input = "input" ∷ from_output

abbrev from_smooth : List String
from_smooth = "smoothing" ∷ from_input

abbrev from_lane : List String
from_lane = "lane_assignment" ∷ from_smooth

abbrev from_track : List String
from_track = "tracking" ∷ from_lane

abbrev from_detector : List String
from_detector = "detector" ∷ from_track

abbrev from_modes : List String
from_modes = "class_modes" ∷ from_detector

abbrev all_keys : List String
all_keys = "coordinate_space" ∷ from_modes

pub load_config-IsLoaded : (c e : Entries) → load_config c ≡ done e → IsLoaded e
unfolding load_config load_tracking load_lane_assignment load_smoothing load_input load_counting
    str_dec
load_config-IsLoaded c e h =
    let (size, hs, r1) =
      >>=-eq-done (load_frame_size c)
        (λ (size : Value × Value).
          load_coordinate_space c >>= λ c1. load_class_modes c1 >>= load_rest size)
        h in
    let (c1, h1, r2) =
      >>=-eq-done (load_coordinate_space c) (λ c1. load_class_modes c1 >>= load_rest size) r1 in
    let ((c2, modes), h2, r3) = >>=-eq-done (load_class_modes c1) (load_rest size) r2 in
    let frame : Size = (thousandths size.0, thousandths size.1) in
    let (
      c6,
      c7,
      c8,
      rq,
      (inp, inp', li, hi, ki),
      (out, out', lo, ho, ko),
      lanes,
      (cnt, cnt', lc, hc, kc),
    ) =
      rest_inv size c2 modes e r3 in
    let (
      c3,
      c4,
      c5,
      (det, det', ld, hd, kd),
      (trk, trk', lt, ht, kt),
      (asg, asg', la, ha, ka),
      (smo, smo', lm, hm, km),
    ) =
      required_inv modes c2 c6 rq in
    let (space, found, allowed, ks) = space_loads c h1 in
    let (has_modes, lists, kl) = modes_load c1 h2 in
    let t8 : Trail from_counting c8 e = (e, kc, refl) in
    let t7 : Trail from_output c7 e = (c8, ko, t8) in
    let t6 : Trail from_input c6 e = (c7, ki, t7) in
    let t5 : Trail from_smooth c5 e = (c6, km, t6) in
    let t4 : Trail from_lane c4 e = (c5, ka, t5) in
    let t3 : Trail from_track c3 e = (c4, kt, t4) in
    let t2 : Trail from_detector c2 e = (c3, kd, t3) in
    let t1 : Trail from_modes c1 e = (c2, kl, t2) in
    let t0 : Trail all_keys c e = (c1, ks, t1) in
    record {
      size = size;
      mode_lists = modes;
      detector = det;
      tracking = trk;
      assignment = asg;
      smoothing = smo;
      input = inp;
      output = out;
      counting = cnt;
      has_size = frame_size_same c e (get-Trail all_keys "frame_size" c e t0 refl) ∙ hs;
      has_space =
          space_again e space (get-Trail from_modes "coordinate_space" c1 e t1 refl ∙ found)
            allowed;
      has_modes =
          modes_again e modes (get-Trail from_detector "class_modes" c2 e t2 refl ∙ has_modes)
            lists;
      has_detector = get-Trail from_track "detector" c3 e t3 refl ∙ hd;
      detector_loads = load_detector_again modes det' ld;
      has_tracking = get-Trail from_lane "tracking" c4 e t4 refl ∙ ht;
      tracking_filled = filled-IsFilled tracking_defaults check_tracking trk' lt;
      has_assignment = get-Trail from_smooth "lane_assignment" c5 e t5 refl ∙ ha;
      assignment_filled = filled-IsFilled lane_assignment_defaults check_lane_assignment asg' la;
      has_smoothing = get-Trail from_input "smoothing" c6 e t6 refl ∙ hm;
      smoothing_filled = filled-IsFilled smoothing_defaults check_smoothing smo' lm;
      has_input = get-Trail from_output "input" c7 e t7 refl ∙ hi;
      input_filled = filled-IsFilled input_defaults check_input inp' li;
      has_output = get-Trail from_counting "output" c8 e t8 refl ∙ ho;
      output_filled = filled-IsFilled output_defaults no_check out' lo;
      has_lanes = lanes_same frame c8 e (get-Trail from_counting "lanes" c8 e t8 refl) ∙ lanes;
      has_counting = hc;
      counting_filled = filled-IsFilled counting_defaults check_counting cnt' lc;
    }

pub load_config_again : (e : Entries) → IsLoaded e → load_config e ≡ done e
unfolding load_config load_rest load_required from_tracking from_assignment from_smoothing
    load_optional load_output load_lanes load_tracking load_lane_assignment load_smoothing
    load_input load_counting
load_config_again e l =
    let detector_again =
      load_section_again (load_detector l.mode_lists) "detector"
        "Missing 'detector' section in configuration." "'detector' section must be a dictionary."
        l.detector e l.has_detector l.detector_loads in
    let tracking_again =
      load_section_again load_tracking "tracking" "Missing 'tracking' section in configuration."
        "'tracking' section must be a dictionary." l.tracking e l.has_tracking
        (filled_again tracking_defaults check_tracking l.tracking l.tracking_filled) in
    let assignment_again =
      load_section_again load_lane_assignment "lane_assignment"
        "Missing 'lane_assignment' section in configuration."
        "'lane_assignment' section must be a dictionary." l.assignment e l.has_assignment
        (filled_again lane_assignment_defaults check_lane_assignment l.assignment
          l.assignment_filled) in
    let smoothing_again =
      load_section_again load_smoothing "smoothing" "Missing 'smoothing' section in configuration."
        "'smoothing' section must be a dictionary." l.smoothing e l.has_smoothing
        (filled_again smoothing_defaults check_smoothing l.smoothing l.smoothing_filled) in
    let input_again =
      load_option_again load_input "input" "'input' section must be a dictionary." l.input e
        l.has_input (filled_again input_defaults check_input l.input l.input_filled) in
    let output_again =
      load_option_again (filled output_defaults no_check) "output"
        "'output' section must be a dictionary." l.output e l.has_output
        (filled_again output_defaults no_check l.output l.output_filled) in
    let counting_again =
      load_option_again load_counting "counting" "'counting' section must be a dictionary."
        l.counting e l.has_counting
        (filled_again counting_defaults check_counting l.counting l.counting_filled) in
    rw (l.has_size, load_config)
      (rw l.has_space (
        rw l.has_modes (
          rw (detector_again, load_required)
            (rw tracking_again (
              rw assignment_again (
                rw smoothing_again
                  (rw input_again (rw output_again (rw l.has_lanes counting_again)))))))))

accepted_inv :
    (f : File) (e : Entries)
    → load_and_validate_config f ≡ done e
    → (c : Entries) × (load_config c ≡ done e)
unfolding load_and_validate_config
accepted_inv missing_file e h = cc
accepted_inv unparsable e h = cc
accepted_inv (parsed v) e h =
    let (c, found, loads) =
      >>=-eq-done (to_entries "Configuration must be a dictionary." v) load_config h in
    (c, loads)

-- A configuration that `load_and_validate_config` returns for any file is a fixed point of it: loading a file that
-- holds this configuration returns it, with no default added and no check failing.
pub load_and_validate_config-again :
    (f : File) (e : Entries)
    → load_and_validate_config f ≡ done e
    → load_and_validate_config (parsed (dict e)) ≡ done e
unfolding load_and_validate_config to_entries
load_and_validate_config-again f e h =
    let (c, loads) = accepted_inv f e h in load_config_again e (load_config-IsLoaded c e loads)
