-- ===== src/Tests/Loaded.antt =====
-- A configuration file with one lane, loaded.
use traffic_lane_counter.Prelude.Int.{scale, ◌*ℤ◌, ◌-ℤ◌}
use traffic_lane_counter.Prelude.{ℕ, ◌≤◌, ◌<◌, ◌≡◌, refl, some, failed, done, str_dec, string_eq}
use traffic_lane_counter.Prelude.Int.{pos}
use traffic_lane_counter.Loader.{
  Value, int, text, list, dict, end, item, Entries, no_entry, entry, at, as_int,
}
use traffic_lane_counter.Loader.Stages.{Has}
use traffic_lane_counter.Loader.Load.{missing_file, parsed, load_config, load_and_validate_config}
use traffic_lane_counter.Loader.Again.{load_and_validate_config-again}
use traffic_lane_counter.Loader.Windows.{load_config-smooths}

abbrev at_point : ℕ → ℕ → Value
at_point x y = list (item (int (pos x)) (item (int (pos y)) end))

abbrev north : Value
north = dict (
    entry "id" (text "north") (
      entry "points" (list (item (at_point 0 0) (item (at_point 90 0) (item (at_point 90 80) end))))
        (entry "counting_line"
          (dict (
            entry "start" (at_point 10 5)
              (entry "end" (at_point 60 5) (entry "direction_ref" (at_point 60 20) no_entry))))
          no_entry)))

abbrev given : Entries
given =
    entry "frame_size"
      (dict (entry "width" (int (pos 100)) (entry "height" (int (pos 100)) no_entry)))
      (entry "detector" (dict (entry "class_mode" (text "detrac_native") no_entry)) (
        entry "tracking" (dict no_entry) (
          entry "lane_assignment" (dict no_entry) (
            entry "smoothing"
              (dict (
                entry "history_window" (int (pos 4))
                  (entry "min_consecutive_for_change" (int (pos 3)) no_entry)))
              (entry "lanes" (list (item north end)) no_entry)))))

abbrev loaded : Entries
unfolding load_config
loaded = elim (load_config given) [ failed _ ↦ no_entry | done e ↦ e ]

accepts_given : load_config given ≡ done loaded
unfolding load_config load_and_validate_config str_dec scale ◌-ℤ◌ ◌*ℤ◌
accepts_given = refl

accepts_file : load_and_validate_config (parsed (dict given)) ≡ done loaded
unfolding load_config load_and_validate_config str_dec scale ◌-ℤ◌ ◌*ℤ◌
accepts_file = refl

missing : load_and_validate_config missing_file ≡ failed "Configuration file not found."
unfolding load_and_validate_config
missing = refl

load_and_validate_config-again_example :
    load_and_validate_config (parsed (dict loaded)) ≡ done loaded
load_and_validate_config-again_example =
    load_and_validate_config-again (parsed (dict given)) loaded accepts_file

load_config-smooths_example :
    (d : Entries) × (n : ℕ) × (m : ℕ) × Has "smoothing" d loaded
    × (as_int (at "history_window" d) ≡ some (pos n))
    × (as_int (at "min_consecutive_for_change" d) ≡ some (pos m))
    × 0 < m
    × m ≤ n
load_config-smooths_example = load_config-smooths given loaded accepts_given
