-- ===== src/Loader/Accepts.antt =====
-- What an accepted configuration is.
use traffic_lane_counter.Prelude.{
  ◌≡◌, refl, ◌∙◌, sym, subst, ap, inl, inr, true, none, some, [], ◌∷◌, String, string_eq, arith,
  Result, done, Option-cases, Bool-cases,
}
use traffic_lane_counter.Loader.{
  Value, null, bool, int, float, text, list, dict, Entries, ◌>>◌, require, get, put, at, setdefault,
  to_entries, section, is_one_of,
}
use traffic_lane_counter.Loader.Sections.{
  load_frame_size, load_coordinate_space, load_class_modes, default_class_modes, are_class_lists,
  load_detector,
}
use traffic_lane_counter.Loader.Settings.{
  tracking_defaults, check_tracking, lane_assignment_defaults, check_lane_assignment,
  smoothing_defaults, check_smoothing, input_defaults, check_input, output_defaults,
  counting_defaults, check_counting,
}
use traffic_lane_counter.Loader.Load.{thousandths, no_check, check_lane_list}
use traffic_lane_counter.Loader.Defaults.{get-put, put_same, get-setdefault}
use traffic_lane_counter.Loader.Filled.{>>=-eq-done, IsFilled}
use traffic_lane_counter.Loader.Stages.{Has, Keeps, put-Keeps, setdefault-Keeps}

-- The configuration is complete and checked: a positive frame size, the coordinate space, class modes, each section
-- with all its defaults and passing its checks, the output's defaults, and lanes that pass in the frame.
pub record IsLoaded (c : Entries) : Type 0 where
  pub size : Value × Value
  pub mode_lists : Entries
  pub detector : Entries
  pub tracking : Entries
  pub assignment : Entries
  pub smoothing : Entries
  pub input : Entries
  pub output : Entries
  pub counting : Entries
  pub has_size : load_frame_size c ≡ done size
  pub has_space : load_coordinate_space c ≡ done c
  pub has_modes : load_class_modes c ≡ done (c, mode_lists)
  pub has_detector : Has "detector" detector c
  pub detector_loads : load_detector mode_lists detector ≡ done detector
  pub has_tracking : Has "tracking" tracking c
  pub tracking_filled : IsFilled tracking_defaults check_tracking tracking
  pub has_assignment : Has "lane_assignment" assignment c
  pub assignment_filled : IsFilled lane_assignment_defaults check_lane_assignment assignment
  pub has_smoothing : Has "smoothing" smoothing c
  pub smoothing_filled : IsFilled smoothing_defaults check_smoothing smoothing
  pub has_input : Has "input" input c
  pub input_filled : IsFilled input_defaults check_input input
  pub has_output : Has "output" output c
  pub output_filled : IsFilled output_defaults no_check output
  pub has_lanes : check_lane_list (thousandths size.0, thousandths size.1) c ≡ done tt
  pub has_counting : Has "counting" counting c
  pub counting_filled : IsFilled counting_defaults check_counting counting

-- What the first three steps read, they read the same where their keys are the same.
pub frame_size_same :
    (c e : Entries)
    → get "frame_size" e ≡ get "frame_size" c
    → load_frame_size e ≡ load_frame_size c
unfolding load_frame_size section
frame_size_same c e h = rw (h, section)

abbrev space_of : Entries → Value
space_of c = elim (get "coordinate_space" c) [ none ↦ text "original_frame" | some v ↦ v ]

pub space_loads :
    (c : Entries) {e : Entries}
    → load_coordinate_space c ≡ done e
    → (v : Value) × (get "coordinate_space" e ≡ some v)
      × (is_one_of ("original_frame" ∷ []) v ≡ true)
      × Keeps "coordinate_space" c e
unfolding load_coordinate_space
space_loads c {e} h =
    let k : String = "coordinate_space" in
    let v = space_of c in
    elim (Bool-cases (is_one_of ("original_frame" ∷ []) v)) [
      | inr t ↦ absurd (cc (rw (t, load_coordinate_space) at h))
      | inl t ↦
          let same : put k v c ≡ e = cc (rw (t, load_coordinate_space) at h) in
          (
            v,
            subst (λ x. get k x ≡ some v) same (ground (arith, get-put k k v c)),
            t,
            subst (Keeps k c) same (put-Keeps k v c),
          )
    ]

default_there :
    (k : String) (v : Value) (c : Entries) → (w : Value) × (get k (setdefault k v c) ≡ some w)
default_there k v c = elim (Option-cases (get k c)) [
  | inl e ↦ (v, ground (arith, e, get-setdefault k k v c))
  | inr (w, e) ↦ (w, ground (arith, e, get-setdefault k k v c))
]

to_entries-inv :
    (wrong : String) (v : Value) {d : Entries} → to_entries wrong v ≡ done d → v ≡ dict d
unfolding to_entries
to_entries-inv wrong null h = cc
to_entries-inv wrong (bool b) h = cc
to_entries-inv wrong (int n) h = cc
to_entries-inv wrong (float x) h = cc
to_entries-inv wrong (text s) h = cc
to_entries-inv wrong (list vs) h = cc
to_entries-inv wrong (dict d) h = cc

abbrev keep_modes : Entries → Entries → Result String (Entries × Entries)
keep_modes c m =
    require (are_class_lists m) "Classes in 'class_modes' must be a list of strings." >> done (c, m)

keep_modes-inv :
    (c m : Entries) {e : Entries} {modes : Entries}
    → keep_modes c m ≡ done (e, modes)
    → (are_class_lists m ≡ true) × (c ≡ e) × (m ≡ modes)
keep_modes-inv c m {e} {modes} h = elim (Bool-cases (are_class_lists m)) [
  | inl t ↦
      let before : Entries × Entries = (c, m) in
      let after : Entries × Entries = (e, modes) in
      let both : before ≡ after = cc (rw t at h) in (t, ap (λ x. x.0) both, ap (λ x. x.1) both)
  | inr t ↦ absurd (cc (rw t at h))
]

pub modes_load :
    (c : Entries) {e : Entries} {modes : Entries}
    → load_class_modes c ≡ done (e, modes)
    → Has "class_modes" modes e × (are_class_lists modes ≡ true) × Keeps "class_modes" c e
unfolding load_class_modes
modes_load c {e} {modes} h =
    let k : String = "class_modes" in
    let c' = setdefault k default_class_modes c in
    let (w, there) = default_there k default_class_modes c in
    let wrong : String =
      "'class_modes' must be a dictionary mapping mode names to list of class names." in
    let (m, found, rest) =
      >>=-eq-done (to_entries wrong (at k c')) (λ (m : Entries). keep_modes c' m) h in
    let (t, e', m') = keep_modes-inv c' m rest in
    let is_dict : w ≡ dict m = sym (rw (there, at) refl) ∙ to_entries-inv wrong (at k c') found in
    let stands : Has k m c' = there ∙ ap some is_dict in
    (
      subst (λ x. Has k modes x) e' (subst (λ x. Has k x c') m' stands),
      subst (λ x. are_class_lists x ≡ true) m' t,
      subst (Keeps k c) e' (setdefault-Keeps k default_class_modes c),
    )

pub space_again :
    (c : Entries) (v : Value)
    → get "coordinate_space" c ≡ some v
    → is_one_of ("original_frame" ∷ []) v ≡ true
    → load_coordinate_space c ≡ done c
unfolding load_coordinate_space
space_again c v h t = rw (h, load_coordinate_space) (rw t (ap done (put_same _ v c h)))

pub modes_again :
    (c modes : Entries)
    → Has "class_modes" modes c
    → are_class_lists modes ≡ true
    → load_class_modes c ≡ done (c, modes)
unfolding load_class_modes setdefault at to_entries
modes_again c modes h t =
    let same : setdefault "class_modes" default_class_modes c ≡ c = rw (h, setdefault) refl in
    let found : at "class_modes" c ≡ dict modes = rw (h, at) refl in
    rw (same, load_class_modes) (rw found (rw t refl))
