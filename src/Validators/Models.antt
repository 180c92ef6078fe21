-- ===== src/Validators/Models.antt =====
-- Which models and cameras the validation accepts.
use traffic_lane_counter.Prelude.{
  ◌≡◌, ◌↔◌, refl, sym, ◌∙◌, inl, inr, Bool, true, not, some, List, [], ◌∷◌, String, string_eq,
  nat_eq, failed, done, arith, All, map, Bool-cases,
}
use traffic_lane_counter.Validators.{
  ModelVersion, duplicate_model, unsupported_mode, missing_path, invalid_classes, Check, and_check,
  require, is_in, is_known, class_modes, check_models, validate_models_config, unsupported,
  validate_allowed_classes,
}
use traffic_lane_counter.Validators.Lanes.{AreDistinct, and_check_iff, require_iff}

-- A model of a known class mode whose file is there.
abbrev pub IsModel : (String → Bool) → ModelVersion → Type 0
IsModel exists m = (is_known m.class_mode ≡ true) × (exists m.path ≡ true)

check_models_iff :
    (exists : String → Bool) (ids : List String) (ms : List ModelVersion)
    → (check_models exists ids ms ≡ done tt)
      ↔ (AreDistinct ids (map (λ m. m.model_id) ms) × All (IsModel exists) ms)
unfolding check_models
check_models_iff exists ids [] = (λ h. (tt, tt), λ h. refl)
check_models_iff exists ids (m ∷ ms) =
    let new = require_iff (not (is_in m.model_id ids)) (duplicate_model m.model_id) in
    let mode = require_iff (is_known m.class_mode) (unsupported_mode m.model_id m.class_mode) in
    let path = require_iff (exists m.path) (missing_path m.path) in
    let more = check_models_iff exists (m.model_id ∷ ids) ms in
    let c = check_models exists (m.model_id ∷ ids) ms in
    let third = and_check_iff (require (exists m.path) (missing_path m.path)) c in
    let second =
      and_check_iff (require (is_known m.class_mode) (unsupported_mode m.model_id m.class_mode))
        (and_check (require (exists m.path) (missing_path m.path)) c) in
    let first = and_check_iff (require (not (is_in m.model_id ids)) (duplicate_model m.model_id)) (
      and_check (require (is_known m.class_mode) (unsupported_mode m.model_id m.class_mode))
        (and_check (require (exists m.path) (missing_path m.path)) c)) in
    (
      λ h.
          let (a, b) = first.0 h in
          let (p, q) = second.0 b in
          let (r, s) = third.0 q in
          let rest = more.0 s in
          let fresh = new.0 a in ((ground (arith, fresh), rest.0), ((mode.0 p, path.0 r), rest.1)),
      λ h.
          let fresh : not (is_in m.model_id ids) ≡ true = ground (arith, h.0.0) in
          first.1 (
            new.1 fresh,
            second.1 (mode.1 h.1.0.0, third.1 (path.1 h.1.0.1, more.1 (h.0.1, h.1.1))),
          ),
    )

-- The validation accepts a list of models exactly when their ids are distinct, and each is of a known
-- class mode and its file is there.
pub validate_models_config_iff :
    (exists : String → Bool) (ms : List ModelVersion)
    → (validate_models_config exists ms ≡ done tt)
      ↔ (AreDistinct [] (map (λ m. m.model_id) ms) × All (IsModel exists) ms)
unfolding validate_models_config
validate_models_config_iff exists ms = check_models_iff exists [] ms

unsupported_iff :
    (names xs : List String) → (unsupported names xs ≡ []) ↔ All (λ x. is_in x names ≡ true) xs
unfolding unsupported
unsupported_iff names [] = (λ h. tt, λ h. refl)
unsupported_iff names (x ∷ xs) =
    let more = unsupported_iff names xs in
    elim (Bool-cases (is_in x names)) [
      | inl e ↦ (λ h. (e, more.0 (ground arith)), λ h. let rest = more.1 h.1 in ground arith)
      | inr e ↦ (λ h. absurd (ground arith), λ h. absurd (cc (e, h.0)))
    ]

is_done : (xs : List String) (mode : String) → Check
is_done [] mode = done tt
is_done (x ∷ xs) mode = failed (invalid_classes (x ∷ xs) mode)

is_done_iff : (xs : List String) (mode : String) → (is_done xs mode ≡ done tt) ↔ (xs ≡ [])
unfolding is_done
is_done_iff [] mode = (λ h. refl, λ h. refl)
is_done_iff (x ∷ xs) mode = (λ h. absurd (cc h), λ h. absurd (cc h))

allowed-is_done :
    (classes : List String) (mode : String) (names : List String)
    → class_modes mode ≡ some names
    → validate_allowed_classes classes mode ≡ is_done (unsupported names classes) mode
unfolding validate_allowed_classes is_done
allowed-is_done classes mode names e = ground arith

-- The validation accepts the classes of a camera exactly when its mode is known and supports them all.
pub validate_allowed_classes_iff :
    (classes : List String) (mode : String) (names : List String)
    → class_modes mode ≡ some names
    → (validate_allowed_classes classes mode ≡ done tt) ↔ All (λ x. is_in x names ≡ true) classes
validate_allowed_classes_iff classes mode names e =
    let same = allowed-is_done classes mode names e in
    let none_left = is_done_iff (unsupported names classes) mode in
    let all = unsupported_iff names classes in
    (λ h. all.0 (none_left.0 (sym same ∙ h)), λ h. same ∙ none_left.1 (all.1 h))
