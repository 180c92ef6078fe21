-- ===== src/Loader/Filled.antt =====
-- Sections of an accepted configuration: loading them again changes nothing.
use traffic_lane_counter.Prelude.{
  ◌≡◌, refl, ◌∙◌, sym, subst, str_dec, inl, inr, true, false, none, some, List, [], ◌∷◌, String,
  ◌==◌, string_eq, arith, Result, failed, done, Option-cases, Bool-cases,
}
use traffic_lane_counter.Loader.{Value, Entries, ◌>>=◌, get, put, at, setdefaults, is_list_of}
use traffic_lane_counter.Loader.Sections.{
  filled, detector_defaults, check_detector, mode_classes, is_class_of, allow_classes,
  load_detector,
}
use traffic_lane_counter.Loader.Defaults.{
  get-put, put_same, HasAll, setdefaults_same, HasAll-setdefaults,
}

pub >>=-eq-done :
    {A B : Type 0} (m : Result String A) (f : A → Result String B) {b : B}
    → (m >>= f) ≡ done b
    → (a : A) × (m ≡ done a) × (f a ≡ done b)
>>=-eq-done (failed e) f h = cc
>>=-eq-done (done a) f h = (a, refl, h)

-- Every default is there, and the checks pass.
abbrev pub IsFilled :
    List (String × Value) → (Entries → Result String (Unit {0})) → Entries → Type 0
IsFilled kvs check d = HasAll kvs d × (check d ≡ done tt)

module _ (kvs : List (String × Value)) (check : Entries → Result String (Unit {0})) where
  pub filled-IsFilled :
      (g : Entries) {d : Entries} → filled kvs check g ≡ done d → IsFilled kvs check d
  unfolding filled
  filled-IsFilled g {d} h =
      let all = setdefaults kvs g in
      let (u, ok, same) = >>=-eq-done (check all) (λ _. done all) h in
      let e : all ≡ d = cc same in subst (IsFilled kvs check) e (HasAll-setdefaults kvs g, ok)

  pub filled_again : (d : Entries) → IsFilled kvs check d → filled kvs check d ≡ done d
  unfolding filled
  filled_again d (all, ok) = rw (setdefaults_same kvs d all) (rw ok)

pub HasAll-put :
    (kvs : List (String × Value)) (k : String) (v : Value) (d : Entries)
    → HasAll kvs d
    → HasAll kvs (put k v d)
HasAll-put [] k v d h = tt
HasAll-put ((j, x) ∷ kvs) k v d ((w, e), h) = (
  elim (Bool-cases (k == j)) [
    | inl t ↦ (v, ground (arith, t, get-put k j v d))
    | inr t ↦ (w, ground (arith, t, e, get-put k j v d))
  ],
  HasAll-put kvs k v d h,
)

at-put : (k j : String) (v : Value) (d : Entries) → (k == j) ≡ false → at j (put k v d) ≡ at j d
unfolding at
at-put k j v d n = ground (arith, n, get-put k j v d)

-- The allowed classes are no part of what the checks of the detector read.
check_detector-put :
    (v : Value) (d : Entries) → check_detector (put "allowed_classes" v d) ≡ check_detector d
unfolding check_detector str_dec
check_detector-put v d = rw (
  at-put "allowed_classes" "weights" v d refl,
  at-put "allowed_classes" "imgsz" v d refl,
  at-put "allowed_classes" "conf" v d refl,
  at-put "allowed_classes" "iou" v d refl,
)

abbrev allowed_of : Value → Entries → Value
allowed_of classes d = elim (get "allowed_classes" d) [ none ↦ classes | some v ↦ v ]

-- What passes with the classes `v`, passes with them written down.
allow_put :
    (modes d : Entries) (classes v : Value)
    → mode_classes (at "class_mode" d) modes ≡ some classes
    → is_list_of (is_class_of classes) v ≡ true
    → allow_classes modes (put "allowed_classes" v d) ≡ done (put "allowed_classes" v d)
unfolding allow_classes str_dec
allow_put modes d classes v m t =
    let d' = put "allowed_classes" v d in
    let mode : mode_classes (at "class_mode" d') modes ≡ some classes =
      rw (at-put "allowed_classes" "class_mode" v d refl) m in
    let written : get "allowed_classes" d' ≡ some v =
      get-put "allowed_classes" "allowed_classes" v d in
    rw (mode, allow_classes) (rw written (rw (t, put_same "allowed_classes" v d' written)))

allow_classes_inv :
    (modes d : Entries) {e : Entries}
    → allow_classes modes d ≡ done e
    → (classes : Value) × (mode_classes (at "class_mode" d) modes ≡ some classes)
      × (is_list_of (is_class_of classes) (allowed_of classes d) ≡ true)
      × (e ≡ put "allowed_classes" (allowed_of classes d) d)
unfolding allow_classes
allow_classes_inv modes d {e} h = elim (Option-cases (mode_classes (at "class_mode" d) modes)) [
  | inl n ↦ absurd (cc (rw (n, allow_classes) at h))
  | inr (classes, n) ↦ elim (Bool-cases (is_list_of (is_class_of classes) (allowed_of classes d))) [
    | inl t ↦ (classes, n, t, cc (rw (n, t, allow_classes) at h))
    | inr t ↦ absurd (cc (rw (n, t, allow_classes) at h))
  ]
]

-- A detector section that was loaded loads again, as it is.
pub load_detector_again :
    (modes g : Entries) {e : Entries}
    → load_detector modes g ≡ done e
    → load_detector modes e ≡ done e
unfolding load_detector
load_detector_again modes g {e} h =
    let (d, first, second) =
      >>=-eq-done (filled detector_defaults check_detector g) (allow_classes modes) h in
    let (classes, m, t, same) = allow_classes_inv modes d second in
    let (all, ok) = filled-IsFilled detector_defaults check_detector g first in
    let v = allowed_of classes d in
    let d' = put "allowed_classes" v d in
    let refilled : filled detector_defaults check_detector d' ≡ done d' =
      filled_again detector_defaults check_detector d'
        (HasAll-put detector_defaults "allowed_classes" v d all, check_detector-put v d ∙ ok) in
    let again : load_detector modes d' ≡ done d' =
      rw (refilled, load_detector) (allow_put modes d classes v m t) in
    subst (λ x. load_detector modes x ≡ done x) (sym same) again
