-- ===== src/Loader/Windows.antt =====
-- What an accepted configuration promises the lane smoother, packages/tf_core/io/config_loader.py.
use traffic_lane_counter.Prelude.{
  ℕ, ◌≤◌, ◌<◌, ◌≡◌, refl, ◌∙◌, ap, subst, Bool, true, false, not, inl, inr, some, [], ◌∷◌, String,
  Result, done, arith, Option-cases,
}
use traffic_lane_counter.Prelude.Int.{ℤ, pos, negsuc, ltb_ℤ}
use traffic_lane_counter.Loader.{
  Value, Entries, ◌>>◌, require, at, as_int, is_positive_int, is_one_of,
}
use traffic_lane_counter.Loader.Settings.{check_smoothing, is_larger}
use traffic_lane_counter.Loader.Load.{load_config}
use traffic_lane_counter.Loader.Stages.{Has}
use traffic_lane_counter.Loader.Again.{load_config-IsLoaded}

require_inv :
    (b : Bool) (e : String) (m : Result String (Unit {0}))
    → (require b e >> m) ≡ done tt
    → (b ≡ true) × (m ≡ done tt)
require_inv true e m h = (refl, h)
require_inv false e m h = cc

is_true_of_require : (b : Bool) (e : String) → require b e ≡ done tt → b ≡ true
is_true_of_require true e h = refl
is_true_of_require false e h = cc

positive_inv : (n : ℤ) → ltb_ℤ (pos 0) n ≡ true → (m : ℕ) × (n ≡ pos m) × 0 < m
positive_inv (pos m) h = (m, refl, ground arith)
positive_inv (negsuc m) h = ground arith

is_positive_int-inv :
    (v : Value) → is_positive_int v ≡ true → (m : ℕ) × (as_int v ≡ some (pos m)) × 0 < m
unfolding is_positive_int
is_positive_int-inv v h = elim (Option-cases (as_int v)) [
  | inl e ↦ absurd (cc (rw (e, is_positive_int) at h))
  | inr (n, e) ↦
      let (m, same, p) = positive_inv n (rw (e, is_positive_int) at h) in (m, e ∙ ap some same, p)
]

not_larger :
    (a b : Value) (m n : ℕ)
    → as_int a ≡ some (pos m)
    → as_int b ≡ some (pos n)
    → not (is_larger a b) ≡ true
    → m ≤ n
unfolding is_larger
not_larger a b m n ea eb h =
    let larger : is_larger a b ≡ ltb_ℤ (pos n) (pos m) = rw (ea, is_larger) (rw eb refl) in
    let t : not (ltb_ℤ (pos n) (pos m)) ≡ true = subst (λ x. not x ≡ true) larger h in ground arith

-- The window and the number of frames that a change of lane needs
abbrev window : Entries → Value
window d = at "history_window" d

abbrev need : Entries → Value
need d = at "min_consecutive_for_change" d

check_smoothing-inv :
    (d : Entries)
    → check_smoothing d ≡ done tt
    → (n : ℕ) × (m : ℕ) × (as_int (window d) ≡ some (pos n))
      × (as_int (need d) ≡ some (pos m))
      × 0 < m
      × m ≤ n
unfolding check_smoothing
check_smoothing-inv d h =
    let (_, h2) = require_inv (is_one_of ("hybrid" ∷ []) (at "method" d)) _ _ h in
    let (tn, h3) = require_inv (is_positive_int (window d)) _ _ h2 in
    let (tm, h4) = require_inv (is_positive_int (need d)) _ _ h3 in
    let small = is_true_of_require (not (is_larger (need d) (window d))) _ h4 in
    let (n, en, pn) = is_positive_int-inv (window d) tn in
    let (m, em, pm) = is_positive_int-inv (need d) tm in
    (n, m, en, em, pm, not_larger (need d) (window d) m n em en small)

-- The smoothing section of an accepted configuration has a window and a number of frames that a change of lane
-- needs, both of them integers; the number is positive and at most the window.
pub load_config-smooths :
    (c e : Entries)
    → load_config c ≡ done e
    → (d : Entries) × (n : ℕ) × (m : ℕ) × Has "smoothing" d e
      × (as_int (at "history_window" d) ≡ some (pos n))
      × (as_int (at "min_consecutive_for_change" d) ≡ some (pos m))
      × 0 < m
      × m ≤ n
load_config-smooths c e h =
    let l = load_config-IsLoaded c e h in
    let (n, m, en, em, p, le) = check_smoothing-inv l.smoothing (l.smoothing_filled.1) in
    (l.smoothing, n, m, l.has_smoothing, en, em, p, le)
