-- ===== src/Breaker/Settled.antt =====
-- The states in which calls, one after the other, leave the breaker.
use traffic_lane_counter.Prelude.{ℕ, ◌≤◌, ◌<◌, ◌≡◌, ◌⊎◌, arith, Result}
use traffic_lane_counter.Breaker.{
  Breaker, closed_circuit, open_circuit, admit, probe, on_success, on_failure, reset, call,
}

-- Closed with fewer failures than the threshold, or open with at least as many.
abbrev pub IsSettled : Breaker → Type 0
IsSettled b =
    ((b.state ≡ closed_circuit) × (b.failure_count < b.failure_threshold))
    ⊎ ((b.state ≡ open_circuit) × (b.failure_threshold ≤ b.failure_count))

pub record IsUsable (b : Breaker) : Type 0 where
  pub threshold : 0 < b.failure_threshold
  pub probes : 0 < b.half_open_max_calls
  pub settled : IsSettled b

settings-call {ℓ κ μ} :
    {E : Type ℓ} {A : Type κ} {W : Type μ} (fn : W → Result E A × W) (now later : ℕ) (b : Breaker)
    (w : W)
    → ((call fn now later b w).1.failure_threshold ≡ b.failure_threshold)
      × ((call fn now later b w).1.half_open_max_calls ≡ b.half_open_max_calls)
unfolding call admit probe on_success on_failure reset
settings-call fn now later b w = ground arith

IsSettled-call {ℓ κ μ} :
    {E : Type ℓ} {A : Type κ} {W : Type μ} (fn : W → Result E A × W) (now later : ℕ) (b : Breaker)
    (w : W)
    → 0 < b.failure_threshold
    → 0 < b.half_open_max_calls
    → IsSettled b
    → IsSettled (call fn now later b w).1
unfolding call admit probe on_success on_failure reset
IsSettled-call fn now later b w t m h = ground arith

-- A call leaves a usable breaker usable, at any times and with any callable: it is closed with fewer
-- failures than the threshold or open with at least as many, and never rests half-open.
pub call-IsUsable {ℓ κ μ} :
    {E : Type ℓ} {A : Type κ} {W : Type μ} (fn : W → Result E A × W) (now later : ℕ) (b : Breaker)
    (w : W)
    → IsUsable b
    → IsUsable (call fn now later b w).1
call-IsUsable fn now later b w h = record {
  threshold = rw ((settings-call fn now later b w).0) h.threshold;
  probes = rw ((settings-call fn now later b w).1) h.probes;
  settled = IsSettled-call fn now later b w h.threshold h.probes h.settled;
}
