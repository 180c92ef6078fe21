-- ===== src/Breaker/Outage.antt =====
-- An outage: calls of a callable that always raises.
use mathlib.Core.Path.{ap₂}
use traffic_lane_counter.Prelude.{
  ℕ, ◌+◌, ◌-◌, ◌≤◌, ◌<◌, ◌≡◌, refl, inl, inr, true, false, List, [], ◌∷◌, arith, leb, Result,
  failed, length, All, min, Bool-cases, ◌∙◌,
}
use traffic_lane_counter.Breaker.{Breaker, closed_circuit, open_circuit, admit, on_failure, call}

-- A service that is down, with the number of requests that have reached it.
abbrev pub down : ℕ → Result (Unit {0}) (Unit {0}) × ℕ
down requests = (failed tt, requests + 1)

-- Calls of the service at these times, each failing as it starts.
unfoldable pub outage : List ℕ → Breaker → ℕ → Breaker × ℕ
outage [] b w = (b, w)
outage (now ∷ times) b w = let (_, b', w') = call down now now b w in outage times b' w'

rejects_open :
    (now : ℕ) (b : Breaker) (w : ℕ)
    → b.state ≡ open_circuit
    → now < b.last_failure_time + b.recovery_timeout
    → ((call down now now b w).1 ≡ b) × ((call down now now b w).2 ≡ w)
unfolding call admit
rejects_open now b w e l = ground arith

outage_open :
    (start : ℕ) (times : List ℕ) (b : Breaker) (w : ℕ)
    → b.state ≡ open_circuit
    → start ≤ b.last_failure_time
    → All (λ t. (start ≤ t) × (t < start + b.recovery_timeout)) times
    → outage times b w ≡ (b, w)
unfolding outage
outage_open start [] b w e s h = refl
outage_open start (t ∷ times) b w e s h =
    ground (arith, rejects_open t b w e, outage_open start times b w e s h.1)

step_closed :
    (now : ℕ) (b : Breaker) (w : ℕ)
    → b.state ≡ closed_circuit
    → ((call down now now b w).1 ≡ on_failure now b) × ((call down now now b w).2 ≡ w + 1)
unfolding call admit
step_closed now b w e = ground arith

-- The first failure, where it opens the breaker and where it does not.
tripped :
    (t : ℕ) (b : Breaker)
    → leb b.failure_threshold (b.failure_count + 1) ≡ true
    → ((on_failure t b).state ≡ open_circuit)
      × ((on_failure t b).last_failure_time ≡ t)
      × ((on_failure t b).recovery_timeout ≡ b.recovery_timeout)
unfolding on_failure
tripped t b e = ground arith

untripped :
    (t : ℕ) (b : Breaker)
    → leb b.failure_threshold (b.failure_count + 1) ≡ false
    → ((on_failure t b).state ≡ b.state)
      × ((on_failure t b).failure_count ≡ b.failure_count + 1)
      × ((on_failure t b).recovery_timeout ≡ b.recovery_timeout)
      × ((on_failure t b).failure_threshold ≡ b.failure_threshold)
unfolding on_failure
untripped t b e = ground arith

outage_next :
    (t : ℕ) (times : List ℕ) (b : Breaker) (w : ℕ)
    → b.state ≡ closed_circuit
    → outage (t ∷ times) b w ≡ outage times (on_failure t b) (w + 1)
unfolding outage
outage_next t times b w e = let s = step_closed t b w e in ap₂ (outage times) s.0 s.1

-- While a service is down, and before the recovery timeout is over since the first of the calls, at
-- most as many calls reach it as the threshold has failures left; all later ones are rejected.
pub requests-outage :
    (start : ℕ) (times : List ℕ) (b : Breaker) (w : ℕ)
    → b.state ≡ closed_circuit
    → b.failure_count < b.failure_threshold
    → All (λ t. (start ≤ t) × (t < start + b.recovery_timeout)) times
    → (outage times b w).1 ≡ w + min (length times) (b.failure_threshold - b.failure_count)
requests-outage start [] b w e l h = unfold outage in ground arith
requests-outage start (t ∷ times) b w e l h =
    rw (outage_next t times b w e)
      (elim (Bool-cases (leb b.failure_threshold (b.failure_count + 1))) [
        | inl q ↦
            let (o, now, same) = tripped t b q in
            let stays =
              outage_open start times (on_failure t b) (w + 1) o (omega (arith, now, h.0.0))
                (rw same h.1) in
            ground (arith, stays, q)
        | inr q ↦
            let (o, more, same, limit) = untripped t b q in
            let ih =
              requests-outage start times (on_failure t b) (w + 1) (o ∙ e)
                (ground (arith, more, limit, q)) (rw same h.1) in
            ground (arith, ih, more, limit, q)
      ])
