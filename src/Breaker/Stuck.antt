-- ===== src/Breaker/Stuck.antt =====
-- What `with breaker:` does to the breaker that `call` does not.
use traffic_lane_counter.Prelude.{ℕ, ◌+◌, ◌≤◌, ◌<◌, ◌≡◌, arith, Result, failed}
use traffic_lane_counter.Breaker.{
  Breaker, open_circuit, rejected, admit, probe, on_failure, call, leave, body_returned,
}

-- An open breaker with a threshold of at least 2 and one probe, on which a `with` statement ends
-- well and then, after the recovery timeout, a call fails: from then on it rejects every call.
pub call_after_leave-rejected {ℓ κ μ} :
    {E : Type ℓ} {A : Type κ} {W : Type μ} (bad fn : W → Result E A × W)
    (left probed later now after : ℕ) (b : Breaker) (w x : W) (e : E)
    → b.state ≡ open_circuit
    → 1 < b.failure_threshold
    → b.half_open_max_calls ≡ 1
    → b.last_failure_time + b.recovery_timeout ≤ probed
    → (bad w).0 ≡ failed e
    → let stuck = (call bad probed later (leave left body_returned b) w).1 in
      call fn now after stuck x ≡ (rejected, stuck, x)
unfolding call admit probe on_failure leave
call_after_leave-rejected bad fn left probed later now after b w x e o t m p q = ground arith
