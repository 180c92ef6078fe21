-- ===== src/Breaker.antt =====
-- packages/tf_common/circuit_breaker.py: `CircuitBreaker`. The clock is in whole ticks; a callable is
-- a function on the state `W` of the world that it works on, which raises an exception in `E` or
-- returns.
pub mod Settled
pub mod Outage
pub mod Stuck
use traffic_lane_counter.Prelude.{
  ℕ, ◌+◌, Bool, true, false, Option, none, some, List, [], ◌∷◌, if◌then◌else◌, leb, Result, failed,
  done,
}

pub data Circuit : Type 0 where
  closed_circuit open_circuit half_open_circuit : Circuit

pub record Breaker : Type 0 where
  pub failure_threshold : ℕ
  pub recovery_timeout : ℕ
  pub half_open_max_calls : ℕ
  pub state : Circuit
  pub failure_count : ℕ
  pub last_failure_time : ℕ
  pub half_open_calls : ℕ

unfoldable pub new_breaker : ℕ → ℕ → ℕ → Breaker
new_breaker threshold timeout max_calls = record {
  failure_threshold = threshold;
  recovery_timeout = timeout;
  half_open_max_calls = max_calls;
  state = closed_circuit;
  failure_count = 0;
  last_failure_time = 0;
  half_open_calls = 0;
}

-- `_reset`
unfoldable pub reset : Breaker → Breaker
reset b = record b { failure_count = 0; state = closed_circuit; half_open_calls = 0 }

-- `_on_failure`, with the time of the failure
unfoldable pub on_failure : ℕ → Breaker → Breaker
on_failure now b =
    let noted : Breaker = record b {
      failure_count = b.failure_count + 1;
      last_failure_time = now;
    } in
    if leb b.failure_threshold (b.failure_count + 1)
    then record noted { state = open_circuit; half_open_calls = 0 }
    else noted

-- The test of `call` in the state HALF_OPEN: may this call probe?
unfoldable pub probe : Breaker → Bool × Breaker
probe b =
    if leb b.half_open_max_calls b.half_open_calls
    then (false, b)
    else (true, record b { half_open_calls = b.half_open_calls + 1 })

-- What `call` does before it runs the callable: is the call let through?
unfoldable pub admit : ℕ → Breaker → Bool × Breaker
unfolding probe
admit now b = elim b.state [
  | closed_circuit ↦ (true, b)
  | open_circuit ↦
      if leb (b.last_failure_time + b.recovery_timeout) now
      then probe (record b { state = half_open_circuit; half_open_calls = 0 })
      else (false, b)
  | half_open_circuit ↦ probe b
]

-- What `call` does when the callable returns.
unfoldable pub on_success : Breaker → Breaker
unfolding reset
on_success b = elim b.state [ half_open_circuit ↦ reset b | _ ↦ record b { failure_count = 0 } ]

-- How a call ends: `CircuitBreakerOpen`, an exception of the callable, or its result.
pub data Outcome {ℓ κ} (E : Type ℓ) (A : Type κ) : Type (ℓ ⊔ κ) where
  rejected : Outcome E A
  raised : E → Outcome E A
  returned : A → Outcome E A

-- `call`, at this time; a failure is noted at the time `later`.
unfoldable pub call {ℓ κ μ} :
    {E : Type ℓ} {A : Type κ} {W : Type μ}
    → (W → Result E A × W)
    → ℕ
    → ℕ
    → Breaker
    → W
    → Outcome E A × Breaker × W
unfolding admit on_success on_failure
call fn now later b w =
    let (allowed, b') = admit now b in
    if allowed
    then (let (result, w') = fn w in
        elim result [
          | done a ↦ (returned a, on_success b', w')
          | failed e ↦ (raised e, on_failure later b', w')
        ])
    else (rejected, b', w)

-- How the body of a `with` statement ends.
pub data Body : Type 0 where
  body_returned body_raised body_rejected : Body

-- `__exit__`; `__enter__` gives the breaker as it is.
unfoldable pub leave : ℕ → Body → Breaker → Breaker
unfolding on_failure
leave now body_raised b = on_failure now b
leave now body_returned b = record b { failure_count = 0 }
leave now body_rejected b = b
