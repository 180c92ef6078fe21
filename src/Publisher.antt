-- ===== src/Publisher.antt =====
-- packages/tf_common/pubsub.py: `RedisPublisher.publish_event`, behind the breaker of Redis. The client is a
-- parameter.
use traffic_lane_counter.Prelude.{ℕ, Bool, true, false, String, Result}
use traffic_lane_counter.Breaker.{Breaker, rejected, raised, returned, call, new_breaker}

-- What `publish` may raise, by the classes that the code tells apart.
pub data Fault : Type 0 where
  connection_error os_error value_error other_error : Fault

-- The message on `traffic:events` that the pipeline sends.
pub record Notice (F T : Type 0) : Type 0 where
  pub camera_id : String
  pub job_id : String
  pub lane_id : String
  pub track_id : ℕ
  pub vehicle_type : String
  pub direction : String
  pub confidence : F
  pub frame_id : ℕ
  pub timestamp : T

unfoldable pub is_handled : Fault → Bool
is_handled connection_error = true
is_handled os_error = true
is_handled value_error = true
is_handled other_error = false

-- Does `publish_event` return? Otherwise an exception leaves it.
unfoldable pub publish_event :
    {W : Type 0} → (W → Result Fault (Unit {0}) × W) → ℕ → ℕ → Breaker → W → Bool × Breaker × W
unfolding is_handled
publish_event publish now later b w =
    let (outcome, b', w') = call publish now later b w in
    (elim outcome [ returned _ ↦ true | raised e ↦ is_handled e | rejected ↦ false ], b', w')

-- `redis_breaker`
unfoldable pub redis_breaker : Breaker
unfolding new_breaker
redis_breaker = new_breaker 3 15 1
