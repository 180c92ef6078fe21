-- ===== src/Pipeline/Aborts.antt =====
-- The end of a run while Redis is down.
use traffic_lane_counter.Vision.{Vision}
use traffic_lane_counter.Breaker.{Breaker}
use traffic_lane_counter.Pipeline.{Pipeline}
