-- ===== src/Lib.antt =====
-- TrafficFlow: lane counting on camera streams. This library models the core of the program, the
-- packages under packages/, and proves what makes it correct.
--
-- The program reads frames from a camera. `DetectionCore` (Detection) hands each frame to the YOLO and
-- ByteTrack adapter (Tracker), and the tracks of the frame to `LaneStateManager` (Tracks), which asks
-- the `LaneAssigner` (Lanes) for the raw lane of each box and smooths it to a stable lane. From the
-- track states `OccupancyEngine` (Occupancy) computes the vehicles per lane, and `LineCounter`
-- (Counting) the count events. The events go to the `StorageWorker` (Storage), whose thread writes
-- them to the database behind the `CircuitBreaker` (Breaker) and publishes them; `AlertService`
-- (Alerts) and `LiveEventBus` (Bus) tell the operators, with the live metrics of each stream
-- (Metrics). The configuration of a camera is validated (Validators), and that of a run is completed
-- with defaults and checked (Loader). The loop over the frames is `Pipeline` (Pipeline): it cuts the
-- region of interest (Roi), skips frames without motion (Motion), and hands the count events to the
-- storage worker and, behind the breaker of Redis, to the publisher (Publisher).
--
-- The HTTP API runs such loops as live streams, which viewers, operators and a supervisor start and stop
-- (Live), and its WebSocket clients share listeners of Redis (Sockets).
--
-- Files and sources:
--   Lanes        packages/tf_core/lanes/lane_assigner.py, lane_config.py
--   Tracks       packages/tf_core/occupancy/lane_state_manager.py; Tracks/Vote the majority vote
--   Occupancy    packages/tf_core/occupancy/occupancy_engine.py
--   Counting     packages/tf_core/counting/line_counter.py
--   Tracker      packages/tf_core/tracking/bytetrack_adapter.py
--   Detection    packages/tf_core/detection_core.py
--   Breaker      packages/tf_common/circuit_breaker.py
--   Storage      packages/tf_worker/storage/storage_worker.py; Storage/Commit packages/tf_db/session.py
--   Alerts       packages/tf_common/alert_service.py
--   Metrics      packages/tf_common/monitoring/live_metrics.py
--   Bus          packages/tf_common/live_bus.py
--   Roi          packages/tf_core/roi.py
--   Motion       packages/tf_worker/detection/motion_detector.py
--   Publisher    packages/tf_common/pubsub.py, publish_event
--   Pipeline     packages/tf_worker/pipeline.py: the loop over the frames; Pipeline/Moved the boxes that go
--                back from the crop to the frame
--   Live         packages/tf_api/api/routes_live.py: the live streams; Live/Tickets and Live/Rates have
--                definitions of their own
--   Sockets      packages/tf_api/api/routes_ws.py: the clients, the listeners and the delivery of a message
--   Loader       packages/tf_core/io/config_loader.py: Loader/Sections, Loader/Settings and Loader/Lines the parts
--                of the configuration, Loader/Load the whole
--   Validators   packages/tf_core/config/validators.py, schemas.py
--   Config       the configuration, by the keys that the constructors read; `none` is a missing key
--   Vision       the parameters: floats, and the polygon test of OpenCV
--   Prelude      shared types and lemmas: Python's dict, lists with native lengths, equality of keys
--   Tests        sample data, and the theorems at sample data
-- A class is a record with the names of its fields, and a method a function with the name of the
-- method, without a leading underscore, from the record to the new record and the result. Loops are
-- structural recursion, each body a function of its own, so no fuel is needed; the one loop with a
-- bound is `commit_with_retry`, whose 8 attempts are those of the source.
--
-- Conventions: frame numbers and ages are natural numbers, and a test `a - b > c` on them is written `b
-- + c < a`, so that no difference falls below 0. A missing key, `None` and the empty box `[]` of a new
-- track are `none`. A Python set is the list of its members. Floats, polygons, the model, the database,
-- the publisher, the crop store and the clock are parameters; what is relied on of them is a named
-- hypothesis (`IsSession`, `IsQuiet`). The loader (Loader) gives positive windows and positive
-- `min_consecutive_for_change` only, so the IndexError of an empty `last_C` is not modelled. Every
-- method that holds a lock is one step, and so is a round of the cleaner of live streams, which lets
-- the lock go between the choice of the idle cameras and the removal of each. Coordinates of the region
-- of interest are whole numbers of 1/256 pixel, on which the sums of the code are exact; floats of the
-- configuration are whole numbers of 1/1000. The thread of the storage worker takes a batch, processes
-- it and drains in three steps, and the producers' calls may come between any two of them.
--
-- Not modelled: the rest of the HTTP API, video input and output, drawing, the SQL of the repositories, Redis,
-- logging, gauges, timings, and the reading of files, which are I/O or calls of libraries; the lane
-- colours and the configuration compiler.
pub mod Prelude
pub mod Vision
pub mod Config
pub mod Lanes
pub mod Tracks
pub mod Occupancy
pub mod Counting
pub mod Tracker
pub mod Detection
pub mod Breaker
pub mod Storage
pub mod Alerts
pub mod Bus
pub mod Metrics
pub mod Roi
pub mod Motion
pub mod Publisher
pub mod Pipeline
pub mod Live
pub mod Sockets
pub mod Loader
pub mod Validators
pub mod Tests
