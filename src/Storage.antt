-- ===== src/Storage.antt =====
-- packages/tf_worker/storage/storage_worker.py: what `StorageWorker` works on. The database adapter,
-- the crop store, the publisher and the clock stand outside of it: `Services` is what it calls.
pub mod Commit
pub mod Persist
pub mod Batch
pub mod Worker
pub mod Quiet
pub mod Published
pub mod Lost
pub mod Account
pub mod Letters
use traffic_lane_counter.Prelude.{ℕ, Bool, Option, List, String, Result}

-- An exception, by the classes that the code tells apart, and whether its text has the word "locked" or "busy".
-- `database_error` is every class that no clause names; the texts of `breaker_open` and of the `attribute_error` of a
-- missing session have neither word.
pub data Exn : Type 0 where
  breaker_open attribute_error : Exn
  os_error key_error value_error database_error : Bool → Exn

-- A row of the table of events, and the published message with the time stamp as a text.
pub record EventRow (F T : Type 0) : Type 0 where
  pub camera_id : String
  pub job_id : String
  pub lane_id : String
  pub track_id : ℕ
  pub vehicle_type : String
  pub direction : String
  pub confidence : F
  pub frame_id : ℕ
  pub timestamp : T
  pub crop_path : Option String

-- The payload of `enqueue`; `frame` is passed on to nothing and is left out.
pub record Crossing (F T B : Type 0) : Type 0 where
  pub camera_id : String
  pub job_id : String
  pub lane_id : String
  pub track_id : ℕ
  pub vehicle_type : String
  pub direction : String
  pub confidence : F
  pub frame_id : ℕ
  pub timestamp : T
  pub bbox : Option (List F)
  pub crop_bytes : Option B

-- The payload of `enqueue_lane_change`; its row is the same but for the job.
pub record LaneChange (T : Type 0) : Type 0 where
  pub camera_id : String
  pub job_id : String
  pub track_id : ℕ
  pub class_name : String
  pub previous_lane_id : Option String
  pub current_lane_id : String
  pub frame_id : ℕ
  pub timestamp : T

pub record LaneChangeRow (T : Type 0) : Type 0 where
  pub camera_id : String
  pub track_id : ℕ
  pub class_name : String
  pub previous_lane_id : Option String
  pub current_lane_id : String
  pub frame_id : ℕ
  pub created_at : T

pub data Message (F : Type 0) : Type 0 where
  crossing_message : EventRow F String → Message F
  lane_change_message : LaneChange String → Message F

pub record Bucket (T : Type 0) : Type 0 where
  pub window : String
  pub window_start : T
  pub updated_at : T

-- What the worker calls. `window_start` is the table `WINDOWS`, whose functions cut a time stamp.
pub record Services : Type 1 where
  pub F : Type 0
  pub Time : Type 0
  pub Bytes : Type 0
  pub World : Type 0
  pub clock : World → ℕ
  pub sleep : ℕ → World → World
  pub isoformat : Time → String
  pub window_start : String → Option (Time → Time)
  pub make_adapter : World → Result Exn (Unit {0}) × World
  pub save_crop : Crossing F Time Bytes → Bytes → World → Result Exn String × World
  pub insert_event : EventRow F Time → World → Result Exn (Unit {0}) × World
  pub insert_lane_change : LaneChangeRow Time → World → Result Exn (Unit {0}) × World
  pub upsert_buckets :
      String → String → String → List (Bucket Time) → World → Result Exn (Unit {0}) × World
  pub commit : World → Result Exn (Unit {0}) × World
  pub rollback : World → World
  pub publish_event : Message F → World → Result Exn (Unit {0}) × World

-- What the adapter has of the parts that the code asks for.
pub record Shape : Type 0 where
  pub has_aggregates : Bool
  pub has_lane_changes : Bool
  pub has_session : Bool
  pub has_rollback : Bool

-- What a worker was made with; `adapter` is the shape of the adapter, once there is one.
pub record Setup : Type 0 where
  pub adapter : Option Shape
  pub adapter_factory : Option Shape
  pub has_crop_storage : Bool
  pub has_publisher : Bool
  pub agg_windows : List String
  -- `_BATCH_MAX`
  pub batch_max : ℕ
