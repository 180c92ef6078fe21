-- ===== src/Storage/Persist.antt =====
-- How `StorageWorker` stores and publishes one payload: `_process` and `_rollup_aggregates`. The
-- state is the world and the breaker of the database.
use traffic_lane_counter.Prelude.{
  Bool, true, false, Option, none, some, List, [], ◌∷◌, String, Result, failed, done, if◌then◌else◌,
}
use traffic_lane_counter.Breaker.{Breaker, rejected, raised, returned, call}
use traffic_lane_counter.Storage.{
  Exn, breaker_open, os_error, key_error, value_error, EventRow, Crossing, LaneChange,
  LaneChangeRow, Message, crossing_message, lane_change_message, Bucket, Services, Shape, Setup,
}

-- `except (OSError, ValueError)`, and the same of the publisher: a `ConnectionError` is an `OSError`.
unfoldable pub is_io_or_value : Exn → Bool
is_io_or_value (os_error busy) = true
is_io_or_value (value_error busy) = true
is_io_or_value _ = false

-- `except (OSError, KeyError, ValueError)`
unfoldable pub is_lookup_or_io : Exn → Bool
is_lookup_or_io (os_error busy) = true
is_lookup_or_io (key_error busy) = true
is_lookup_or_io (value_error busy) = true
is_lookup_or_io _ = false

-- `except (CircuitBreakerOpen, OSError, KeyError, ValueError)`
unfoldable pub is_dead_letter : Exn → Bool
unfolding is_lookup_or_io
is_dead_letter breaker_open = true
is_dead_letter e = is_lookup_or_io e

-- The steps of a `try` body: the next one runs where the last one returned.
abbrev pub and_then {ℓ κ μ ν} :
    {E : Type ℓ} {A : Type κ} {B : Type μ} {S : Type ν}
    → Result E A × S
    → (A → S → Result E B × S)
    → Result E B × S
and_then (failed e, s) next = (failed e, s)
and_then (done a, s) next = next a s

-- An `except` clause that only logs.
abbrev pub suppress {ℓ κ} :
    {E : Type ℓ} {S : Type κ} → (E → Bool) → Result E (Unit {0}) × S → Result E (Unit {0}) × S
suppress caught (failed e, s) = if caught e then (done tt, s) else (failed e, s)
suppress caught (done u, s) = (done tt, s)

module _ (v : Services) where
  open v use {F, Time, Bytes, World}

  abbrev pub Store : Type 0
  Store = World × Breaker

  -- A call of a service, which does not know the breaker.
  abbrev pub on_world {ℓ} :
      {A : Type ℓ} → (World → Result Exn A × World) → Store → Result Exn A × Store
  on_world f (w, b) = let (r, w') = f w in (r, (w', b))

  -- `db_breaker.call(f)`
  unfoldable pub guarded :
      (World → Result Exn (Unit {0}) × World) → Store → Result Exn (Unit {0}) × Store
  guarded f (w, b) =
      let (outcome, b', w') = call f (v.clock w) (v.clock (f w).1) b w in
      elim outcome [
        | rejected ↦ (failed breaker_open, (w', b'))
        | raised e ↦ (failed e, (w', b'))
        | returned u ↦ (done tt, (w', b'))
      ]

  unfoldable pub event_row : Crossing F Time Bytes → Option String → EventRow F Time
  event_row p crop = record {
    camera_id = p.camera_id;
    job_id = p.job_id;
    lane_id = p.lane_id;
    track_id = p.track_id;
    vehicle_type = p.vehicle_type;
    direction = p.direction;
    confidence = p.confidence;
    frame_id = p.frame_id;
    timestamp = p.timestamp;
    crop_path = crop;
  }

  unfoldable pub lane_change_row : LaneChange Time → LaneChangeRow Time
  lane_change_row p = record {
    camera_id = p.camera_id;
    track_id = p.track_id;
    class_name = p.class_name;
    previous_lane_id = p.previous_lane_id;
    current_lane_id = p.current_lane_id;
    frame_id = p.frame_id;
    created_at = p.timestamp;
  }

  unfoldable pub crossing_event : Crossing F Time Bytes → Option String → Message F
  crossing_event p crop = crossing_message (record {
    camera_id = p.camera_id;
    job_id = p.job_id;
    lane_id = p.lane_id;
    track_id = p.track_id;
    vehicle_type = p.vehicle_type;
    direction = p.direction;
    confidence = p.confidence;
    frame_id = p.frame_id;
    timestamp = v.isoformat p.timestamp;
    crop_path = crop;
  })

  unfoldable pub lane_change_event : LaneChange Time → Message F
  lane_change_event p = lane_change_message (record {
    camera_id = p.camera_id;
    job_id = p.job_id;
    track_id = p.track_id;
    class_name = p.class_name;
    previous_lane_id = p.previous_lane_id;
    current_lane_id = p.current_lane_id;
    frame_id = p.frame_id;
    timestamp = v.isoformat p.timestamp;
  })

  -- The buckets of the windows that the table knows.
  unfoldable pub buckets_of : List String → Time → List (Bucket Time)
  buckets_of [] ts = []
  buckets_of (name ∷ names) ts =
      let rest = buckets_of names ts in
      elim (v.window_start name) [
        | none ↦ rest
        | some cut ↦ record { window = name; window_start = cut ts; updated_at = ts } ∷ rest
      ]

  -- `_rollup_aggregates`, where there is an adapter
  unfoldable pub rollup_aggregates :
      Setup → Shape → Crossing F Time Bytes → Store → Result Exn (Unit {0}) × Store
  unfolding is_lookup_or_io
  rollup_aggregates c shape p s =
      if shape.has_aggregates
      then (elim (buckets_of c.agg_windows p.timestamp) [
        | [] ↦ (done tt, s)
        | ◌∷◌ bucket more ↦
            suppress is_lookup_or_io
              (on_world (v.upsert_buckets p.camera_id p.lane_id p.vehicle_type (bucket ∷ more)) s)
      ])
      else (done tt, s)

  -- The path of the saved crop; a failed save is only logged.
  unfoldable pub save_crop :
      Setup → Crossing F Time Bytes → Store → Result Exn (Option String) × Store
  unfolding is_io_or_value
  save_crop c p s =
      if c.has_crop_storage
      then (elim p.crop_bytes [
        | none ↦ (done none, s)
        | some bytes ↦
            let (result, s') = on_world (v.save_crop p bytes) s in
            elim result [
              | done path ↦ (done (some path), s')
              | failed e ↦ if is_io_or_value e then (done none, s') else (failed e, s')
            ]
      ])
      else (done none, s)

  -- The insert and the roll-up of one crossing.
  unfoldable pub insert_crossing :
      Setup → Shape → Crossing F Time Bytes → Option String → Store → Result Exn (Unit {0}) × Store
  unfolding guarded
  insert_crossing c shape p crop s =
      and_then (guarded (v.insert_event (event_row p crop)) s)
        (λ _ s'. rollup_aggregates c shape p s')

  unfoldable pub publish_crossing :
      Setup → Crossing F Time Bytes → Option String → Store → Result Exn (Unit {0}) × Store
  unfolding is_io_or_value
  publish_crossing c p crop s =
      if c.has_publisher
      then suppress is_io_or_value (on_world (v.publish_event (crossing_event p crop)) s)
      else (done tt, s)

  unfoldable pub publish_lane_change :
      Setup → LaneChange Time → Store → Result Exn (Unit {0}) × Store
  publish_lane_change c p s =
      if c.has_publisher then on_world (v.publish_event (lane_change_event p)) s else (done tt, s)
