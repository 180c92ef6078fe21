-- ===== src/Storage/Worker.antt =====
-- The queue of `StorageWorker` and its thread. The worker's thread is three steps: it takes a batch,
-- processes it, and drains the queue behind the sentinel; the producers' calls come in between.
use traffic_lane_counter.Prelude.{
  ℕ, zero, suc, ◌+◌, ◌-◌, Bool, true, false, ◌&&◌, not, Option, none, some, List, [], ◌∷◌, ◌++◌,
  String, failed, done, if◌then◌else◌, ltb, leb, length, drop, min,
}
use traffic_lane_counter.Storage.Persist.{Store}
use traffic_lane_counter.Storage.Batch.{Event, crossing, lane_change, process_batch}
use traffic_lane_counter.Storage.{Crossing, LaneChange, Services, Setup}

abbrev pub queue_warn_threshold : ℕ
queue_warn_threshold = 512

abbrev pub queue_crit_threshold : ℕ
queue_crit_threshold = 1024

abbrev pub dead_letter_max : ℕ
dead_letter_max = 10000

-- `phase` is where the thread stands: in its loop, draining, or at its end.
pub data Phase : Type 0 where
  looping draining finished : Phase

module _ (v : Services) where
  open v use {F, Time, Bytes, World}

  -- `none` in the queue is the sentinel. `batch` is what the thread has taken and not yet processed.
  -- `alerts` are the alerts that were emitted: the camera, the depth of the queue, its limit.
  pub record Worker : Type 0 where
    pub setup : Setup
    pub maxsize : ℕ
    pub queue : List (Option (Event v))
    pub batch : List (Event v)
    pub phase : Phase
    pub stopped : Bool
    pub dropped_events : ℕ
    pub total_processed : ℕ
    pub total_errors : ℕ
    pub dead_letter : List (Event v)
    pub watchdog_logged : Bool
    pub backpressure_alerted : Bool
    pub alerts : List (String × ℕ × ℕ)
    pub store : Store v

  -- `__init__`, once its thread runs
  unfoldable pub new_worker : Setup → ℕ → Store v → Worker
  new_worker setup maxsize store = record {
    setup = setup;
    maxsize = maxsize;
    queue = [];
    batch = [];
    phase = looping;
    stopped = false;
    dropped_events = 0;
    total_processed = 0;
    total_errors = 0;
    dead_letter = [];
    watchdog_logged = false;
    backpressure_alerted = false;
    alerts = [];
    store = store;
  }

  -- `_append_dead_letter`: a letter beyond the limit is not kept.
  unfoldable pub append_dead_letter : Event v → List (Event v) → List (Event v)
  append_dead_letter p letters =
      if ltb (length letters) dead_letter_max then letters ++ p ∷ [] else letters

  unfoldable pub append_all : List (Event v) → List (Event v) → List (Event v)
  unfolding append_dead_letter
  append_all [] letters = letters
  append_all (p ∷ ps) letters = append_all ps (append_dead_letter p letters)

  -- What `_process` does with a dead letter: beyond the limit the oldest one goes.
  unfoldable pub push_dead_letter : Event v → List (Event v) → List (Event v)
  push_dead_letter p letters =
      if ltb dead_letter_max (length (letters ++ p ∷ []))
      then drop 1 (letters ++ p ∷ [])
      else letters ++ p ∷ []

  unfoldable pub push_all : List (Event v) → List (Event v) → List (Event v)
  unfolding push_dead_letter
  push_all [] letters = letters
  push_all (p ∷ ps) letters = push_all ps (push_dead_letter p letters)

  -- `Full` of a queue: a `maxsize` of 0 is no limit.
  unfoldable pub is_full : Worker → Bool
  is_full w = ltb 0 w.maxsize && leb w.maxsize (length w.queue)

  -- An event that finds no place in the queue.
  unfoldable pub drop_event : Event v → Worker → Worker
  unfolding append_dead_letter
  drop_event p w = record w {
    dropped_events = w.dropped_events + 1;
    dead_letter = append_dead_letter p w.dead_letter;
  }

  -- `put_nowait`, and what both `enqueue` methods do on `Full`
  unfoldable pub put : Event v → Worker → Worker
  unfolding is_full drop_event
  put p w = if is_full w then drop_event p w else record w { queue = w.queue ++ some p ∷ [] }

  -- The watchdog of `enqueue`
  unfoldable pub watch : Worker → Worker
  watch w =
      if leb queue_warn_threshold (length w.queue) && not w.watchdog_logged
      then record w { watchdog_logged = true }
      else if ltb (length w.queue) queue_warn_threshold
      then record w { watchdog_logged = false }
      else w

  -- The alert of `enqueue` above the critical depth
  unfoldable pub alert_once : String → Worker → Worker
  alert_once camera w = if w.backpressure_alerted then w else record w {
    backpressure_alerted = true;
    alerts = w.alerts ++ (camera, length w.queue, w.maxsize) ∷ [];
  }

  unfoldable pub enqueue : Crossing F Time Bytes → Worker → Worker
  unfolding put watch alert_once
  enqueue p w =
      let w' = watch w in
      if leb queue_crit_threshold (length w.queue)
      then alert_once p.camera_id (drop_event (crossing p) w')
      else put (crossing p) w'

  unfoldable pub enqueue_lane_change : LaneChange Time → Worker → Worker
  unfolding put
  enqueue_lane_change p w = put (lane_change p) w

  -- `stop`: the sentinel is left out where the queue is full.
  unfoldable pub stop : Worker → Worker
  unfolding is_full
  stop w =
      if is_full w
      then record w { stopped = true }
      else record w { stopped = true; queue = w.queue ++ none ∷ [] }

  -- `_ensure_adapter`: is there an adapter, or no need for one?
  unfoldable pub ensure_adapter : Worker → Bool × Worker
  ensure_adapter w = elim w.setup.adapter [
    | some _ ↦ (true, w)
    | none ↦ elim w.setup.adapter_factory [
      | none ↦ (true, w)
      | some shape ↦
          let (result, world) = v.make_adapter w.store.0 in
          let w' : Worker = record w { store = (world, w.store.1) } in
          elim result [
            | done u ↦ (true, record w' { setup = record w.setup { adapter = some shape } })
            | failed e ↦ (false, w')
          ]
    ]
  ]

  -- The items that `_collect_batch` gathers behind the first, at most this many, and the rest of the
  -- queue. A sentinel ends the batch; it goes back to the end of the queue, unless a producer was quicker and the queue
  -- is full again (`room` is false).
  unfoldable pub gather :
      Bool → ℕ → List (Option (Event v)) → List (Event v) × List (Option (Event v))
  gather room zero queue = ([], queue)
  gather room (suc n) [] = ([], [])
  gather room (suc n) (none ∷ queue) = ([], if room then queue ++ none ∷ [] else queue)
  gather room (suc n) (some p ∷ queue) = let (more, rest) = gather room n queue in (p ∷ more, rest)

  -- The first part of the loop of `_worker_loop`: an item is taken, and with an adapter a batch of
  -- it and the `arrived` more items that come in time.
  unfoldable pub take : Bool → ℕ → Worker → Worker
  unfolding ensure_adapter gather append_dead_letter
  take room arrived w = elim w.queue [
    | [] ↦ w
    | ◌∷◌ item queue ↦ elim item [
      | none ↦ record w { queue = queue; phase = draining }
      | some p ↦
          let (ready, w') = ensure_adapter (record w { queue = queue }) in
          if ready
          then (let (more, rest) = gather room (min arrived (w.setup.batch_max - 1)) queue in
              record w' { queue = rest; batch = p ∷ more })
          else record w' {
            total_errors = w'.total_errors + 1;
            dead_letter = append_dead_letter p w'.dead_letter;
          }
    ]
  ]

  -- The rollback behind an error, where the adapter has one
  unfoldable pub roll_back : Setup → Store v → Store v
  roll_back c (world, b) = elim c.adapter [
    | none ↦ (world, b)
    | some shape ↦ if shape.has_rollback then (v.rollback world, b) else (world, b)
  ]

  -- The second part: the batch is processed.
  unfoldable pub work : Worker → Worker
  unfolding append_all push_all roll_back process_batch
  work w =
      let (result, store) = process_batch v w.setup w.batch w.store in
      elim result [
        | done letters ↦ record w {
          batch = [];
          store = store;
          total_processed = w.total_processed + length w.batch;
          dead_letter = push_all letters w.dead_letter;
        }
        | failed e ↦ record w {
          batch = [];
          store = roll_back w.setup store;
          total_errors = w.total_errors + length w.batch;
          dead_letter = append_all w.batch w.dead_letter;
        }
      ]

  -- The items of the queue without the sentinels
  unfoldable pub items : List (Option (Event v)) → List (Event v)
  items [] = []
  items (none ∷ queue) = items queue
  items (some p ∷ queue) = p ∷ items queue

  -- The drain behind the loop; the adapter is closed, and the thread ends.
  unfoldable pub drain : Worker → Worker
  unfolding items ensure_adapter push_all process_batch
  drain w =
      let rest = items w.queue in
      let ended : Worker = record w { queue = []; phase = finished } in
      elim rest [
        | [] ↦ ended
        | ◌∷◌ p more ↦
            let (ready, w') = ensure_adapter ended in
            if ready
            then (let (result, store) = process_batch v w'.setup (p ∷ more) w'.store in
                elim result [
                  | done letters ↦ record w' {
                    store = store;
                    total_processed = w'.total_processed + length (p ∷ more);
                    dead_letter = push_all letters w'.dead_letter;
                  }
                  | failed e ↦ record w' {
                    store = store;
                    total_errors = w'.total_errors + length (p ∷ more);
                  }
                ])
            else w'
      ]
