-- ===== src/Tests/Stored.antt =====
-- The breaker and the storage worker with a small database: the numbers of the frames that wait for a
-- commit and of those that are committed, how many commits find it busy, and how many messages were
-- published.
use traffic_lane_counter.Prelude.{
  ℕ, zero, suc, ◌+◌, ◌≡◌, refl, true, none, some, List, [], ◌∷◌, ◌++◌, Result, failed, done, arith,
  nat_eq,
}
use traffic_lane_counter.Breaker.{
  Breaker, rejected, open_circuit, new_breaker, call, leave, body_returned,
}
use traffic_lane_counter.Breaker.Settled.{IsUsable, call-IsUsable}
use traffic_lane_counter.Breaker.Outage.{down, outage, requests-outage}
use traffic_lane_counter.Breaker.Stuck.{call_after_leave-rejected}
use traffic_lane_counter.Storage.{Exn, database_error, Crossing, Services, Shape, Setup}
use traffic_lane_counter.Storage.Commit.{commit_with_retry, retry, is_busy}
use traffic_lane_counter.Storage.Batch.{Event, crossing}
use traffic_lane_counter.Storage.Worker.{Worker, new_worker, enqueue, take}
use traffic_lane_counter.Storage.Account.{here, next, enqueues, takes, account, account-Run}
use traffic_lane_counter.Storage.Letters.{IsWithin, Run-IsWithin}
use traffic_lane_counter.Storage.Lost.{IsSession, commit_with_retry_loses_rows}

pub record Database : Type 0 where
  pub waiting : List ℕ
  pub saved : List ℕ
  pub busy : ℕ
  pub sent : ℕ

pub try_commit : ℕ → Database → Result Exn (Unit {0}) × Database
try_commit zero w = (done tt, record w { saved = w.saved ++ w.waiting; waiting = [] })
try_commit (suc n) w = (failed (database_error true), record w { busy = n })

abbrev pub services : Services
services = record {
  F = ℕ;
  Time = ℕ;
  Bytes = ℕ;
  World = Database;
  clock = λ w. 0;
  sleep = λ d w. w;
  isoformat = λ t. "";
  window_start = λ name. none;
  make_adapter = λ w. (done tt, w);
  save_crop = λ p bytes w. (done "crop.jpg", w);
  insert_event = λ row w. (done tt, record w { waiting = w.waiting ++ row.frame_id ∷ [] });
  insert_lane_change = λ row w. (done tt, w);
  upsert_buckets = λ camera lane vehicle buckets w. (done tt, w);
  commit = λ w. try_commit w.busy w;
  rollback = λ w. record w { waiting = [] };
  publish_event = λ message w. (done tt, record w { sent = w.sent + 1 });
}

commit_done-db :
    (n : ℕ) (w : Database)
    → (try_commit n w).0 ≡ done tt
    → (try_commit n w).1.saved ≡ w.saved ++ w.waiting
unfolding try_commit
commit_done-db zero w e = refl
commit_done-db (suc n) w e = absurd (cc e)

commit_failed-db :
    (n : ℕ) (w : Database) (x : Exn)
    → (try_commit n w).0 ≡ failed x
    → (try_commit n w).1.saved ≡ w.saved
unfolding try_commit
commit_failed-db zero w x e = absurd (cc e)
commit_failed-db (suc n) w x e = refl

database-IsSession : IsSession services (λ w. w.waiting) (λ w. w.saved)
database-IsSession = record {
  commit_done = λ w e. commit_done-db w.busy w e;
  commit_failed = λ w x e. commit_failed-db w.busy w x e;
  rollback_drops = λ w. refl;
  rollback_keeps = λ w. refl;
  sleep_pending = λ d w. refl;
  sleep_committed = λ d w. refl;
}

-- One row waits, and the first commit finds the database busy.
abbrev busy_once : Database
busy_once = record { waiting = 4 ∷ []; saved = 1 ∷ []; busy = 1; sent = 0 }

commit_with_retry_loses_rows_example : (commit_with_retry services busy_once).1.saved ≡ 1 ∷ []
unfolding commit_with_retry retry try_commit is_busy
commit_with_retry_loses_rows_example =
    commit_with_retry_loses_rows services (λ w. w.waiting) (λ w. w.saved) database-IsSession
      busy_once refl refl

abbrev shape : Shape
shape = record {
  has_aggregates = true;
  has_lane_changes = true;
  has_session = true;
  has_rollback = true;
}

abbrev setup : Setup
setup = record {
  adapter = some shape;
  adapter_factory = none;
  has_crop_storage = true;
  has_publisher = true;
  agg_windows = "1hour" ∷ [];
  batch_max = 32;
}

abbrev crossing_at : ℕ → Crossing ℕ ℕ ℕ
crossing_at frame = record {
  camera_id = "CAM_01";
  job_id = "job";
  lane_id = "left";
  track_id = 7;
  vehicle_type = "car";
  direction = "forward";
  confidence = 1;
  frame_id = frame;
  timestamp = 0;
  bbox = none;
  crop_bytes = none;
}

abbrev idle : Worker services
idle =
    new_worker services setup 2
      (record { waiting = []; saved = []; busy = 9; sent = 0 }, new_breaker 5 30 1)

account-Run_example :
    account services (take services true 5 (enqueue services (crossing_at 4) idle))
    ≡ account services idle + (0 + 1 + 0)
unfolding new_worker enqueue
account-Run_example = account-Run services (
    next (next here (enqueues (crossing_at 4) idle))
      (takes true 5 (enqueue services (crossing_at 4) idle) refl refl))

Run-IsWithin_example : IsWithin services 2 (enqueue services (crossing_at 4) idle)
unfolding new_worker
Run-IsWithin_example =
    Run-IsWithin services 2 (omega arith)
      (record { same = refl; queue_limit = omega arith; letter_limit = omega arith })
      (next here (enqueues (crossing_at 4) idle))

-- A worker whose queue has two events, and whose database is busy for good.
abbrev full : Worker services
full = record idle {
  queue = some (crossing (crossing_at 4)) ∷ some (crossing (crossing_at 5)) ∷ [];
}

abbrev waiting_events : List (Event services)
waiting_events = crossing (crossing_at 4) ∷ crossing (crossing_at 5) ∷ []

abbrev breaker : Breaker
breaker = new_breaker 3 15 1

breaker-IsUsable : IsUsable breaker
unfolding new_breaker
breaker-IsUsable = record { threshold = omega arith; probes = omega arith; settled = ground arith }

call-IsUsable_example : IsUsable (call down 20 21 breaker 0).1
call-IsUsable_example = call-IsUsable down 20 21 breaker 0 breaker-IsUsable

requests-outage_example : (outage (20 ∷ 22 ∷ 23 ∷ 30 ∷ 34 ∷ []) breaker 0).1 ≡ 3
unfolding new_breaker
requests-outage_example =
    requests-outage 20 (20 ∷ 22 ∷ 23 ∷ 30 ∷ 34 ∷ []) breaker 0 refl (omega arith) (ground arith)

-- A breaker that an outage has opened at time 23.
abbrev opened : Breaker
opened = record breaker { state = open_circuit; failure_count = 3; last_failure_time = 23 }

call_after_leave-rejected_example :
    let stuck = (call down 40 41 (leave 30 body_returned opened) 0).1 in
    call down 100 101 stuck 8 ≡ (rejected, stuck, 8)
unfolding new_breaker
call_after_leave-rejected_example =
    call_after_leave-rejected down down 30 40 41 100 101 opened 0 8 tt refl (omega arith) refl
      (omega arith) refl
