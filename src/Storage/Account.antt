-- ===== src/Storage/Account.antt =====
-- The accounts that the storage worker keeps of its events.
use traffic_lane_counter.Prelude.{
  Bool, true, false, ℕ, zero, suc, ◌+◌, ◌-◌, ◌≡◌, refl, true, Option, none, some, List, [], ◌∷◌,
  ◌++◌, arith, length, min,
}
use traffic_lane_counter.Storage.Batch.{Event, crossing, lane_change}
use traffic_lane_counter.Storage.Worker.{
  Worker, looping, draining, put, drop_event, watch, alert_once, enqueue, enqueue_lane_change, stop,
  ensure_adapter, gather, take, work, items, drain,
}
use traffic_lane_counter.Storage.{Crossing, LaneChange, Services}

module _ (v : Services) where
  open v use {F, Time, Bytes}

  -- One step of a producer or of the thread.
  pub data Step : ℕ → Worker v → Worker v → Type 0 where
    enqueues : (p : Crossing F Time Bytes) (w : Worker v) → Step 1 w (enqueue v p w)
    enqueues_lane_change :
        (p : LaneChange Time) (w : Worker v) → Step 1 w (enqueue_lane_change v p w)
    stops : (w : Worker v) → Step 0 w (stop v w)
    takes :
        (room : Bool) (arrived : ℕ) (w : Worker v)
        → w.phase ≡ looping
        → w.batch ≡ []
        → Step 0 w (take v room arrived w)
    works :
        (w : Worker v) (p : Event v) (ps : List (Event v)) → w.batch ≡ p ∷ ps → Step 0 w (work v w)
    drains :
        (w : Worker v)
        → w.phase ≡ draining
        → w.batch ≡ []
        → (ensure_adapter v w).0 ≡ true
        → Step 0 w (drain v w)

  -- The steps that lead from a worker to another, and how many events the producers handed over.
  pub data Run (first : Worker v) : ℕ → Worker v → Type 0 where
    here : Run first 0 first
    next : {n k : ℕ} {w w' : Worker v} → Run first n w → Step k w w' → Run first (n + k) w'

  -- The events that the worker knows of: dropped, in the queue, in hand, processed, and failed.
  abbrev pub account : Worker v → ℕ
  account w =
      w.dropped_events
      + length (items v w.queue)
      + length w.batch
      + w.total_processed
      + w.total_errors

  items-append :
      (q : List (Option (Event v))) (x : Option (Event v))
      → length (items v (q ++ x ∷ [])) ≡ length (items v q) + length (items v (x ∷ []))
  unfolding items
  items-append [] x = omega arith
  items-append (none ∷ q) x = omega (arith, items-append q x)
  items-append (some p ∷ q) x = omega (arith, items-append q x)

  pub account-put : (p : Event v) (w : Worker v) → account (put v p w) ≡ account w + 1
  unfolding put drop_event items
  account-put p w = ground (arith, items-append w.queue (some p))

  account-watch : (w : Worker v) → account (watch v w) ≡ account w
  unfolding watch
  account-watch w = ground arith

  pub account-enqueue :
      (p : Crossing F Time Bytes) (w : Worker v) → account (enqueue v p w) ≡ account w + 1
  unfolding enqueue alert_once drop_event
  account-enqueue p w = ground (arith, account-watch w, account-put (crossing p) (watch v w))

  account-stop : (w : Worker v) → account (stop v w) ≡ account w
  unfolding stop items
  account-stop w = ground (arith, items-append w.queue none)

  account-ensure_adapter : (w : Worker v) → account (ensure_adapter v w).1 ≡ account w
  unfolding ensure_adapter
  account-ensure_adapter w = ground arith

  items-gather :
      (room : Bool) (n : ℕ) (q : List (Option (Event v)))
      → length (gather v room n q).0 + length (items v (gather v room n q).1) ≡ length (items v q)
  unfolding gather items
  items-gather room zero q = omega arith
  items-gather room (suc n) [] = omega arith
  items-gather true (suc n) (none ∷ q) = omega (arith, items-append q none)
  items-gather false (suc n) (none ∷ q) = omega arith
  items-gather room (suc n) (some p ∷ q) = omega (arith, items-gather room n q)

  queue-ensure_adapter :
      (w : Worker v)
      → ((ensure_adapter v w).1.queue ≡ w.queue) × ((ensure_adapter v w).1.batch ≡ w.batch)
  unfolding ensure_adapter
  queue-ensure_adapter w = ground arith

  account-take_from :
      (room : Bool) (n : ℕ) (w : Worker v) (q : List (Option (Event v)))
      → w.queue ≡ q
      → w.batch ≡ []
      → account (take v room n w) ≡ account w
  unfolding take items
  account-take_from room n w [] q e = ground arith
  account-take_from room n w (none ∷ rest) q e = ground arith
  account-take_from room n w (some p ∷ rest) q e =
      let w0 : Worker v = record w { queue = rest } in
      ground (
        arith,
        items-gather room (min n (w.setup.batch_max - 1)) rest,
        account-ensure_adapter w0,
        queue-ensure_adapter w0,
      )

  account-work : (w : Worker v) → account (work v w) ≡ account w
  unfolding work
  account-work w = ground arith

  account-drain :
      (w : Worker v)
      → w.batch ≡ []
      → (ensure_adapter v w).0 ≡ true
      → account (drain v w) ≡ account w
  unfolding drain
  account-drain w e r = ground (arith, account-ensure_adapter w)

  pub account-Step : {k : ℕ} {w w' : Worker v} → Step k w w' → account w' ≡ account w + k
  account-Step (enqueues p w) = account-enqueue p w
  account-Step (enqueues_lane_change p w) =
      unfold enqueue_lane_change in account-put (lane_change p) w
  account-Step (stops w) = omega (arith, account-stop w)
  account-Step (takes room n w l e) = omega (arith, account-take_from room n w w.queue refl e)
  account-Step (works w p ps e) = omega (arith, account-work w)
  account-Step (drains w l e r) = omega (arith, account-drain w e r)

  -- Whatever the producers and the thread do, in any order: the events that are handed over are all
  -- accounted for, each as dropped, in the queue, in hand, processed or failed. The thread is taken to
  -- get an adapter for its last drain.
  pub account-Run : {first w : Worker v} {n : ℕ} → Run first n w → account w ≡ account first + n
  account-Run here = omega arith
  account-Run (next r s) = omega (arith, account-Run r, account-Step s)
