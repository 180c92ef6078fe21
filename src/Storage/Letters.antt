-- ===== src/Storage/Letters.antt =====
-- The limits of the dead-letter list and of the queue.
use traffic_lane_counter.Prelude.{
  Bool, true, false, ℕ, zero, suc, ◌-◌, ◌≤◌, ◌<◌, ◌≡◌, refl, Option, none, some, List, [], ◌∷◌,
  ◌++◌, arith, length, length-append, min, inl, inr, Result-cases,
}
use traffic_lane_counter.Prelude.Lists.{length-drop}
use traffic_lane_counter.Storage.Batch.{Event, crossing, lane_change, process_batch}
use traffic_lane_counter.Storage.Account.{
  Step, enqueues, enqueues_lane_change, stops, takes, works, drains, Run, here, next,
}
use traffic_lane_counter.Storage.Worker.{
  items, finished, Worker, dead_letter_max, append_dead_letter, append_all, push_dead_letter,
  push_all, put, drop_event, watch, alert_once, enqueue, enqueue_lane_change, stop, is_full,
  ensure_adapter, gather, take, work, drain,
}
use traffic_lane_counter.Storage.{Services}

module _ (v : Services) where
  -- The queue is within its limit, which is the one of the start, and so is the dead-letter list.
  pub record IsWithin (limit : ℕ) (w : Worker v) : Type 0 where
    pub same : w.maxsize ≡ limit
    pub queue_limit : length w.queue ≤ limit
    pub letter_limit : length w.dead_letter ≤ dead_letter_max

  append_dead_letter-le :
      (p : Event v) (l : List (Event v))
      → length l ≤ dead_letter_max
      → length (append_dead_letter v p l) ≤ dead_letter_max
  unfolding append_dead_letter
  append_dead_letter-le p l h = ground (arith, length-append l (p ∷ []))

  append_all-le :
      (ps l : List (Event v))
      → length l ≤ dead_letter_max
      → length (append_all v ps l) ≤ dead_letter_max
  unfolding append_all
  append_all-le [] l h = h
  append_all-le (p ∷ ps) l h =
      append_all-le ps (append_dead_letter v p l) (append_dead_letter-le p l h)

  push_dead_letter-le :
      (p : Event v) (l : List (Event v))
      → length l ≤ dead_letter_max
      → length (push_dead_letter v p l) ≤ dead_letter_max
  unfolding push_dead_letter
  push_dead_letter-le p l h = ground (arith, length-append l (p ∷ []), length-drop 1 (l ++ p ∷ []))

  push_all-le :
      (ps l : List (Event v))
      → length l ≤ dead_letter_max
      → length (push_all v ps l) ≤ dead_letter_max
  unfolding push_all
  push_all-le [] l h = h
  push_all-le (p ∷ ps) l h = push_all-le ps (push_dead_letter v p l) (push_dead_letter-le p l h)

  length-gather :
      (room : Bool) (n : ℕ) (q : List (Option (Event v))) → length (gather v room n q).1 ≤ length q
  unfolding gather
  length-gather room zero q = omega arith
  length-gather room (suc n) [] = omega arith
  length-gather true (suc n) (none ∷ q) = omega (arith, length-append q (none ∷ []))
  length-gather false (suc n) (none ∷ q) = omega arith
  length-gather room (suc n) (some p ∷ q) = omega (arith, length-gather room n q)

  work-le :
      (w : Worker v)
      → length w.dead_letter ≤ dead_letter_max
      → length (work v w).dead_letter ≤ dead_letter_max
  unfolding work
  work-le w h = elim (Result-cases (process_batch v w.setup w.batch w.store).0) [
    | inl (e, q) ↦ ground (arith, append_all-le w.batch w.dead_letter h)
    | inr (letters, q) ↦ ground (arith, push_all-le letters w.dead_letter h)
  ]

  letters-ensure_adapter : (w : Worker v) → (ensure_adapter v w).1.dead_letter ≡ w.dead_letter
  unfolding ensure_adapter
  letters-ensure_adapter w = ground arith

  drain_from-le :
      (w : Worker v) (q : List (Event v))
      → items v w.queue ≡ q
      → length w.dead_letter ≤ dead_letter_max
      → length (drain v w).dead_letter ≤ dead_letter_max
  unfolding drain
  drain_from-le w [] q h = ground arith
  drain_from-le w (p ∷ more) q h =
      let ended : Worker v = record w { queue = []; phase = finished } in
      let ready = ensure_adapter v ended in
      elim (Result-cases (process_batch v ready.1.setup (p ∷ more) ready.1.store).0) [
        | inl (e, r) ↦ ground (arith, letters-ensure_adapter ended)
        | inr (letters, r) ↦
            ground (arith, letters-ensure_adapter ended, push_all-le letters w.dead_letter h)
      ]

  drain-le :
      (w : Worker v)
      → length w.dead_letter ≤ dead_letter_max
      → length (drain v w).dead_letter ≤ dead_letter_max
  drain-le w h = drain_from-le w (items v w.queue) refl h

  module _ (limit : ℕ) (positive : 0 < limit) where
    put-IsWithin : (p : Event v) (w : Worker v) → IsWithin limit w → IsWithin limit (put v p w)
    unfolding put drop_event is_full
    put-IsWithin p w h = record {
      same = ground (arith, h.same);
      queue_limit = ground (arith, h.same, h.queue_limit, length-append w.queue (some p ∷ []));
      letter_limit =
          ground (arith, h.letter_limit, append_dead_letter-le p w.dead_letter h.letter_limit);
    }

    enqueue-IsWithin : (p : _) (w : Worker v) → IsWithin limit w → IsWithin limit (enqueue v p w)
    unfolding enqueue put drop_event is_full watch alert_once
    enqueue-IsWithin p w h = record {
      same = ground (arith, h.same);
      queue_limit =
          ground (arith, h.same, h.queue_limit, length-append w.queue (some (crossing p) ∷ []));
      letter_limit =
          ground (
            arith,
            h.letter_limit,
            append_dead_letter-le (crossing p) w.dead_letter h.letter_limit,
          );
    }

    stop-IsWithin : (w : Worker v) → IsWithin limit w → IsWithin limit (stop v w)
    unfolding stop is_full
    stop-IsWithin w h = record {
      same = ground (arith, h.same);
      queue_limit = ground (arith, h.same, h.queue_limit, length-append w.queue (none ∷ []));
      letter_limit = ground (arith, h.letter_limit);
    }

    take-IsWithin_from :
        (room : Bool) (n : ℕ) (w : Worker v) (q : List (Option (Event v)))
        → w.queue ≡ q
        → IsWithin limit w
        → IsWithin limit (take v room n w)
    unfolding take ensure_adapter
    take-IsWithin_from room n w [] q h = record {
      same = ground (arith, h.same);
      queue_limit = ground (arith, h.queue_limit);
      letter_limit = ground (arith, h.letter_limit);
    }
    take-IsWithin_from room n w (none ∷ rest) q h = record {
      same = ground (arith, h.same);
      queue_limit = ground (arith, h.queue_limit);
      letter_limit = ground (arith, h.letter_limit);
    }
    take-IsWithin_from room n w (some p ∷ rest) q h = record {
      same = ground (arith, h.same);
      queue_limit =
          ground (arith, h.queue_limit, length-gather room (min n (w.setup.batch_max - 1)) rest);
      letter_limit =
          ground (arith, h.letter_limit, append_dead_letter-le p w.dead_letter h.letter_limit);
    }

    work-IsWithin : (w : Worker v) → IsWithin limit w → IsWithin limit (work v w)
    unfolding work
    work-IsWithin w h = record {
      same = ground (arith, h.same);
      queue_limit = ground (arith, h.queue_limit);
      letter_limit = work-le w h.letter_limit;
    }

    drain-IsWithin : (w : Worker v) → IsWithin limit w → IsWithin limit (drain v w)
    unfolding drain ensure_adapter
    drain-IsWithin w h = record {
      same = ground (arith, h.same);
      queue_limit = ground arith;
      letter_limit = drain-le w h.letter_limit;
    }

    Step-IsWithin : {k : ℕ} {w w' : Worker v} → Step v k w w' → IsWithin limit w → IsWithin limit w'
    Step-IsWithin (enqueues p w) h = enqueue-IsWithin p w h
    Step-IsWithin (enqueues_lane_change p w) h =
        unfold enqueue_lane_change in put-IsWithin (lane_change p) w h
    Step-IsWithin (stops w) h = stop-IsWithin w h
    Step-IsWithin (takes room n w l e) h = take-IsWithin_from room n w w.queue refl h
    Step-IsWithin (works w p ps e) h = work-IsWithin w h
    Step-IsWithin (drains w l e r) h = drain-IsWithin w h

    -- Whatever the producers and the thread do, in any order, a queue with a limit keeps within it, and
    -- the dead-letter list within its 10000 places.
    pub Run-IsWithin :
        {first w : Worker v} {n : ℕ} → IsWithin limit first → Run v first n w → IsWithin limit w
    Run-IsWithin h here = h
    Run-IsWithin h (next r s) = Step-IsWithin s (Run-IsWithin h r)
