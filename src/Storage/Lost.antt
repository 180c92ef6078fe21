-- ===== src/Storage/Lost.antt =====
-- The retry of a commit, and the last drain of the storage worker.
use mathlib.Core.List.{append-nil}
use traffic_lane_counter.Prelude.{
  ℕ, zero, suc, ◌+◌, ◌≡◌, refl, ◌∙◌, sym, ap, inl, inr, true, false, some, List, [], ◌∷◌, ◌++◌,
  failed, done, arith, Result-cases, Bool-cases,
}
use traffic_lane_counter.Storage.Commit.{is_busy, retry, commit_with_retry}
use traffic_lane_counter.Storage.Batch.{Event, process_batch}
use traffic_lane_counter.Storage.Worker.{Worker, items, append_all, work, drain, ensure_adapter}
use traffic_lane_counter.Storage.{Exn, database_error, Services, Shape}

-- What the code relies on of a session of the database: the rows that wait for a commit, and those
-- that are committed. A rollback drops the waiting rows.
pub record IsSession (v : Services) {R : Type 0} (pending committed : v.World → List R)
    : Type 0 where
  pub commit_done :
      (w : v.World) → (v.commit w).0 ≡ done tt → committed (v.commit w).1 ≡ committed w ++ pending w
  pub commit_failed :
      (w : v.World) (e : Exn) → (v.commit w).0 ≡ failed e → committed (v.commit w).1 ≡ committed w
  pub rollback_drops : (w : v.World) → pending (v.rollback w) ≡ []
  pub rollback_keeps : (w : v.World) → committed (v.rollback w) ≡ committed w
  pub sleep_pending : (d : ℕ) (w : v.World) → pending (v.sleep d w) ≡ pending w
  pub sleep_committed : (d : ℕ) (w : v.World) → committed (v.sleep d w) ≡ committed w

module _ (v : Services) {R : Type 0} (pending committed : v.World → List R)
    (laws : IsSession v pending committed) where
  open v use {World, commit, rollback, sleep}

  -- The world in which the next attempt runs.
  after_failure : ℕ → World → World
  after_failure d w = sleep d (rollback (commit w).1)

  after_failure-pending : (d : ℕ) (w : World) → pending (after_failure d w) ≡ []
  unfolding after_failure
  after_failure-pending d w =
      laws.sleep_pending d (rollback (commit w).1) ∙ laws.rollback_drops (commit w).1

  after_failure-committed :
      (d : ℕ) (w : World) (e : Exn)
      → (commit w).0 ≡ failed e
      → committed (after_failure d w) ≡ committed w
  unfolding after_failure
  after_failure-committed d w e q =
      laws.sleep_committed d (rollback (commit w).1)
      ∙ laws.rollback_keeps (commit w).1
      ∙ laws.commit_failed w e q

  retry_none : (d : ℕ) (last : Exn) (w : World) → (retry v 0 d last w).0 ≡ failed last
  unfolding retry
  retry_none d last w = refl

  retry_done :
      (n d : ℕ) (last : Exn) (w : World)
      → (commit w).0 ≡ done tt
      → retry v (suc n) d last w ≡ (done tt, (commit w).1)
  unfolding retry
  retry_done n d last w q = ground arith

  retry_busy :
      (n d : ℕ) (last e : Exn) (w : World)
      → (commit w).0 ≡ failed e
      → is_busy e ≡ true
      → retry v (suc n) d last w ≡ retry v n (d + d) e (after_failure d w)
  unfolding retry after_failure
  retry_busy n d last e w q b = ground arith

  retry_other :
      (n d : ℕ) (last e : Exn) (w : World)
      → (commit w).0 ≡ failed e
      → is_busy e ≡ false
      → (retry v (suc n) d last w).0 ≡ failed e
  unfolding retry
  retry_other n d last e w q b = ground arith

  -- With no rows waiting, the attempts that are left commit none.
  retry_empty :
      (n d : ℕ) (last : Exn) (w : World)
      → pending w ≡ []
      → (retry v n d last w).0 ≡ done tt
      → committed (retry v n d last w).1 ≡ committed w
  retry_empty zero d last w p q = absurd (cc (retry_none d last w, q))
  retry_empty (suc n) d last w p q = elim (Result-cases (commit w).0) [
    | inr (u, e) ↦
        rw (retry_done n d last w e)
          (laws.commit_done w e ∙ ap (λ x. committed w ++ x) p ∙ append-nil (committed w))
    | inl (x, e) ↦ elim (Bool-cases (is_busy x)) [
      | inr b ↦ absurd (cc (q, retry_other n d last x w e b))
      | inl b ↦
          let same = retry_busy n d last x w e b in
          rw same (
            retry_empty n (d + d) x (after_failure d w) (after_failure-pending d w)
              (sym (ap (λ r. r.0) same) ∙ q)
            ∙ after_failure-committed d w x e)
    ]
  ]

  -- If the first attempt of a commit finds the database locked or busy, and the call returns all the
  -- same, then the rows that waited are lost: what is committed is what was committed before.
  pub commit_with_retry_loses_rows :
      (w : World)
      → (commit w).0 ≡ failed (database_error true)
      → (commit_with_retry v w).0 ≡ done tt
      → committed (commit_with_retry v w).1 ≡ committed w
  unfolding commit_with_retry is_busy
  commit_with_retry_loses_rows w e q =
      let same = retry_busy 7 1 (database_error true) (database_error true) w e refl in
      rw same (
        retry_empty 7 2 (database_error true) (after_failure 1 w) (after_failure-pending 1 w)
          (sym (ap (λ r. r.0) same) ∙ q)
        ∙ after_failure-committed 1 w (database_error true) e)

-- When the last batch cannot be stored, the drain counts its events as errors, as the loop does with a
-- batch, but where the loop appends them to the dead-letter list the drain leaves the list as it was,
-- with the queue empty.
pub drain_loses_events :
    (v : Services) (w : Worker v) (shape : Shape) (p : Event v) (more : List (Event v)) (e : Exn)
    → w.setup.adapter ≡ some shape
    → items v w.queue ≡ p ∷ more
    → (process_batch v w.setup (p ∷ more) w.store).0 ≡ failed e
    → let in_loop = work v (record w { batch = p ∷ more }) in
      ((drain v w).total_errors ≡ in_loop.total_errors)
      × (in_loop.dead_letter ≡ append_all v (p ∷ more) w.dead_letter)
      × ((drain v w).dead_letter ≡ w.dead_letter)
      × ((drain v w).queue ≡ [])
unfolding drain work ensure_adapter
drain_loses_events v w shape p more e a i f = ground arith
