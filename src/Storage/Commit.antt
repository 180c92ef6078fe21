-- ===== src/Storage/Commit.antt =====
-- packages/tf_db/session.py: `commit_with_retry`, with the write lock held by the caller.
use traffic_lane_counter.Prelude.{ℕ, zero, suc, ◌+◌, Bool, true, false, Result, failed, done}
use traffic_lane_counter.Storage.{Exn, os_error, key_error, value_error, database_error, Services}

-- `"locked" in msg or "busy" in msg`
unfoldable pub is_busy : Exn → Bool
is_busy (os_error busy) = busy
is_busy (key_error busy) = busy
is_busy (value_error busy) = busy
is_busy (database_error busy) = busy
is_busy _ = false

module _ (v : Services) where
  open v use {World, commit, rollback, sleep}

  -- The loop, with this many attempts left, this delay, and the exception of the last attempt. The
  -- delay is in units of `base_delay` and doubles after each attempt.
  unfoldable pub retry : ℕ → ℕ → Exn → World → Result Exn (Unit {0}) × World
  unfolding is_busy
  retry zero delay last w = (failed last, w)
  retry (suc n) delay last w =
      let (result, w') = commit w in
      elim result [
        | done u ↦ (done tt, w')
        | failed e ↦ elim (is_busy e) [
          | false ↦ (failed e, w')
          | true ↦ retry n (delay + delay) e (sleep delay (rollback w'))
        ]
      ]

  -- `commit_with_retry(session, already_locked=True)`, with 8 attempts.
  unfoldable pub commit_with_retry : World → Result Exn (Unit {0}) × World
  unfolding retry
  commit_with_retry w = retry 8 1 (database_error true) w
