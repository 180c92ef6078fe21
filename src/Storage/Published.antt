-- ===== src/Storage/Published.antt =====
-- What a batch of the storage worker has done where it publishes, `_process_batch`.
use traffic_lane_counter.Prelude.{◌≡◌, ◌⊎◌, true, failed, done}
use traffic_lane_counter.Storage.Commit.{is_busy}
use traffic_lane_counter.Storage.{Exn, Services}

module _ (v : Services) where
  open v use {World}

  -- The first attempt of the commit returned, or it failed with a text of a locked or busy database.
  abbrev pub CommitsFirst : World → Type 0
  CommitsFirst w =
      ((v.commit w).0 ≡ done tt) ⊎ ((e : Exn) × ((v.commit w).0 ≡ failed e) × (is_busy e ≡ true))
