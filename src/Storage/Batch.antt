-- ===== src/Storage/Batch.antt =====
-- `_process` and `_process_batch` of `StorageWorker`. They return the payloads that they put on the
-- dead-letter list.
use traffic_lane_counter.Prelude.{
  Bool, true, false, Option, none, some, List, [], ◌∷◌, String, Result, failed, done, if◌then◌else◌,
}
use traffic_lane_counter.Storage.Commit.{commit_with_retry}
use traffic_lane_counter.Storage.Persist.{
  Store, and_then, on_world, is_dead_letter, save_crop, insert_crossing, lane_change_row,
  publish_crossing, publish_lane_change,
}
use traffic_lane_counter.Storage.{
  Exn, attribute_error, Crossing, LaneChange, Services, Shape, Setup,
}

pub data Payload (F T B : Type 0) : Type 0 where
  crossing : Crossing F T B → Payload F T B
  lane_change : LaneChange T → Payload F T B

module _ (v : Services) where
  open v use {F, Time, Bytes}

  abbrev pub Event : Type 0
  Event = Payload F Time Bytes

  -- The commit of `_process`, which needs a session.
  unfoldable pub commit_session : Shape → Store v → Result Exn (Unit {0}) × Store v
  unfolding commit_with_retry
  commit_session shape s =
      if shape.has_session then on_world v (commit_with_retry v) s else (failed attribute_error, s)

  -- `_process` of a lane change
  unfoldable pub process_lane_change :
      Setup → LaneChange Time → Store v → Result Exn (List Event) × Store v
  unfolding commit_session publish_lane_change lane_change_row
  process_lane_change c p s =
      let stored : Result Exn (Unit {0}) × Store v = elim c.adapter [
        | none ↦ (done tt, s)
        | some shape ↦
            if shape.has_lane_changes
            then and_then (on_world v (v.insert_lane_change (lane_change_row v p)) s)
                (λ _ s'. commit_session shape s')
            else (done tt, s)
      ] in
      and_then stored (λ _ s'. and_then (publish_lane_change v c p s') (λ _ s''. (done [], s'')))

  -- The `try` of `_process`: is the crossing to be published? If not, it is a dead letter.
  unfoldable pub store_crossing :
      Setup → Crossing F Time Bytes → Option String → Store v → Result Exn Bool × Store v
  unfolding insert_crossing is_dead_letter
  store_crossing c p crop s = elim c.adapter [
    | none ↦ (done true, s)
    | some shape ↦
        let (result, s') =
          and_then (insert_crossing v c shape p crop s) (λ _ s'. commit_session shape s') in
        elim result [
          | done u ↦ (done true, s')
          | failed e ↦ if is_dead_letter e then (done false, s') else (failed e, s')
        ]
  ]

  unfoldable pub process_crossing :
      Setup → Crossing F Time Bytes → Store v → Result Exn (List Event) × Store v
  unfolding save_crop publish_crossing
  process_crossing c p s = and_then (save_crop v c p s) (λ crop s1.
      and_then (store_crossing c p crop s1) (λ stored s2.
        if stored
        then and_then (publish_crossing v c p crop s2) (λ _ s3. (done [], s3))
        else (done (crossing p ∷ []), s2)))

  -- `_process`
  unfoldable pub process : Setup → Event → Store v → Result Exn (List Event) × Store v
  unfolding process_lane_change process_crossing
  process c (crossing p) s = process_crossing c p s
  process c (lane_change p) s = process_lane_change c p s

  -- The first loop of `_process_batch`: the payloads with the paths of their crops.
  unfoldable pub prepare :
      Setup → List Event → Store v → Result Exn (List (Event × Option String)) × Store v
  prepare c [] s = (done [], s)
  prepare c (lane_change p ∷ rest) s =
      and_then (prepare c rest s) (λ more s'. (done ((lane_change p, none) ∷ more), s'))
  prepare c (crossing p ∷ rest) s =
      and_then (save_crop v c p s) (λ crop s1.
        and_then (prepare c rest s1) (λ more s2. (done ((crossing p, crop) ∷ more), s2)))

  -- The inserts of one payload of a batch.
  unfoldable pub insert_one :
      Setup → Shape → Event × Option String → Store v → Result Exn (Unit {0}) × Store v
  insert_one c shape (crossing p, crop) s = insert_crossing v c shape p crop s
  insert_one c shape (lane_change p, crop) s =
      if shape.has_lane_changes
      then on_world v (v.insert_lane_change (lane_change_row v p)) s
      else (done tt, s)

  unfoldable pub insert_all :
      Setup → Shape → List (Event × Option String) → Store v → Result Exn (Unit {0}) × Store v
  unfolding insert_one
  insert_all c shape [] s = (done tt, s)
  insert_all c shape (p ∷ rest) s =
      and_then (insert_one c shape p s) (λ _ s'. insert_all c shape rest s')

  -- The inserts of a batch, then one commit, if the adapter has a session.
  unfoldable pub store_batch :
      Setup → List (Event × Option String) → Store v → Result Exn (Unit {0}) × Store v
  unfolding insert_all
  store_batch c prepared s = elim c.adapter [
    | none ↦ (done tt, s)
    | some shape ↦
        and_then (insert_all c shape prepared s)
          (λ _ s'. if shape.has_session then on_world v (commit_with_retry v) s' else (done tt, s'))
  ]

  unfoldable pub publish_all :
      Setup → List (Event × Option String) → Store v → Result Exn (Unit {0}) × Store v
  publish_all c [] s = (done tt, s)
  publish_all c ((crossing p, crop) ∷ rest) s =
      and_then (publish_crossing v c p crop s) (λ _ s'. publish_all c rest s')
  publish_all c ((lane_change p, crop) ∷ rest) s =
      and_then (publish_lane_change v c p s) (λ _ s'. publish_all c rest s')

  -- `_process_batch`
  unfoldable pub process_batch : Setup → List Event → Store v → Result Exn (List Event) × Store v
  unfolding process prepare store_batch publish_all
  process_batch c (payload ∷ []) s = process c payload s
  process_batch c batch s = and_then (prepare c batch s) (λ prepared s1.
      and_then (store_batch c prepared s1)
        (λ _ s2. and_then (publish_all c prepared s2) (λ _ s3. (done [], s3))))
