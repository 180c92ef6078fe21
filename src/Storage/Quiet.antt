-- ===== src/Storage/Quiet.antt =====
-- What the steps of `_process_batch` publish: nothing before the batch is stored.
use traffic_lane_counter.Prelude.{
  ℕ, zero, suc, ◌+◌, ◌≡◌, refl, ap, ◌∙◌, ◌⊎◌, inl, inr, Bool, true, Option, none, List, [], ◌∷◌,
  String, Result, failed, done, if◌then◌else◌, arith, Result-cases, Option-cases,
}
use traffic_lane_counter.Breaker.{call}
use traffic_lane_counter.Storage.Commit.{retry, commit_with_retry}
use traffic_lane_counter.Storage.Persist.{
  Store, and_then, suppress, on_world, guarded, event_row, lane_change_row, is_lookup_or_io,
  buckets_of, rollup_aggregates, save_crop, insert_crossing,
}
use traffic_lane_counter.Storage.Batch.{
  Event, crossing, lane_change, prepare, insert_one, insert_all, store_batch, publish_all,
  process_batch,
}
use traffic_lane_counter.Storage.{
  Exn, database_error, Crossing, LaneChangeRow, EventRow, Bucket, Services, Shape, Setup,
}

-- What is published is seen by `seen`, and only `publish_event` changes it.
pub record IsQuiet (v : Services) {M : Type 0} (seen : v.World → M) : Type 0 where
  pub sleeps : (d : ℕ) (w : v.World) → seen (v.sleep d w) ≡ seen w
  pub saves :
      (p : Crossing v.F v.Time v.Bytes) (b : v.Bytes) (w : v.World)
      → seen (v.save_crop p b w).1 ≡ seen w
  pub inserts : (r : EventRow v.F v.Time) (w : v.World) → seen (v.insert_event r w).1 ≡ seen w
  pub changes :
      (r : LaneChangeRow v.Time) (w : v.World) → seen (v.insert_lane_change r w).1 ≡ seen w
  pub upserts :
      (a b c : String) (bs : List (Bucket v.Time)) (w : v.World)
      → seen (v.upsert_buckets a b c bs w).1 ≡ seen w
  pub commits : (w : v.World) → seen (v.commit w).1 ≡ seen w
  pub rolls_back : (w : v.World) → seen (v.rollback w) ≡ seen w

module _ (v : Services) {M : Type 0} (seen : v.World → M) (quiet : IsQuiet v seen) where
  open v use {F, Time, Bytes, World}

  -- The result has published nothing beyond `m`.
  Keeps : {A : Type 0} → M → Result Exn A × Store v → Type 0
  Keeps m r = seen r.1.0 ≡ m

  and_then-Keeps :
      {A B : Type 0} (m : M) (r : Result Exn A × Store v)
      (next : A → Store v → Result Exn B × Store v)
      → Keeps m r
      → ((a : A) (s : Store v) → seen s.0 ≡ m → Keeps m (next a s))
      → Keeps m (and_then r next)
  unfolding Keeps
  and_then-Keeps m (failed e, s) next h k = h
  and_then-Keeps m (done a, s) next h k = k a s h

  suppress-Keeps :
      (m : M) (c : Exn → Bool) (r : Result Exn (Unit {0}) × Store v)
      → Keeps m r
      → Keeps m (suppress c r)
  unfolding Keeps
  suppress-Keeps m c (failed e, s) h = ground arith
  suppress-Keeps m c (done u, s) h = h

  guarded-Keeps :
      (m : M) (f : World → Result Exn (Unit {0}) × World) (s : Store v)
      → ((w : World) → seen (f w).1 ≡ seen w)
      → seen s.0 ≡ m
      → Keeps m (guarded v f s)
  unfolding Keeps guarded call
  guarded-Keeps m f (w, b) q h = ground (arith, q w, h)

  rollup-Keeps :
      (m : M) (c : Setup) (shape : Shape) (p : Crossing F Time Bytes) (s : Store v)
      (bs : List (Bucket Time))
      → buckets_of v c.agg_windows p.timestamp ≡ bs
      → seen s.0 ≡ m
      → Keeps m (rollup_aggregates v c shape p s)
  unfolding rollup_aggregates Keeps
  rollup-Keeps m c shape p s [] e h = ground arith
  rollup-Keeps m c shape p s (b ∷ bs) e h =
      let one =
        suppress-Keeps m is_lookup_or_io
          (on_world v (v.upsert_buckets p.camera_id p.lane_id p.vehicle_type (b ∷ bs)) s)
          (quiet.upserts p.camera_id p.lane_id p.vehicle_type (b ∷ bs) s.0 ∙ h) in
      ground (arith, one)

  save_crop-Keeps :
      (m : M) (c : Setup) (p : Crossing F Time Bytes) (s : Store v)
      → seen s.0 ≡ m
      → Keeps m (save_crop v c p s)
  unfolding save_crop Keeps
  save_crop-Keeps m c p s h = elim (Option-cases p.crop_bytes) [
    | inl e ↦ ground arith
    | inr (b, e) ↦ ground (arith, quiet.saves p b s.0)
  ]

  insert_crossing-Keeps :
      (m : M) (c : Setup) (shape : Shape) (p : Crossing F Time Bytes) (crop : Option String)
      (s : Store v)
      → seen s.0 ≡ m
      → Keeps m (insert_crossing v c shape p crop s)
  unfolding insert_crossing
  insert_crossing-Keeps m c shape p crop s h =
      and_then-Keeps m (guarded v (v.insert_event (event_row v p crop)) s)
        (λ _ s'. rollup_aggregates v c shape p s')
        (guarded-Keeps m (v.insert_event (event_row v p crop)) s
          (quiet.inserts (event_row v p crop)) h)
        (λ _ s' k. rollup-Keeps m c shape p s' (buckets_of v c.agg_windows p.timestamp) refl k)

  retry-quiet : (n d : ℕ) (last : Exn) (w : World) → seen (retry v n d last w).1 ≡ seen w
  unfolding retry
  retry-quiet zero d last w = refl
  retry-quiet (suc n) d last w =
      let more = λ (e : Exn). retry-quiet n (d + d) e (v.sleep d (v.rollback (v.commit w).1)) in
      elim (Result-cases (v.commit w).0) [
        | inr (u, e) ↦ ground (arith, quiet.commits w)
        | inl (x, e) ↦ ground (
          arith,
          quiet.commits w,
          more x,
          quiet.sleeps d (v.rollback (v.commit w).1),
          quiet.rolls_back (v.commit w).1,
        )
      ]

  prepare-Keeps :
      (m : M) (c : Setup) (ps : List (Event v)) (s : Store v)
      → seen s.0 ≡ m
      → Keeps m (prepare v c ps s)
  unfolding prepare Keeps
  prepare-Keeps m c [] s h = h
  prepare-Keeps m c (lane_change p ∷ rest) s h =
      and_then-Keeps m (prepare v c rest s) (λ more s'. (done ((lane_change p, none) ∷ more), s'))
        (prepare-Keeps m c rest s h) (λ more s' k. k)
  prepare-Keeps m c (crossing p ∷ rest) s h =
      and_then-Keeps m (save_crop v c p s)
        (λ crop s1.
          and_then (prepare v c rest s1) (λ more s2. (done ((crossing p, crop) ∷ more), s2)))
        (save_crop-Keeps m c p s h)
        (λ crop s1 k.
          and_then-Keeps m (prepare v c rest s1) (λ more s2. (done ((crossing p, crop) ∷ more), s2))
            (prepare-Keeps m c rest s1 k) (λ more s2 l. l))

  insert_one-Keeps :
      (m : M) (c : Setup) (shape : Shape) (p : Event v × Option String) (s : Store v)
      → seen s.0 ≡ m
      → Keeps m (insert_one v c shape p s)
  unfolding insert_one Keeps
  insert_one-Keeps m c shape (crossing p, crop) s h = insert_crossing-Keeps m c shape p crop s h
  insert_one-Keeps m c shape (lane_change p, crop) s h =
      ground (arith, quiet.changes (lane_change_row v p) s.0)

  insert_all-Keeps :
      (m : M) (c : Setup) (shape : Shape) (ps : List (Event v × Option String)) (s : Store v)
      → seen s.0 ≡ m
      → Keeps m (insert_all v c shape ps s)
  unfolding insert_all Keeps
  insert_all-Keeps m c shape [] s h = h
  insert_all-Keeps m c shape (p ∷ ps) s h =
      and_then-Keeps m (insert_one v c shape p s) (λ _ s'. insert_all v c shape ps s')
        (insert_one-Keeps m c shape p s h) (λ _ s' k. insert_all-Keeps m c shape ps s' k)

  commit-Keeps : (m : M) (s : Store v) → seen s.0 ≡ m → Keeps m (on_world v (commit_with_retry v) s)
  unfolding commit_with_retry Keeps
  commit-Keeps m s h = retry-quiet 8 1 (database_error true) s.0 ∙ h

  store_batch-Keeps :
      (m : M) (c : Setup) (ps : List (Event v × Option String)) (s : Store v)
      → seen s.0 ≡ m
      → Keeps m (store_batch v c ps s)
  unfolding store_batch Keeps
  store_batch-Keeps m c ps s h = elim (Option-cases c.adapter) [
    | inl e ↦ rw (e, store_batch) h
    | inr (shape, e) ↦
        rw (e, store_batch)
          (and_then-Keeps m (insert_all v c shape ps s)
            (λ _ s'.
              if shape.has_session then on_world v (commit_with_retry v) s' else (done tt, s'))
            (insert_all-Keeps m c shape ps s h)
            (λ _ s' k. let committed = commit-Keeps m s' k in ground (arith, committed)))
  ]

  and_then-cases :
      {A B : Type 0} (m : M) (r : Result Exn A × Store v)
      (next : A → Store v → Result Exn B × Store v)
      → Keeps m r
      → Keeps m (and_then r next) ⊎ ((a : A) × (s : Store v) × (r ≡ (done a, s)) × (seen s.0 ≡ m))
  unfolding Keeps
  and_then-cases m (failed e, s) next h = inl h
  and_then-cases m (done a, s) next h = inr (a, s, refl, h)

  pub batch_cases :
      (c : Setup) (p q : Event v) (rest : List (Event v)) (s : Store v)
      → (seen (process_batch v c (p ∷ q ∷ rest) s).1.0 ≡ seen s.0)
        ⊎ ((prepared : List (Event v × Option String)) × (s1 : Store v) × (s2 : Store v) × (prepare
                v c
                (p ∷ q ∷ rest)
                s
              ≡ (done prepared, s1))
            × (store_batch v c prepared s1 ≡ (done tt, s2)))
  unfolding process_batch Keeps
  batch_cases c p q rest s =
      let m = seen s.0 in
      let batch = p ∷ q ∷ rest in
      let nothing : List (Event v) = [] in
      let publish = λ (prepared : List (Event v × Option String)) (u : Unit {0}) (s2 : Store v).
        and_then (publish_all v c prepared s2) (λ _ s3. (done nothing, s3)) in
      let store = λ (prepared : List (Event v × Option String)) (s1 : Store v).
        and_then (store_batch v c prepared s1) (publish prepared) in
      elim (and_then-cases m (prepare v c batch s) store (prepare-Keeps m c batch s refl)) [
        | inl k ↦ inl k
        | inr (prepared, s1, e, h) ↦
            elim (and_then-cases m (store_batch v c prepared s1) (publish prepared)
              (store_batch-Keeps m c prepared s1 h)) [
                | inl k ↦ inl (ap (λ x. seen (and_then x store).1.0) e ∙ k)
                | inr (u, s2, f, l) ↦ inr (prepared, s1, s2, e, f)
              ]
      ]
