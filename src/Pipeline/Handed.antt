-- ===== src/Pipeline/Handed.antt =====
-- What the pipeline hands to the storage worker over the frames of a run.
use traffic_lane_counter.Prelude.{
  ℕ, ◌+◌, ◌≡◌, refl, ap, ◌∙◌, subst, inl, inr, true, Option, none, some, List, [], ◌∷◌, ◌++◌, map,
  String, arith, Option-cases, Bool-cases, length, length-append,
}
use traffic_lane_counter.Vision.{Vision}
use traffic_lane_counter.Tracks.{LaneChange}
use traffic_lane_counter.Counting.{CountEvent, Direction}
use traffic_lane_counter.Counting.Once.{AllDistinct, IsFresh-keys, key}
use traffic_lane_counter.Counting.Totals.{count_at, matching}
use traffic_lane_counter.Tracker.{Detector}
use traffic_lane_counter.Detection.{Parts, FrameResult, Loaded, get_counts}
use traffic_lane_counter.Detection.Frames.{start-IsZero}
use traffic_lane_counter.Storage.{Services, Setup}
use traffic_lane_counter.Storage.Batch.{lane_change}
use traffic_lane_counter.Storage.Persist.{Store}
use traffic_lane_counter.Storage.Worker.{Worker, new_worker, items, enqueue, enqueue_lane_change}
use traffic_lane_counter.Storage.Account
use traffic_lane_counter.Storage.Account.{account, account-put, account-enqueue, account-Step}
use traffic_lane_counter.Pipeline.{
  Outside, prepare, detect_frame, Pipeline, payload, publish, hand_over, hand_over_all,
  store_change, store_changes, step,
}
use traffic_lane_counter.Pipeline.Counted.{Grows-refl, Grows-then, Holds, detect_frame-Holds}

module _ (v : Vision) (d : Detector v.F) (s : Services) (o : Outside v d s) where
  open v use {F, Polygon}
  open d use {Frame, Model}

  pub publish-keeps :
      (c : CountEvent F) (p : Pipeline v d s o)
      → ((publish v d s o c p).1.core ≡ p.core) × ((publish v d s o c p).1.storage ≡ p.storage)
  unfolding publish
  publish-keeps c p = ground arith

  pub hand_over-keeps :
      (f : Frame) (c : CountEvent F) (p : Pipeline v d s o)
      → ((hand_over v d s o f c p).1.core ≡ p.core)
        × (account s (hand_over v d s o f c p).1.storage ≡ account s p.storage + 1)
  unfolding hand_over
  hand_over-keeps f c p =
      let x = payload v d s o f c p in
      let q : Pipeline v d s o = record p { storage = enqueue s x p.storage } in
      let (same_core, same_storage) = publish-keeps c q in
      (same_core, rw same_storage (account-enqueue s x p.storage))

  hand_over_all-keeps :
      (f : Frame) (cs : List (CountEvent F)) (p : Pipeline v d s o)
      → ((hand_over_all v d s o f cs p).1.core ≡ p.core)
        × ((hand_over_all v d s o f cs p).0 ≡ true
            → account s (hand_over_all v d s o f cs p).1.storage ≡ account s p.storage + length cs)
  unfolding hand_over_all
  hand_over_all-keeps f [] p = (refl, λ _. omega arith)
  hand_over_all-keeps f (c ∷ cs) p =
      let (core, one) = hand_over-keeps f c p in
      let q = (hand_over v d s o f c p).1 in
      let (same, all) = hand_over_all-keeps f cs q in
      elim (Bool-cases (hand_over v d s o f c p).0) [
        | inl t ↦ rw (t, hand_over_all) (same ∙ core, λ h. omega (arith, all h, one))
        | inr t ↦ rw (t, hand_over_all) (core, λ h. cc)
      ]

  account-store_change :
      (e : LaneChange) (p : Pipeline v d s o)
      → account s (store_change v d s o e p).storage ≡ account s p.storage + 1
  unfolding store_change enqueue_lane_change
  account-store_change e p = account-put s (lane_change _) p.storage

  store_changes-keeps :
      (es : List LaneChange) (p : Pipeline v d s o)
      → ((store_changes v d s o es p).core ≡ p.core)
        × (account s (store_changes v d s o es p).storage ≡ account s p.storage + length es)
  unfolding store_changes store_change
  store_changes-keeps [] p = (refl, omega arith)
  store_changes-keeps (e ∷ es) p =
      let (core, all) = store_changes-keeps es (store_change v d s o e p) in
      (core, omega (arith, all, account-store_change e p))

  step-Holds :
      (raw : Frame) (p q : Pipeline v d s o) (k : Parts F Polygon Model) (r : FrameResult F)
      → p.core.parts ≡ some k
      → step v d s o raw p ≡ (some r, q)
      → Holds v d q.core k.counter r.crossings
        × (account s q.storage ≡ account s p.storage + (length r.crossings + length r.events))
  unfolding step
  step-Holds raw p q k r e h =
      let frame = o.resize raw in
      let p0 : Pipeline v d s o = record p { frame_idx = p.frame_idx + 1 } in
      let found = detect_frame v d s o frame p0 in
      let (holds, same_storage, _) = detect_frame-Holds v d s o frame p0 k e in
      elim (Option-cases found.0) [
        | inl t ↦ absurd (cc (ap (λ x. x.0) (rw (t, step) at h)))
        | inr (x, t) ↦
            let (same_core, all) = hand_over_all-keeps frame x.crossings found.1 in
            let given = hand_over_all v d s o frame x.crossings found.1 in
            let (last_core, changes) = store_changes-keeps x.events given.1 in
            elim (Bool-cases given.0) [
              | inl g ↦
                  let same : Path (Option (FrameResult F) × Pipeline v d s o)
                      (some x, store_changes v d s o x.events given.1) (some r, q) =
                    rw (t, g, step) at h in
                  let x≡r : x ≡ r = cc (ap (λ y. y.0) same) in
                  let end≡q : store_changes v d s o x.events given.1 ≡ q = ap (λ y. y.1) same in
                  let (k', e', g') = rw t at holds in
                  subst
                    (λ y.
                      Holds v d q.core k.counter y.crossings
                      × (account s q.storage
                          ≡ account s p.storage + (length y.crossings + length y.events)))
                    x≡r
                    (subst
                      (λ y.
                        Holds v d y.core k.counter x.crossings
                        × (account s y.storage
                            ≡ account s p.storage + (length x.crossings + length x.events)))
                      end≡q
                      (
                        (k', ap (λ y. y.parts) (last_core ∙ same_core) ∙ e', g'),
                        omega (arith, changes, all g, ap (account s) same_storage),
                      ))
              | inr g ↦ absurd (cc (ap (λ x. x.0) (rw (t, g, step) at h)))
            ]
      ]

  -- From a pipeline to another: the count events and the number of lane changes of the frames, and the steps of
  -- the thread of the storage worker in between.
  pub data Runs (first : Pipeline v d s o)
      : List (CountEvent F) → ℕ → Pipeline v d s o → Type 0 where
    begun : Runs first [] 0 first
    frame :
        {es : List (CountEvent F)} {n : ℕ} {p q : Pipeline v d s o} {r : FrameResult F}
        → Runs first es n p
        → (raw : Frame) → step v d s o raw p ≡ (some r, q)
        → Runs first (es ++ r.crossings) (n + length r.events) q
    thread :
        {es : List (CountEvent F)} {n : ℕ} {p : Pipeline v d s o} {w : Worker s}
        → Runs first es n p
        → Account.Step s 0 p.storage w
        → Runs first es n (record p { storage = w })

  Runs-Holds :
      {first p : Pipeline v d s o} {es : List (CountEvent F)} {n : ℕ} (k : Parts F Polygon Model)
      → first.core.parts ≡ some k
      → Runs first es n p
      → Holds v d p.core k.counter es
        × (account s p.storage ≡ account s first.storage + (length es + n))
  Runs-Holds k e begun = ((k, e, Grows-refl k.counter), omega arith)
  Runs-Holds k e (frame {es} {n} {p} {q} {r} runs raw h) =
      let ((k', e', g), so_far) = Runs-Holds k e runs in
      let ((k'', e'', g'), more) = step-Holds raw p q k' r e' h in
      (
        (k'', e'', Grows-then v k.counter k'.counter k''.counter es r.crossings g g'),
        omega (arith, so_far, more, length-append es r.crossings),
      )
  Runs-Holds k e (thread runs w) =
      let (holds, so_far) = Runs-Holds k e runs in (holds, omega (arith, so_far, account-Step s w))

-- From the start of a pipeline whose core is not started, over any frames that are processed to their end and
-- any steps of the storage worker's thread between them: no vehicle track is counted twice in a lane, the
-- cumulative count of each lane, class and direction is the number of count events with them, and the worker
-- accounts for as many events as there were count events and lane changes. It is taken to get an adapter for
-- its last drain.
pub counts-Runs :
    (v : Vision) (d : Detector v.F) (s : Services) (o : Outside v d s) (load : Loaded d.Model)
    (setup : Setup) (maxsize : ℕ) (store : Store s) (p : Pipeline v d s o)
    → p.core.parts ≡ none
    → {es : List (CountEvent v.F)} {n : ℕ} {q : Pipeline v d s o}
    → Runs v d s o (prepare v d s o load setup maxsize store p) es n q
    → AllDistinct (map key es)
      × ((lane cls : String) (x : Direction)
          → count_at lane cls x (get_counts v d q.core) ≡ matching lane cls x es)
      × (account s q.storage ≡ length es + n)
unfolding prepare get_counts new_worker items
counts-Runs v d s o load setup maxsize store p e {es} {n} {q} runs =
    let (k, started, zero) = start-IsZero v d load p.core e in
    let ((k', last, g), so_far) = Runs-Holds v d s o k started runs in
    (
      (IsFresh-keys es k.counter.counted g.extends.0).0,
      λ lane cls x. rw (last, get_counts) (omega (arith, g.adds lane cls x, zero lane cls x)),
      omega (arith, so_far),
    )
