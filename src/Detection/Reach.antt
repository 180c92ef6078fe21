-- ===== src/Detection/Reach.antt =====
-- The life of a core as a step relation, and what every reachable core satisfies.
use traffic_lane_counter.Prelude.{
  ℕ, ◌+◌, ◌<◌, ◌≡◌, subst, inl, inr, none, some, arith, Option-cases, get_or,
}
use traffic_lane_counter.Vision.{Vision}
use traffic_lane_counter.Lanes.Order.{IsRawLane}
use traffic_lane_counter.Tracks
use traffic_lane_counter.Tracks.{new_manager}
use traffic_lane_counter.Tracks.Invariant.{IsValid, IsValid-mono, update-IsValid}
use traffic_lane_counter.Counting.{new_counter}
use traffic_lane_counter.Counting.Motion.{IsBounded, update-IsBounded}
use traffic_lane_counter.Tracker.{Detector, track}
use traffic_lane_counter.Detection.Steps.{
  detected, counted_frame, process_frame_raises, process_frame_counts,
}
use traffic_lane_counter.Detection.{
  DetectionCore, Parts, Loaded, count_frame, process_frame, start, reset,
}

module _ (v : Vision) (d : Detector v.F) (load : Loaded d.Model) where
  open v use {F, Polygon}
  open d use {Frame, Model}

  -- One call on the core, frames numbered by the core.
  pub data Step : DetectionCore F Polygon Model → DetectionCore F Polygon Model → Type 0 where
    starts : (core : DetectionCore F Polygon Model) → Step core (start v d load core)
    resets : (core : DetectionCore F Polygon Model) → Step core (reset v d core)
    frames :
        (core : DetectionCore F Polygon Model) (f : Frame)
        → Step core (process_frame v d core f none).1

  pub data Reach (first : DetectionCore F Polygon Model)
      : DetectionCore F Polygon Model → Type 0 where
    here : Reach first first
    next :
        {core core' : DetectionCore F Polygon Model}
        → Reach first core
        → Step core core'
        → Reach first core'

  -- The parts are as they must be before the frame with this number.
  pub record IsSoundAt (frame : ℕ) (p : Parts F Polygon Model) : Type 0 where
    pub manager : IsValid (IsRawLane p.assigner) frame p.manager
    pub counter : IsBounded v p.counter

  pub record IsSound (core : DetectionCore F Polygon Model) : Type 0 where
    pub positive : 0 < get_or core.config.min_consecutive_for_change 5
    pub parts : (p : Parts F Polygon Model) → core.parts ≡ some p → IsSoundAt core.frame_idx p

  config-process_frame :
      (core : DetectionCore F Polygon Model) (f : Frame)
      → (process_frame v d core f none).1.config ≡ core.config
  unfolding process_frame
  config-process_frame core f = ground arith

  parts-process_frame :
      (core : DetectionCore F Polygon Model) (f : Frame)
      → core.parts ≡ none
      → (process_frame v d core f none).1.parts ≡ none
  unfolding process_frame
  parts-process_frame core f e = ground arith

  frame-IsSoundAt :
      (core : DetectionCore F Polygon Model) (f : Frame) (p : Parts F Polygon Model)
      → core.parts ≡ some p
      → IsSoundAt core.frame_idx p
      → (q : Parts F Polygon Model) → (process_frame v d core f none).1.parts ≡ some q
      → IsSoundAt (process_frame v d core f none).1.frame_idx q
  unfolding count_frame
  frame-IsSoundAt core f p e h q now = elim (Option-cases (track d p.adapter f).0) [
    | inl n ↦
        let (_, parts, idx) = process_frame_raises v d core f p e n in
        let same : detected v d core f p ≡ q = cc (parts, now) in
        subst (λ x. IsSoundAt (process_frame v d core f none).1.frame_idx x) same
          (rw idx (record {
            manager =
                IsValid-mono (IsRawLane p.assigner) core.frame_idx (core.frame_idx + 1) p.manager
                  (omega arith) h.manager;
            counter = record { histories = h.counter.histories };
          }))
    | inr (x, n) ↦
        let (_, parts, idx) = process_frame_counts v d core f p x e n in
        let same : (counted_frame v d core f p x).1 ≡ q = cc (parts, now) in
        let valid =
          update-IsValid v p.manager core.frame_idx core.frame_idx x.0 p.assigner (omega arith)
            h.manager in
        let bounded =
          update-IsBounded v p.counter core.frame_idx
            (Tracks.update v p.manager core.frame_idx x.0 p.assigner) h.counter in
        subst (λ y. IsSoundAt (process_frame v d core f none).1.frame_idx y) same
          (rw idx (record {
            manager =
                IsValid-mono (IsRawLane p.assigner) core.frame_idx (core.frame_idx + 1) _
                  (omega arith) valid;
            counter = record { histories = bounded.histories };
          }))
  ]

  IsSoundAt-some :
      (frame : ℕ) (p q : Parts F Polygon Model)
      → some p ≡ some q
      → IsSoundAt frame p
      → IsSoundAt frame q
  IsSoundAt-some frame p q e = subst (IsSoundAt frame) (cc e)

  start-IsSound :
      (core : DetectionCore F Polygon Model) → IsSound core → IsSound (start v d load core)
  unfolding start new_manager new_counter
  start-IsSound core h = elim (Option-cases core.parts) [
    | inr (p, e) ↦ rw (e, start) h
    | inl e ↦
        rw (e, start)
          (record {
            positive = h.positive;
            parts = λ p q. IsSoundAt-some core.frame_idx _ p q (record {
              manager = record { positive = h.positive; distinct = tt; states = tt };
              counter = record { histories = tt };
            });
          })
  ]

  Step-IsSound :
      {core core' : DetectionCore F Polygon Model} → Step core core' → IsSound core → IsSound core'
  Step-IsSound (starts core) h = start-IsSound core h
  Step-IsSound (resets core) h =
      unfold reset in record { positive = h.positive; parts = λ p q. absurd (cc q) }
  Step-IsSound (frames core f) h = record {
    positive = rw config-process_frame h.positive;
    parts = λ q now. elim (Option-cases core.parts) [
      | inl e ↦ absurd (cc (parts-process_frame core f e, now))
      | inr (p, e) ↦ frame-IsSoundAt core f p e (h.parts p e) q now
    ];
  }

  -- Every core that starts, resets and numbered frames lead to from a sound one is sound: its track
  -- states are valid before the next frame, and its motion histories are within their limit.
  pub Reach-IsSound :
      {first core : DetectionCore F Polygon Model} → IsSound first → Reach first core → IsSound core
  Reach-IsSound h here = h
  Reach-IsSound h (next r s) = Step-IsSound s (Reach-IsSound h r)
