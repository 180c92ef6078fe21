-- ===== src/Pipeline/Counted.antt =====
-- What a frame of the pipeline does to the counter of its detection core.
use traffic_lane_counter.Prelude.{
  ℕ, ◌≡◌, refl, ap, ◌∙◌, sym, subst, inl, inr, Bool, true, false, none, some, List, [], ◌++◌,
  String, nat_eq, arith, Option-cases,
}
use mathlib.Core.Option
use traffic_lane_counter.Vision.{Vision}
use traffic_lane_counter.Tracks
use traffic_lane_counter.Tracks.{Track}
use traffic_lane_counter.Counting.{LineCounter, CountEvent, Direction}
use traffic_lane_counter.Counting
use traffic_lane_counter.Counting.Once.{Extends, Extends-then, count_tracks-Extends}
use traffic_lane_counter.Counting.Totals.{Adds, Adds-then, matching, count_tracks-Adds}
use traffic_lane_counter.Tracker.{Detector, Detection, track}
use traffic_lane_counter.Detection.{DetectionCore, Parts, FrameResult, count_frame, process_frame}
use traffic_lane_counter.Detection.Frames.{crossings_of}
use traffic_lane_counter.Storage.{Services}
use traffic_lane_counter.Pipeline.{Outside, Pipeline, skip_inference, to_frame, infer, detect_frame}
use traffic_lane_counter.Pipeline.Moved.{move_result, move_states, move_cache, skipped}

-- The counter has grown by these events and by nothing else.
pub record Grows {F : Type 0} (before after : LineCounter F) (es : List (CountEvent F))
    : Type 0 where
  pub extends : Extends before (after, es)
  pub adds : (lane cls : String) (x : Direction) → Adds lane cls x before (after, es)

pub Grows-refl : {F : Type 0} (c : LineCounter F) → Grows c c []
unfolding matching
Grows-refl c = record { extends = (tt, refl); adds = λ lane cls x. omega arith }

pub Grows-then :
    (v : Vision) (a b c : LineCounter v.F) (es fs : List (CountEvent v.F))
    → Grows a b es
    → Grows b c fs
    → Grows a c (es ++ fs)
Grows-then v a b c es fs g h = record {
  extends = Extends-then v a (b, es) (c, fs) g.extends h.extends;
  adds =
      λ lane cls x. Adds-then lane cls x a (b, es) (c, fs) (g.adds lane cls x) (h.adds lane cls x);
}

module _ (v : Vision) (d : Detector v.F) where
  open v use {F, Polygon}
  open d use {Frame, Model}

  -- The core has parts whose counter has grown by these events.
  abbrev pub Holds : DetectionCore F Polygon Model → LineCounter F → List (CountEvent F) → Type 0
  Holds core c es = (q : Parts F Polygon Model) × (core.parts ≡ some q) × Grows c q.counter es

  module _ (core : DetectionCore F Polygon Model) (f : Frame) (n : ℕ) (p : Parts F Polygon Model)
      (e : core.parts ≡ some p) where
    abbrev pub detected : Parts F Polygon Model
    detected = record p { adapter = (track d p.adapter f).1 }

    given_raises :
        (track d p.adapter f).0 ≡ none
        → ((process_frame v d core f (some n)).0 ≡ none)
          × ((process_frame v d core f (some n)).1.parts ≡ some detected)
    unfolding process_frame
    given_raises t = ground arith

    pub given_counts :
        (x : List (Track F) × List (Detection F))
        → (track d p.adapter f).0 ≡ some x
        → let r = count_frame v d n core.frame_idx detected x.0 x.1 in
          ((process_frame v d core f (some n)).0 ≡ some r.0)
          × ((process_frame v d core f (some n)).1.parts ≡ some r.1)
    unfolding process_frame
    given_counts x t = ground arith

    pub process_given :
        Holds
          (process_frame v d core f (some n)).1
          p.counter
          (crossings_of (process_frame v d core f (some n)).0)
    unfolding count_frame Counting.update matching
    process_given = elim (Option-cases (track d p.adapter f).0) [
      | inl t ↦
          let (result, parts) = given_raises t in
          (detected, parts, rw result (Grows-refl p.counter))
      | inr (x, t) ↦
          let (result, parts) = given_counts x t in
          let m = Tracks.update v p.manager n x.0 p.assigner in
          (
            (count_frame v d n core.frame_idx detected x.0 x.1).1,
            parts,
            rw result (record {
              extends = count_tracks-Extends v n m.track_states p.counter;
              adds = λ lane cls y. count_tracks-Adds lane cls y v n m.track_states p.counter;
            }),
          )
    ]

module _ (v : Vision) (d : Detector v.F) (s : Services) (o : Outside v d s) where
  open v use {F, Polygon}
  open d use {Frame, Model}

  skip_inference-keeps :
      (f : Frame) (p : Pipeline v d s o)
      → ((skip_inference v d s o f p).1.core ≡ p.core)
        × ((skip_inference v d s o f p).1.storage ≡ p.storage)
        × ((skip_inference v d s o f p).1.frame_idx ≡ p.frame_idx)
  unfolding skip_inference
  skip_inference-keeps f p = ground arith

  -- The core with its parts moved, which leaves the counter.
  moved-Holds :
      (move : Parts F Polygon Model → Parts F Polygon Model) (core : DetectionCore F Polygon Model)
      (c : LineCounter F) (es : List (CountEvent F))
      → ((q : Parts F Polygon Model) → (move q).counter ≡ q.counter)
      → Holds v d core c es
      → Holds v d (record core { parts = Option.map move core.parts }) c es
  moved-Holds move core c es h (q, e, g) =
      (move q, ap (Option.map move) e, subst (λ b. Grows c b es) (sym (h q)) g)

  to_frame-keeps :
      (shared : Bool) (r : FrameResult F) (p : Pipeline v d s o) (c : LineCounter F)
      (es : List (CountEvent F))
      → Holds v d p.core c es
      → Holds v d (to_frame v d s o shared r p).1.core c es
        × ((to_frame v d s o shared r p).0.crossings ≡ r.crossings)
        × ((to_frame v d s o shared r p).1.storage ≡ p.storage)
        × ((to_frame v d s o shared r p).1.frame_idx ≡ p.frame_idx)
  unfolding to_frame move_result move_states move_cache
  to_frame-keeps true r p c es h = elim (Option-cases p.roi) [
    | inl n ↦ rw (n, to_frame) (h, refl, refl, refl)
    | inr (k, n) ↦
        rw (n, to_frame)
          (
            moved-Holds (λ x. move_states k.to_original (move_cache k.to_original x)) p.core c es
                (λ q. refl) h,
            refl,
            refl,
            refl,
          )
  ]
  to_frame-keeps false r p c es h = elim (Option-cases p.roi) [
    | inl n ↦ rw (n, to_frame) (h, refl, refl, refl)
    | inr (k, n) ↦
        rw (n, to_frame)
          (moved-Holds (move_states k.to_original) p.core c es (λ q. refl) h, refl, refl, refl)
  ]

  infer-Holds :
      (skip : Bool) (f : Frame) (p : Pipeline v d s o) (k : Parts F Polygon Model)
      → p.core.parts ≡ some k
      → Holds v d
          (infer v d s o skip f p).1.core
          k.counter
          (crossings_of (infer v d s o skip f p).0)
        × ((infer v d s o skip f p).1.storage ≡ p.storage)
        × ((infer v d s o skip f p).1.frame_idx ≡ p.frame_idx)
  unfolding infer skipped
  infer-Holds true f p k e =
      let (holds, none_crossed, same_storage, same_idx) =
        to_frame-keeps false (skipped p.frame_idx) p k.counter [] (k, e, Grows-refl k.counter) in
      (rw none_crossed holds, same_storage, same_idx)
  infer-Holds false f p k e =
      let r = process_frame v d p.core f (some p.frame_idx) in
      let now = process_given v d p.core f p.frame_idx k e in
      elim (Option-cases r.0) [
        | inl t ↦ rw (t, infer) (rw t at now, refl, refl)
        | inr (x, t) ↦
            let q : Pipeline v d s o = record p { core = r.1 } in
            let (holds, same_crossings, same_storage, same_idx) =
              to_frame-keeps true x q k.counter x.crossings (rw t at now) in
            rw (t, infer) (rw same_crossings holds, same_storage, same_idx)
      ]

  pub detect_frame-Holds :
      (f : Frame) (p : Pipeline v d s o) (k : Parts F Polygon Model)
      → p.core.parts ≡ some k
      → Holds v d
          (detect_frame v d s o f p).1.core
          k.counter
          (crossings_of (detect_frame v d s o f p).0)
        × ((detect_frame v d s o f p).1.storage ≡ p.storage)
        × ((detect_frame v d s o f p).1.frame_idx ≡ p.frame_idx)
  unfolding detect_frame
  detect_frame-Holds f p k e =
      let roi : Frame = elim p.roi [ none ↦ f | some c ↦ c.crop f ] in
      let (same_core, same_storage, same_idx) = skip_inference-keeps roi p in
      let r = skip_inference v d s o roi p in
      let (holds, storage, idx) = infer-Holds r.0 roi r.1 k (rw same_core e) in
      (holds, storage ∙ same_storage, idx ∙ same_idx)
