-- ===== src/Detection/Frames.antt =====
-- What holds of the counter over the frames of a run.
use traffic_lane_counter.Prelude.{
  ◌≡◌, refl, inl, inr, Option, none, some, List, [], ◌∷◌, ◌++◌, map, String, nat_eq, string_eq,
  arith, Option-cases, get_or,
}
use traffic_lane_counter.Prelude.Dict.{Dict, lookup, insert, lookup-insert}
use traffic_lane_counter.Vision.{Vision}
use traffic_lane_counter.Config.{Config, LaneData}
use traffic_lane_counter.Lanes.{new_assigner}
use traffic_lane_counter.Occupancy.{new_engine}
use traffic_lane_counter.Tracks
use traffic_lane_counter.Tracks.{new_manager, Track, TrackState, is_counted}
use traffic_lane_counter.Counting
use traffic_lane_counter.Counting.{
  LineCounter, CountEvent, Counts, Direction, forward, backward, zero_tally, Tally, class_buckets,
  lane_buckets, name_of, new_counter,
}
use traffic_lane_counter.Counting.Once.{
  Extends, Extends-then, IsFresh-keys, AllDistinct, key, count_tracks-Extends,
}
use traffic_lane_counter.Counting.Totals.{
  Adds, Adds-then, count_at, matching, in_direction, count_tracks-Adds,
}
use traffic_lane_counter.Tracker.{new_adapter, Detector, track}
use traffic_lane_counter.Detection.Steps.{
  detected, counted_frame, process_frame_raises, process_frame_counts,
}
use traffic_lane_counter.Detection.{
  DetectionCore, Parts, Loaded, FrameResult, count_frame, process_frame, start, get_counts,
}

abbrev pub crossings_of : {F : Type 0} → Option (FrameResult F) → List (CountEvent F)
crossings_of none = []
crossings_of (some r) = r.crossings

module _ (v : Vision) (d : Detector v.F) where
  open v use {F, Polygon}
  open d use {Frame, Model}

  -- The frames in order, numbered by the core; the count events of all of them.
  unfoldable pub run_frames :
      DetectionCore F Polygon Model
      → List Frame
      → DetectionCore F Polygon Model × List (CountEvent F)
  run_frames core [] = (core, [])
  run_frames core (f ∷ fs) =
      let (result, next) = process_frame v d core f none in
      let (last, later) = run_frames next fs in (last, crossings_of result ++ later)

  -- What a frame does to the counter: nothing, or one update.
  process_frame-counter :
      (core : DetectionCore F Polygon Model) (f : Frame) (p : Parts F Polygon Model)
      → core.parts ≡ some p
      → (q : Parts F Polygon Model) × ((process_frame v d core f none).1.parts ≡ some q)
        × Extends p.counter (q.counter, crossings_of (process_frame v d core f none).0)
        × ((lane cls : String) (x : Direction)
            → Adds lane cls x p.counter (q.counter, crossings_of (process_frame v d core f none).0))
  unfolding count_frame Counting.update matching
  process_frame-counter core f p e = elim (Option-cases (track d p.adapter f).0) [
    | inl n ↦
        let (raised, parts, _) = process_frame_raises v d core f p e n in
        (detected v d core f p, parts, rw raised (tt, refl), λ lane cls x. rw raised (omega arith))
    | inr (x, n) ↦
        let (result, parts, _) = process_frame_counts v d core f p x e n in
        let m = Tracks.update v p.manager core.frame_idx x.0 p.assigner in
        (
          (counted_frame v d core f p x).1,
          parts,
          rw result (count_tracks-Extends v core.frame_idx m.track_states p.counter),
          λ lane cls y.
              rw result (count_tracks-Adds lane cls y v core.frame_idx m.track_states p.counter),
        )
  ]

  run_frames-counter :
      (core : DetectionCore F Polygon Model) (fs : List Frame) (p : Parts F Polygon Model)
      → core.parts ≡ some p
      → (q : Parts F Polygon Model) × ((run_frames core fs).0.parts ≡ some q)
        × Extends p.counter (q.counter, (run_frames core fs).1)
        × ((lane cls : String) (x : Direction)
            → Adds lane cls x p.counter (q.counter, (run_frames core fs).1))
  unfolding run_frames matching
  run_frames-counter core [] p e = (p, e, (tt, refl), λ lane cls x. omega arith)
  run_frames-counter core (f ∷ fs) p e =
      let (q, now, fresh, adds) = process_frame-counter core f p e in
      let (r, last, fresh', adds') =
        run_frames-counter (process_frame v d core f none).1 fs q now in
      (
        r,
        last,
        Extends-then v p.counter (q.counter, _) (r.counter, _) fresh fresh',
        λ lane cls x.
            Adds-then lane cls x p.counter (q.counter, _) (r.counter, _) (adds lane cls x)
              (adds' lane cls x),
      )

-- All entries of all buckets are zero.
abbrev pub IsZero : Counts → Type 0
IsZero counts = (lane cls : String) (x : Direction) → count_at lane cls x counts ≡ 0

empty-IsZero : IsZero []
unfolding count_at lookup
empty-IsZero lane cls forward = refl
empty-IsZero lane cls backward = refl

in_direction-zero : (x : Direction) → in_direction x zero_tally ≡ 0
in_direction-zero forward = refl
in_direction-zero backward = refl

class_buckets-zero :
    (classes : List String) (bucket : Dict String Tally) (cls : String) (x : Direction)
    → ((k : String) → in_direction x (get_or (lookup k bucket) zero_tally) ≡ 0)
    → in_direction x (get_or (lookup cls (class_buckets classes bucket)) zero_tally) ≡ 0
unfolding class_buckets
class_buckets-zero [] bucket cls x h = h cls
class_buckets-zero (c ∷ cs) bucket cls x h =
    class_buckets-zero cs (insert c zero_tally bucket) cls x
      (λ k. ground (arith, lookup-insert c k zero_tally bucket, h k, in_direction-zero x))

lane_buckets-IsZero :
    {F : Type 0} (classes : List String) (lanes : List (LaneData F)) (counts : Counts)
    → IsZero counts
    → IsZero (lane_buckets classes lanes counts)
unfolding lane_buckets count_at lookup
lane_buckets-IsZero classes [] counts h = h
lane_buckets-IsZero classes (l ∷ ls) counts h = lane_buckets-IsZero classes ls _ (λ lane cls x.
    ground (
      arith,
      lookup-insert (name_of l) lane (class_buckets classes []) counts,
      h lane cls x,
      class_buckets-zero classes [] cls x (λ k. in_direction-zero x),
    ))

new_counter-IsZero : {F : Type 0} (c : Config F) → IsZero (new_counter c).counts
unfolding new_counter
new_counter-IsZero c = lane_buckets-IsZero (get_or c.allowed_classes []) c.lanes [] empty-IsZero

-- A core that is started has parts, and a counter whose tallies are zero.
pub start-IsZero :
    (v : Vision) (d : Detector v.F) (load : Loaded d.Model)
    (core : DetectionCore v.F v.Polygon d.Model)
    → core.parts ≡ none
    → (k : Parts v.F v.Polygon d.Model) × ((start v d load core).parts ≡ some k)
      × IsZero k.counter.counts
unfolding start
start-IsZero v d load core e =
    let loaded = get_or core.detector load in
    let parts : Parts v.F v.Polygon d.Model = record {
      adapter = new_adapter loaded.model loaded.half core.detect_every_n_frames;
      assigner = new_assigner v core.config;
      manager = new_manager core.config;
      engine = new_engine core.config;
      counter = new_counter core.config;
    } in
    (parts, rw (e, start), new_counter-IsZero core.config)

-- From a start of the core, over any frames: no vehicle track is counted twice in a lane, and the
-- cumulative count of each lane, class and direction is the number of count events with them.
pub counts-run_frames :
    (v : Vision) (d : Detector v.F) (load : Loaded d.Model)
    (core : DetectionCore v.F v.Polygon d.Model) (fs : List d.Frame)
    → core.parts ≡ none
    → let r = run_frames v d (start v d load core) fs in
      AllDistinct (map key r.1)
      × ((lane cls : String) (x : Direction)
          → count_at lane cls x (get_counts v d r.0) ≡ matching lane cls x r.1)
unfolding get_counts
counts-run_frames v d load core fs e =
    let (parts, started, zero) = start-IsZero v d load core e in
    let (q, last, fresh, adds) = run_frames-counter v d (start v d load core) fs parts started in
    (
      (IsFresh-keys _ parts.counter.counted fresh.0).0,
      λ lane cls x. rw (last, get_counts) (omega (arith, adds lane cls x, zero lane cls x)),
    )
