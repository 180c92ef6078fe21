-- ===== src/Detection/Flags.antt =====
-- The flag `is_counted_in_occupancy` of the track records, against the occupancy of the same frame.
use mathlib.Core.Path.{subst₂}
use traffic_lane_counter.Prelude.{
  ℕ, ◌+◌, ◌≡◌, refl, subst, ◌⊎◌, inl, inr, Bool, true, false, none, some, List, [], ◌∷◌, String,
  nat_eq, arith, Option-cases,
}
use traffic_lane_counter.Prelude.Dict.{Dict, lookup}
use traffic_lane_counter.Vision.{Vision}
use traffic_lane_counter.Tracks.{Track, TrackState, is_counted}
use traffic_lane_counter.Tracker.{Detector, Detection, track}
use traffic_lane_counter.Detection.Steps.{
  detected, counted_frame, process_frame_raises, process_frame_counts,
}
use traffic_lane_counter.Detection.{
  DetectionCore, Parts, FrameResult, FrameTrack, build_frame_tracks, count_frame, process_frame,
}

-- One of the records is of this track, with this flag.
abbrev pub HasFlag : {F : Type 0} → ℕ → Bool → List (FrameTrack F) → Type 0
HasFlag tid b [] = ⊥
HasFlag tid b (t ∷ ts) = ((t.track_id ≡ tid) × (t.is_counted_in_occupancy ≡ b)) ⊎ HasFlag tid b ts

build_frame_tracks-HasFlag :
    {F : Type 0} (frame flag min_age tid : ℕ) (s : TrackState F) (states : Dict ℕ (TrackState F))
    → lookup tid states ≡ some s
    → s.last_seen_frame ≡ frame
    → HasFlag tid (is_counted s flag min_age) (build_frame_tracks frame flag min_age states)
unfolding build_frame_tracks lookup
build_frame_tracks-HasFlag frame flag min_age tid s [] q e = absurd (cc q)
build_frame_tracks-HasFlag frame flag min_age tid s ((j, t) ∷ states) q e = ground (
  arith,
  λ (h : lookup tid states ≡ some s).
      build_frame_tracks-HasFlag frame flag min_age tid s states h e,
)

module _ (v : Vision) (d : Detector v.F) (core : DetectionCore v.F v.Polygon d.Model)
    (f : d.Frame) where
  no_parts : core.parts ≡ none → (process_frame v d core f none).0 ≡ none
  unfolding process_frame
  no_parts e = ground arith

  -- The records of a frame are of the states behind it, the flags by the number of the next frame.
  AreFlagged : FrameResult v.F → Parts v.F v.Polygon d.Model → Type 0
  AreFlagged r p =
      r.frame_tracks
      ≡ build_frame_tracks r.frame_idx (r.frame_idx + 1) p.manager.min_track_age_frames
          p.manager.track_states

  count_frame-AreFlagged :
      (n : ℕ) (p : Parts v.F v.Polygon d.Model) (tracks : List (Track v.F))
      (raw : List (Detection v.F))
      → let x = count_frame v d n (n + 1) p tracks raw in AreFlagged x.0 x.1
  unfolding AreFlagged count_frame
  count_frame-AreFlagged n p tracks raw = refl

  frame_tracks-process_frame :
      (r : FrameResult v.F) (p : Parts v.F v.Polygon d.Model)
      → (process_frame v d core f none).0 ≡ some r
      → (process_frame v d core f none).1.parts ≡ some p
      → AreFlagged r p
  frame_tracks-process_frame r p er ep = elim (Option-cases core.parts) [
    | inl e ↦ absurd (cc (er, no_parts e))
    | inr (p0, e) ↦ elim (Option-cases (track d p0.adapter f).0) [
      | inl n ↦ absurd (cc (er, (process_frame_raises v d core f p0 e n).0))
      | inr (x, n) ↦
          let (result, parts, _) = process_frame_counts v d core f p0 x e n in
          let same_result : (counted_frame v d core f p0 x).0 ≡ r = cc (result, er) in
          let same_parts : (counted_frame v d core f p0 x).1 ≡ p = cc (parts, ep) in
          subst₂ AreFlagged same_result same_parts
            (count_frame-AreFlagged core.frame_idx (detected v d core f p0) x.0 x.1)
    ]
  ]

late_age :
    {F : Type 0} (s : TrackState F) (frame min_age : ℕ) (lane : String)
    → s.stable_lane ≡ some lane
    → s.first_seen_frame + min_age ≡ frame + 2
    → (is_counted s (frame + 1) min_age ≡ true) × (is_counted s frame min_age ≡ false)
unfolding is_counted
late_age s frame min_age lane stable age = ground arith

-- In a frame that the core numbers itself, a track of this frame with a stable lane whose age is one
-- short of the minimum is flagged as counted in the occupancy, and the test by which the occupancy of
-- the frame is computed does not count it.
pub flag_ahead_of_occupancy :
    (v : Vision) (d : Detector v.F) (core : DetectionCore v.F v.Polygon d.Model) (f : d.Frame)
    (r : FrameResult v.F) (p : Parts v.F v.Polygon d.Model) (tid : ℕ) (s : TrackState v.F)
    (lane : String)
    → (process_frame v d core f none).0 ≡ some r
    → (process_frame v d core f none).1.parts ≡ some p
    → lookup tid p.manager.track_states ≡ some s
    → s.last_seen_frame ≡ r.frame_idx
    → s.stable_lane ≡ some lane
    → s.first_seen_frame + p.manager.min_track_age_frames ≡ r.frame_idx + 2
    → HasFlag tid true r.frame_tracks
      × (is_counted s r.frame_idx p.manager.min_track_age_frames ≡ false)
unfolding AreFlagged
flag_ahead_of_occupancy v d core f r p tid s lane er ep q seen stable age =
    let min_age = p.manager.min_track_age_frames in
    let (early, late) = late_age s r.frame_idx min_age lane stable age in
    let flag =
      build_frame_tracks-HasFlag r.frame_idx (r.frame_idx + 1) min_age tid s p.manager.track_states
        q seen in
    (
      rw (frame_tracks-process_frame v d core f r p er ep) (
          subst
            (λ b.
              HasFlag tid b
                (build_frame_tracks r.frame_idx (r.frame_idx + 1) min_age p.manager.track_states))
            early flag),
      late,
    )
