-- ===== src/Counting/Totals.antt =====
-- The tallies of `LineCounter` against the events that it returns.
use traffic_lane_counter.Prelude.{
  ℕ, ◌+◌, ◌≡◌, inl, inr, Bool, true, false, ◌&&◌, List, [], ◌∷◌, ◌++◌, String, ◌==◌, nat_eq,
  string_eq, if◌then◌else◌, arith, Option-cases, get_or,
}
use traffic_lane_counter.Prelude.Dict.{Dict, lookup, insert, lookup-insert}
use traffic_lane_counter.Vision.{Vision}
use traffic_lane_counter.Tracks.{TrackState, LaneStateManager}
use traffic_lane_counter.Counting.{
  Counts, Direction, forward, backward, Tally, zero_tally, bump, LineCounter, CountEvent,
  ensure_class_bucket, add_count, effective_lane, countable, follow, forget, count_once,
  direction_from_motion, count_track, count_tracks, update,
}
use traffic_lane_counter.Counting.Once.{run}

abbrev pub in_direction : Direction → Tally → ℕ
in_direction forward t = t.forward_count
in_direction backward t = t.backward_count

-- `counts[lane][cls][direction]`, 0 where a key is not there.
unfoldable pub count_at : String → String → Direction → Counts → ℕ
count_at lane cls d counts =
    in_direction d (get_or (lookup cls (get_or (lookup lane counts) [])) zero_tally)

abbrev pub same_direction : Direction → Direction → Bool
same_direction forward forward = true
same_direction backward backward = true
same_direction _ _ = false

-- Is this an event of the lane, the class and the direction?
abbrev pub is_at : {F : Type 0} → String → String → Direction → CountEvent F → Bool
is_at lane cls d e = e.lane_id == lane && (e.class_name == cls && same_direction e.direction d)

-- How many of the events are of this lane, class and direction.
unfoldable pub matching : {F : Type 0} → String → String → Direction → List (CountEvent F) → ℕ
matching lane cls d [] = 0
matching lane cls d (e ∷ es) =
    if is_at lane cls d e then matching lane cls d es + 1 else matching lane cls d es

matching-append :
    {F : Type 0} (lane cls : String) (d : Direction) (es fs : List (CountEvent F))
    → matching lane cls d (es ++ fs) ≡ matching lane cls d es + matching lane cls d fs
unfolding matching
matching-append lane cls d [] fs = omega arith
matching-append lane cls d (e ∷ es) fs = ground (arith, matching-append lane cls d es fs)

module _ (lane cls : String) (d : Direction) where
  count_at-ensure :
      (l k : String) (c : Counts)
      → count_at lane cls d (ensure_class_bucket l k c) ≡ count_at lane cls d c
  unfolding count_at ensure_class_bucket lookup
  count_at-ensure l k c = elim (Option-cases (lookup k (get_or (lookup l c) []))) [
    | inl e ↦ ground (
      arith,
      lookup-insert l lane (insert k zero_tally (get_or (lookup l c) [])) c,
      lookup-insert k cls zero_tally (get_or (lookup l c) []),
    )
    | inr (t, e) ↦ ground (arith, lookup-insert l lane (get_or (lookup l c) []) c)
  ]

  count_at-add_count :
      (l k : String) (b : Direction) (c : Counts)
      → count_at lane cls d (add_count l k b c)
        ≡ count_at lane cls d c + (if l == lane && (k == cls && same_direction b d) then 1 else 0)
  unfolding count_at add_count bump lookup
  count_at-add_count l k b c = ground (
    arith,
    lookup-insert l lane
        (insert k (bump b (get_or (lookup k (get_or (lookup l c) [])) zero_tally))
          (get_or (lookup l c) []))
        c,
    lookup-insert k cls (bump b (get_or (lookup k (get_or (lookup l c) [])) zero_tally))
        (get_or (lookup l c) []),
  )

  -- The tally grows by the events.
  abbrev pub Adds : {F : Type 0} → LineCounter F → LineCounter F × List (CountEvent F) → Type 0
  Adds c r = count_at lane cls d r.0.counts ≡ count_at lane cls d c.counts + matching lane cls d r.1

  pub Adds-then :
      {F : Type 0} (c : LineCounter F) (r t : LineCounter F × List (CountEvent F))
      → Adds c r
      → Adds r.0 t
      → Adds c (t.0, r.1 ++ t.1)
  Adds-then c r t h k = omega (arith, matching-append lane cls d r.1 t.1)

  module _ (v : Vision) where
    open v use {F}

    counts-follow :
        (tid : ℕ) (s : TrackState F) (c : LineCounter F) → (follow v tid s c).counts ≡ c.counts
    unfolding follow
    counts-follow tid s c = ground arith

    counts-forget :
        (f tid : ℕ) (s : TrackState F) (c : LineCounter F) → (forget v f tid s c).counts ≡ c.counts
    unfolding forget
    counts-forget f tid s c = ground arith

    count_once-Adds :
        (f tid : ℕ) (s : TrackState F) (l : String) (c : LineCounter F)
        → Adds c (count_once v f tid s l c)
    unfolding count_once matching
    count_once-Adds f tid s l c =
        let k = if s.class_name == "" then "unknown" else s.class_name in
        ground (
          arith,
          count_at-add_count l k (direction_from_motion v c tid) (ensure_class_bucket l k c.counts),
          count_at-ensure l k c.counts,
        )

    count_track-Adds :
        (f : ℕ) (e : ℕ × TrackState F) (c : LineCounter F) → Adds c (count_track v f e c)
    unfolding count_track matching
    count_track-Adds f (tid, s) c =
        let c' = follow v tid s c in
        let same = counts-follow tid s c in
        let gone = counts-forget f tid s c in
        elim (Option-cases (countable (effective_lane c' s))) [
          | inl e ↦ ground (arith, same, gone)
          | inr (l, e) ↦ ground (arith, same, gone, count_once-Adds f tid s l c')
        ]

    pub count_tracks-Adds :
        (f : ℕ) (states : Dict ℕ (TrackState F)) (c : LineCounter F)
        → Adds c (count_tracks v f states c)
    unfolding count_tracks matching
    count_tracks-Adds f [] c = omega arith
    count_tracks-Adds f (e ∷ states) c =
        let r = count_track v f e c in
        Adds-then c r (count_tracks v f states r.0) (count_track-Adds f e c)
          (count_tracks-Adds f states r.0)

-- Over any run of frames the tally of each lane, class and direction grows by exactly the number of
-- count events of that lane, class and direction.
pub count_at-run :
    (v : Vision) (c : LineCounter v.F) (frames : List (ℕ × LaneStateManager v.F))
    (lane cls : String) (d : Direction)
    → count_at lane cls d (run v c frames).0.counts
      ≡ count_at lane cls d c.counts + matching lane cls d (run v c frames).1
unfolding run update matching
count_at-run v c [] lane cls d = omega arith
count_at-run v c ((f, m) ∷ rest) lane cls d =
    let r = update v c f m in
    Adds-then lane cls d c r (run v r.0 rest) (count_tracks-Adds lane cls d v f m.track_states c)
      (count_at-run v r.0 rest lane cls d)
