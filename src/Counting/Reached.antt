-- ===== src/Counting/Reached.antt =====
-- Which tracks a frame counts.
use traffic_lane_counter.Prelude.{
  ℕ, ◌+◌, ◌≤◌, ◌≡◌, sym, ap, subst, ◌∙◌, inl, inr, true, some, [], ◌∷◌, String, nat_eq, string_eq,
  pair_eq, ℕ_discrete, arith, Option-cases,
}
use traffic_lane_counter.Prelude.Dict.{Dict, lookup}
use traffic_lane_counter.Vision.{Vision}
use traffic_lane_counter.Tracks.{TrackState, LaneStateManager}
use traffic_lane_counter.Counting.{
  LineCounter, is_member, effective_lane, countable, follow, forget, count_once, count_track,
  count_tracks, update,
}
use traffic_lane_counter.Counting.Once.{is_member-counted_after, count_tracks-Extends}

module _ (v : Vision) where
  open v use {F}

  -- The state is of a track that the frame shows, that is old enough, and that is in this lane.
  abbrev pub IsDue : ℕ → LineCounter F → TrackState F → String → Type 0
  IsDue frame c s lane =
      (s.last_seen_frame ≡ frame)
      × (s.first_seen_frame + c.min_track_age_frames ≤ frame + 1)
      × (countable (effective_lane c s) ≡ some lane)

  same_lane :
      (c c' : LineCounter F) (s : TrackState F)
      → c'.count_unstable_lane ≡ c.count_unstable_lane
      → effective_lane c' s ≡ effective_lane c s
  unfolding effective_lane
  same_lane c c' s e = ground arith

  options-follow :
      (tid : ℕ) (s : TrackState F) (c : LineCounter F)
      → ((follow v tid s c).count_unstable_lane ≡ c.count_unstable_lane)
        × ((follow v tid s c).min_track_age_frames ≡ c.min_track_age_frames)
  unfolding follow
  options-follow tid s c = ground arith

  options-forget :
      (f tid : ℕ) (s : TrackState F) (c : LineCounter F)
      → ((forget v f tid s c).count_unstable_lane ≡ c.count_unstable_lane)
        × ((forget v f tid s c).min_track_age_frames ≡ c.min_track_age_frames)
  unfolding forget
  options-forget f tid s c = ground arith

  options-count_once :
      (f tid : ℕ) (s : TrackState F) (l : String) (c : LineCounter F)
      → ((count_once v f tid s l c).0.count_unstable_lane ≡ c.count_unstable_lane)
        × ((count_once v f tid s l c).0.min_track_age_frames ≡ c.min_track_age_frames)
  unfolding count_once
  options-count_once f tid s l c = ground arith

  options-count_track :
      (f : ℕ) (e : ℕ × TrackState F) (c : LineCounter F)
      → ((count_track v f e c).0.count_unstable_lane ≡ c.count_unstable_lane)
        × ((count_track v f e c).0.min_track_age_frames ≡ c.min_track_age_frames)
  unfolding count_track
  options-count_track f (tid, s) c =
      let c' = follow v tid s c in
      elim (Option-cases (countable (effective_lane c' s))) [
        | inl e ↦ ground (arith, options-follow tid s c, options-forget f tid s c)
        | inr (l, e) ↦ ground (
          arith,
          options-follow tid s c,
          options-forget f tid s c,
          options-count_once f tid s l c',
        )
      ]

  count_once-member :
      (f tid : ℕ) (s : TrackState F) (l : String) (c : LineCounter F)
      → is_member (tid, l) (count_once v f tid s l c).0.counted ≡ true
  unfolding count_once
  count_once-member f tid s l c = ground arith

  count_track-member :
      (f tid : ℕ) (s : TrackState F) (c : LineCounter F) (lane : String)
      → IsDue f c s lane
      → is_member (tid, lane) (count_track v f (tid, s) c).0.counted ≡ true
  unfolding count_track
  count_track-member f tid s c lane h =
      let c' = follow v tid s c in
      ground (arith, same_lane c c' s, options-follow tid s c, count_once-member f tid s lane c')

  count_tracks-member :
      (f tid : ℕ) (s : TrackState F) (states : Dict ℕ (TrackState F)) (c : LineCounter F)
      (lane : String)
      → lookup tid states ≡ some s
      → IsDue f c s lane
      → is_member (tid, lane) (count_tracks v f states c).0.counted ≡ true
  unfolding count_tracks lookup
  count_tracks-member f tid s [] c lane q h = absurd (cc q)
  count_tracks-member f tid s ((j, t) ∷ states) c lane q h =
      let r = count_track v f (j, t) c in
      let later = count_tracks-Extends v f states r.0 in
      let options = options-count_track f (j, t) c in
      elim (ℕ_discrete j tid) [
        | yes p ↦
            let t≡s : t ≡ s = ground arith in
            let now : is_member (tid, lane) r.0.counted ≡ true =
              subst (λ k. is_member (tid, lane) (count_track v f (k, t) c).0.counted ≡ true) (sym p)
                (count_track-member f tid t c lane (subst (λ x. IsDue f c x lane) (sym t≡s) h)) in
            rw later.1 (is_member-counted_after (tid, lane) (count_tracks v f states r.0).1 _ now)
        | no n ↦
            count_tracks-member f tid s states r.0 lane (ground arith)
              (h.0, rw options.1 h.1, ap countable (same_lane c r.0 s options.0) ∙ h.2)
      ]

-- After a frame every track that it shows, that is old enough and that is in a lane, is among the
-- counted pairs with that lane.
pub update_counts :
    (v : Vision) (c : LineCounter v.F) (frame : ℕ) (m : LaneStateManager v.F) (tid : ℕ)
    (s : TrackState v.F) (lane : String)
    → lookup tid m.track_states ≡ some s
    → IsDue v frame c s lane
    → is_member (tid, lane) (update v c frame m).0.counted ≡ true
unfolding update
update_counts v c frame m tid s lane q h =
    count_tracks-member v frame tid s m.track_states c lane q h
