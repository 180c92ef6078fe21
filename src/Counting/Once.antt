-- ===== src/Counting/Once.antt =====
-- The set `_counted` of `LineCounter` over a run of frames.
use traffic_lane_counter.Prelude.{
  ℕ, ◌≡◌, refl, sym, subst, ◌∙◌, ◌≢◌, inl, inr, true, false, List, [], ◌∷◌, ◌++◌, map, String,
  nat_eq, string_eq, pair_eq, arith, All, Option-cases,
}
use traffic_lane_counter.Prelude.Dict.{Dict}
use traffic_lane_counter.Vision.{Vision}
use traffic_lane_counter.Tracks.{TrackState, LaneStateManager}
use traffic_lane_counter.Counting.{
  LineCounter, CountEvent, is_member, effective_lane, countable, follow, forget, count_once,
  count_track, count_tracks, update,
}

-- A run of the counter: the frames in order, each with the state manager of the frame.
unfoldable pub run :
    (v : Vision)
    → LineCounter v.F
    → List (ℕ × LaneStateManager v.F)
    → LineCounter v.F × List (CountEvent v.F)
run v c [] = (c, [])
run v c ((frame, m) ∷ rest) =
    let (c', new) = update v c frame m in let (c'', later) = run v c' rest in (c'', new ++ later)

abbrev pub key : {F : Type 0} → CountEvent F → ℕ × String
key e = (e.track_id, e.lane_id)

-- The counted pairs after these events.
abbrev pub counted_after :
    {F : Type 0} → List (CountEvent F) → List (ℕ × String) → List (ℕ × String)
counted_after [] ks = ks
counted_after (e ∷ es) ks = counted_after es (key e ∷ ks)

-- No event repeats an earlier one or a pair that was counted before.
abbrev pub IsFresh : {F : Type 0} → List (CountEvent F) → List (ℕ × String) → Type 0
IsFresh [] ks = Unit {0}
IsFresh (e ∷ es) ks = (is_member (key e) ks ≡ false) × IsFresh es (key e ∷ ks)

module _ {F : Type 0} where
  counted_after-append :
      (es fs : List (CountEvent F)) (ks : List (ℕ × String))
      → counted_after (es ++ fs) ks ≡ counted_after fs (counted_after es ks)
  counted_after-append [] fs ks = refl
  counted_after-append (e ∷ es) fs ks = counted_after-append es fs (key e ∷ ks)

  IsFresh-append :
      (es fs : List (CountEvent F)) (ks : List (ℕ × String))
      → IsFresh es ks
      → IsFresh fs (counted_after es ks)
      → IsFresh (es ++ fs) ks
  IsFresh-append [] fs ks h k = k
  IsFresh-append (e ∷ es) fs ks h k = (h.0, IsFresh-append es fs (key e ∷ ks) h.1 k)

  pub is_member-counted_after :
      (k : ℕ × String) (es : List (CountEvent F)) (ks : List (ℕ × String))
      → is_member k ks ≡ true
      → is_member k (counted_after es ks) ≡ true
  unfolding is_member
  is_member-counted_after k [] ks h = h
  is_member-counted_after k (e ∷ es) ks h = is_member-counted_after k es (key e ∷ ks) (ground arith)

-- What a part of the update does to the counted pairs.
abbrev pub Extends : {F : Type 0} → LineCounter F → LineCounter F × List (CountEvent F) → Type 0
Extends c r = IsFresh r.1 c.counted × (r.0.counted ≡ counted_after r.1 c.counted)

module _ (v : Vision) where
  open v use {F}

  pub counted-follow :
      (tid : ℕ) (s : TrackState F) (c : LineCounter F) → (follow v tid s c).counted ≡ c.counted
  unfolding follow
  counted-follow tid s c = ground arith

  pub counted-forget :
      (f tid : ℕ) (s : TrackState F) (c : LineCounter F) → (forget v f tid s c).counted ≡ c.counted
  unfolding forget
  counted-forget f tid s c = ground arith

  count_once-Extends :
      (f tid : ℕ) (s : TrackState F) (lane : String) (c : LineCounter F)
      → Extends c (count_once v f tid s lane c)
  unfolding count_once
  count_once-Extends f tid s lane c = ground arith

  pub count_track-Extends :
      (f : ℕ) (e : ℕ × TrackState F) (c : LineCounter F) → Extends c (count_track v f e c)
  unfolding count_track
  count_track-Extends f (tid, s) c =
      let c' = follow v tid s c in
      let same = counted-follow tid s c in
      elim (Option-cases (countable (effective_lane c' s))) [
        | inl e ↦ ground (arith, same, counted-forget f tid s c)
        | inr (lane, e) ↦
            ground (arith, same, counted-forget f tid s c, count_once-Extends f tid s lane c')
      ]

  pub Extends-then :
      (c : LineCounter F) (r t : LineCounter F × List (CountEvent F))
      → Extends c r
      → Extends r.0 t
      → Extends c (t.0, r.1 ++ t.1)
  Extends-then c (c', es) (c'', fs) h k = (
    IsFresh-append es fs c.counted h.0 (subst (IsFresh fs) h.1 k.0),
    k.1 ∙ rw h.1 (sym (counted_after-append es fs c.counted)),
  )

  pub count_tracks-Extends :
      (f : ℕ) (states : Dict ℕ (TrackState F)) (c : LineCounter F)
      → Extends c (count_tracks v f states c)
  unfolding count_tracks
  count_tracks-Extends f [] c = (tt, refl)
  count_tracks-Extends f (e ∷ states) c =
      let r = count_track v f e c in
      Extends-then c r (count_tracks v f states r.0) (count_track-Extends f e c)
        (count_tracks-Extends f states r.0)

  run-Extends :
      (c : LineCounter F) (frames : List (ℕ × LaneStateManager F)) → Extends c (run v c frames)
  unfolding run update
  run-Extends c [] = (tt, refl)
  run-Extends c ((f, m) ∷ rest) =
      let r = update v c f m in
      Extends-then c r (run v r.0 rest) (count_tracks-Extends f m.track_states c)
        (run-Extends r.0 rest)

-- The keys of the list are distinct.
abbrev pub AllDistinct : List (ℕ × String) → Type 0
AllDistinct [] = Unit {0}
AllDistinct (k ∷ ks) = All (λ j. k ≢ j) ks × AllDistinct ks

-- None of these keys was counted.
abbrev pub AreNew : List (ℕ × String) → List (ℕ × String) → Type 0
AreNew ks counted = All (λ k. is_member k counted ≡ false) ks

AreNew-tail :
    (k : ℕ × String) (ks counted : List (ℕ × String))
    → AreNew ks (k ∷ counted)
    → AreNew ks counted × All (λ j. k ≢ j) ks
unfolding is_member
AreNew-tail k [] counted h = (tt, tt)
AreNew-tail k (j ∷ ks) counted h =
    let (new, ne) = AreNew-tail k ks counted h.1 in ((ground arith, new), (λ e. ground arith, ne))

pub IsFresh-keys :
    {F : Type 0} (es : List (CountEvent F)) (counted : List (ℕ × String))
    → IsFresh es counted
    → AllDistinct (map key es) × AreNew (map key es) counted
IsFresh-keys [] counted h = (tt, tt)
IsFresh-keys (e ∷ es) counted h =
    let (distinct, new) = IsFresh-keys es (key e ∷ counted) h.1 in
    let (old, ne) = AreNew-tail (key e) (map key es) counted new in ((ne, distinct), (h.0, old))

-- Over any run of frames no pair of a track and a lane is counted twice, and none that was counted
-- before the run; the counted pairs are then those from before and those of the events.
pub run-AllDistinct :
    (v : Vision) (c : LineCounter v.F) (frames : List (ℕ × LaneStateManager v.F))
    → AllDistinct (map key (run v c frames).1)
      × AreNew (map key (run v c frames).1) c.counted
      × ((run v c frames).0.counted ≡ counted_after (run v c frames).1 c.counted)
run-AllDistinct v c frames =
    let (fresh, counted) = run-Extends v c frames in
    let (distinct, new) = IsFresh-keys (run v c frames).1 c.counted fresh in
    (distinct, new, counted)
