-- ===== src/Occupancy/Totals.antt =====
-- The occupancy of a lane against its definition by counting tracks.
use traffic_lane_counter.Prelude.{
  ℕ, ◌+◌, ◌≡◌, refl, ap, sym, Bool, true, false, Option, none, some, List, [], ◌∷◌, String, ◌==◌,
  string_eq, if◌then◌else◌, leb, arith, inl, inr, Option-cases, Bool-cases,
}
use traffic_lane_counter.Prelude.Dict.{Dict, lookup, insert, lookup-insert}
use traffic_lane_counter.Tracks.{TrackState, LaneStateManager, is_counted}
use traffic_lane_counter.Occupancy.{
  OccupancyEngine, zero_occupancy, occupy, occupy_all, compute_occupancy,
}

unfoldable pub is_configured : String → List String → Bool
is_configured x [] = false
is_configured x (lane ∷ lanes) = if lane == x then true else is_configured x lanes

abbrev pub is_stable_in : String → Option String → Bool
is_stable_in x none = false
is_stable_in x (some lane) = lane == x

-- The age of a track at the frame, both ends counted, is `min_age` at least: `frame - first_seen + 1 >= min_age`.
abbrev pub is_old_enough : {F : Type 0} → ℕ → ℕ → TrackState F → Bool
is_old_enough frame min_age s = leb (s.first_seen_frame + min_age) (frame + 1)

-- How many tracks are old enough and stable in the lane.
unfoldable pub occupants : {F : Type 0} → ℕ → ℕ → String → Dict ℕ (TrackState F) → ℕ
occupants frame min_age x [] = 0
occupants frame min_age x ((tid, s) ∷ states) =
    let rest = occupants frame min_age x states in
    if is_old_enough frame min_age s
    then if is_stable_in x s.stable_lane then rest + 1 else rest
    else rest

lookup-zero_occupancy :
    (x : String) (lanes : List String) (d : Dict String ℕ)
    → lookup x (zero_occupancy lanes d) ≡ (if is_configured x lanes then some 0 else lookup x d)
unfolding zero_occupancy is_configured
lookup-zero_occupancy x [] d = refl
lookup-zero_occupancy x (lane ∷ lanes) d =
    ground (arith, lookup-zero_occupancy x lanes (insert lane 0 d), lookup-insert lane x 0 d)

lookup-nil : (x : String) → lookup {V = ℕ} x [] ≡ none
unfolding lookup
lookup-nil x = refl

abbrev plus : ℕ → Option ℕ → Option ℕ
plus k none = none
plus k (some n) = some (n + k)

lookup-occupy :
    (x : String) (o : Option String) (d : Dict String ℕ)
    → lookup x (occupy o d) ≡ plus (if is_stable_in x o then 1 else 0) (lookup x d)
unfolding occupy
lookup-occupy x none d = ground arith
lookup-occupy x (some lane) d = elim (Option-cases (lookup lane d)) [
  | inl e ↦ ground arith
  | inr (n, e) ↦ ground (arith, lookup-insert lane x (n + 1) d)
]

-- What a track adds to the lane: 1 if it is old enough and stable there
abbrev one_in : {F : Type 0} → String → ℕ → ℕ → TrackState F → ℕ
one_in x frame min_age s =
    if is_old_enough frame min_age s then if is_stable_in x s.stable_lane then 1 else 0 else 0

plus_zero : (o : Option ℕ) → plus 0 o ≡ o
plus_zero none = refl
plus_zero (some n) = ap some (omega arith)

add_track :
    {F : Type 0} (x : String) (frame min_age : ℕ) (s : TrackState F) (d : Dict String ℕ)
    → lookup x (if is_counted s frame min_age then occupy s.stable_lane d else d)
      ≡ plus (one_in x frame min_age s) (lookup x d)
unfolding is_counted
add_track x frame min_age s d = elim (Bool-cases (is_old_enough frame min_age s)) [
  | inr young ↦ rw young (sym (plus_zero (lookup x d)))
  | inl old ↦ elim (Option-cases s.stable_lane) [
    | inl e ↦ rw old (rw e (sym (plus_zero (lookup x d))))
    | inr (lane, e) ↦ rw old (rw e (lookup-occupy x (some lane) d))
  ]
]

occupants-cons :
    {F : Type 0} (x : String) (frame min_age tid : ℕ) (s : TrackState F)
    (states : Dict ℕ (TrackState F))
    → occupants frame min_age x ((tid, s) ∷ states)
      ≡ one_in x frame min_age s + occupants frame min_age x states
unfolding occupants
occupants-cons x frame min_age tid s states = elim (Bool-cases (is_old_enough frame min_age s)) [
  | inr young ↦ rw young (omega arith)
  | inl old ↦ rw old (ground arith)
]

lookup-occupy_all :
    {F : Type 0} (x : String) (frame min_age : ℕ) (states : Dict ℕ (TrackState F))
    (d : Dict String ℕ)
    → lookup x (occupy_all frame min_age states d)
      ≡ plus (occupants frame min_age x states) (lookup x d)
unfolding occupy_all occupants
lookup-occupy_all x frame min_age [] d = sym (plus_zero (lookup x d))
lookup-occupy_all x frame min_age ((tid, s) ∷ states) d = ground (
  arith,
  lookup-occupy_all x frame min_age states
      (if is_counted s frame min_age then occupy s.stable_lane d else d),
  add_track x frame min_age s d,
  occupants-cons x frame min_age tid s states,
)

-- The occupancy has exactly the configured lanes, and gives for each the number of tracks that are stable in that
-- lane and whose age at this frame, `frame - first_seen + 1`, is the least age at least.
pub lookup-compute_occupancy :
    {F : Type 0} (e : OccupancyEngine) (frame : ℕ) (m : LaneStateManager F) (x : String)
    → lookup x (compute_occupancy e frame m) ≡ (
        if is_configured x e.lane_ids
        then some (occupants frame e.min_track_age_frames x m.track_states)
        else none)
unfolding compute_occupancy
lookup-compute_occupancy e frame m x = ground (
  arith,
  lookup-occupy_all x frame e.min_track_age_frames m.track_states (zero_occupancy e.lane_ids []),
  lookup-zero_occupancy x e.lane_ids [],
  lookup-nil x,
)
