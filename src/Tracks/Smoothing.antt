-- ===== src/Tracks/Smoothing.antt =====
-- The smoothing of one track: lines 96 to 121 of lane_state_manager.py.
use traffic_lane_counter.Prelude.{
  ℕ, zero, suc, ◌+◌, ◌-◌, ◌≡◌, refl, ap, ◌∙◌, ◌≢◌, ◌↔◌, inl, inr, true, Option, none, some, List,
  [], ◌∷◌, ◌++◌, String, string_eq, nat_eq, if◌then◌else◌, ltb, leb, arith, length, length-append,
  drop, last_items, Bool-cases, Option-cases,
}
use mathlib.Core.Path.{ap₂}
use traffic_lane_counter.Tracks.Vote.{vote}
use traffic_lane_counter.Tracks.Majority.{IsPlurality, vote-eq-some_iff}
use traffic_lane_counter.Tracks.{
  Settings, TrackState, all_equal, agreed_lane, fast_change, settle, smooth,
}

abbrev pub replicate {ℓ} : {A : Type ℓ} → ℕ → A → List A
replicate zero a = []
replicate (suc n) a = a ∷ replicate n a

-- The history ends in `c` times the lane, which is a known one.
abbrev pub EndsIn : String → ℕ → List String → Type 0
EndsIn l c h = (l ≢ "unknown") × ((pre : List String) × (h ≡ pre ++ replicate c l))

length-replicate {ℓ} : {A : Type ℓ} (n : ℕ) (a : A) → length (replicate n a) ≡ n
length-replicate zero a = refl
length-replicate (suc n) a = ap suc (length-replicate n a)

drop-append {ℓ} : {A : Type ℓ} (xs ys : List A) → drop (length xs) (xs ++ ys) ≡ ys
drop-append [] ys = refl
drop-append (x ∷ xs) ys = drop-append xs ys

drop_split {ℓ} : {A : Type ℓ} (n : ℕ) (xs : List A) → (pre : List A) × (xs ≡ pre ++ drop n xs)
drop_split zero xs = ([], refl)
drop_split (suc n) [] = ([], refl)
drop_split (suc n) (x ∷ xs) = let (pre, e) = drop_split n xs in (x ∷ pre, ap (◌∷◌ x) e)

all_equal-replicate : (l : String) (n : ℕ) → l ≢ "unknown" → all_equal l (replicate n l) ≡ true
unfolding all_equal
all_equal-replicate l zero k = refl
all_equal-replicate l (suc n) k = ground (arith, all_equal-replicate l n k)

replicate_of_all_equal :
    (l : String) (xs : List String) → all_equal l xs ≡ true → xs ≡ replicate (length xs) l
unfolding all_equal
replicate_of_all_equal l [] e = refl
replicate_of_all_equal l (x ∷ xs) e = ground (arith, replicate_of_all_equal l xs)

agreed_lane-replicate :
    (l : String) (c : ℕ) → l ≢ "unknown" → agreed_lane (suc c) (replicate (suc c) l) ≡ some l
unfolding agreed_lane
agreed_lane-replicate l c k = ground (arith, length-replicate c l, all_equal-replicate l (suc c) k)

agreed_lane_found :
    (l : String) (c : ℕ) (xs : List String)
    → agreed_lane c xs ≡ some l
    → (l ≢ "unknown") × (xs ≡ replicate c l)
unfolding agreed_lane all_equal
agreed_lane_found l c [] e = cc
agreed_lane_found l c (x ∷ xs) e = (
  ground arith,
  let x≡l : x ≡ l = ground arith in
      let n : suc (length xs) ≡ c = ground arith in
      rw (← n) (ap₂ ◌∷◌ x≡l (replicate_of_all_equal l xs (ground arith))),
)

last_items-append {ℓ} :
    {A : Type ℓ} (c : ℕ) (xs ys : List A) → length ys ≡ suc c → last_items (suc c) (xs ++ ys) ≡ ys
last_items-append c xs ys e =
    rw (let k : length (xs ++ ys) - suc c ≡ length xs = omega (arith, length-append xs ys) in k)
      (drop-append xs ys)

fast_change_ends :
    (l : String) (c : ℕ) (h : List String) → EndsIn l (suc c) h → fast_change (suc c) h ≡ some l
unfolding fast_change
fast_change_ends l c h (k, (pre, e)) = rw e (
    ground (
      arith,
      length-append pre (replicate (suc c) l),
      length-replicate (suc c) l,
      last_items-append c pre (replicate (suc c) l) (length-replicate (suc c) l),
      agreed_lane-replicate l c k,
    ))

fast_change_found :
    (l : String) (c : ℕ) (h : List String) → fast_change (suc c) h ≡ some l → EndsIn l (suc c) h
unfolding fast_change
fast_change_found l c h e = elim (Bool-cases (leb (suc c) (length h))) [
  | inl long ↦
      let r = agreed_lane_found l (suc c) _ (rw long at e) in
      let (pre, split) = drop_split (length h - suc c) h in (r.0, (pre, split ∙ ap (◌++◌ pre) r.1))
  | inr short ↦ absurd (ground (arith, agreed_lane_found l (suc c) []))
]

-- The fast change picks a lane exactly when the last `C` raw lanes are all that known lane.
pub fast_change-eq-some_iff :
    (c : ℕ) (h : List String) (l : String) → (fast_change (suc c) h ≡ some l) ↔ EndsIn l (suc c) h
fast_change-eq-some_iff c h l = (fast_change_found l c h, fast_change_ends l c h)

-- What the two checks may leave a track with.
pub data Settled (c : ℕ) (h : List String) (stable : Option String) : Option String → Type 0 where
  fast : (l : String) → EndsIn l c h → Settled c h stable (some l)
  elected :
      (l : String) → ((x : String) → ¬ EndsIn x c h) → IsPlurality l h → Settled c h stable (some l)
  kept :
      ((x : String) → ¬ EndsIn x c h)
      → ((x : String) → ¬ IsPlurality x h)
      → Settled c h stable stable

-- The stable lane after a known raw lane: the lane of the last `C` raw lanes if they agree, else
-- the lane with the most votes in the window if there is one, else what it was.
pub settle-Settled :
    (c : ℕ) (h : List String) (stable : Option String)
    → Settled (suc c) h stable (settle (suc c) h stable)
unfolding settle
settle-Settled c h stable = elim (Option-cases (fast_change (suc c) h)) [
  | inr (l, e) ↦ rw (e, settle) (fast l (fast_change_found l c h e))
  | inl slow ↦
      let none_ends : (x : String) → ¬ EndsIn x (suc c) h =
        λ x q. cc (slow, fast_change_ends x c h q) in
      elim (Option-cases (vote h)) [
        | inr (l, e) ↦ rw (slow, e, settle) (elected l none_ends ((vote-eq-some_iff h l).0 e))
        | inl tie ↦
            rw (slow, tie, settle) (kept none_ends (λ x q. cc (tie, (vote-eq-some_iff h x).1 q)))
      ]
]

-- `n` observations in a row outside all lanes.
abbrev pub unknown_streak : {F : Type 0} → ℕ → Settings → TrackState F → TrackState F
unknown_streak zero c s = s
unknown_streak (suc n) c s = smooth c "unknown" (unknown_streak n c s)

streak_count :
    {F : Type 0} (n : ℕ) (c : Settings) (s : TrackState F)
    → (unknown_streak n c s).consecutive_unknown_count ≡ s.consecutive_unknown_count + n
unfolding smooth
streak_count zero c s = omega arith
streak_count (suc n) c s = ground (arith, streak_count n c s)

-- A track that leaves all lanes keeps its stable lane until the count of unknown observations is
-- over the timeout, and has none from then on.
pub stable_lane-unknown_streak :
    {F : Type 0} (n : ℕ) (c : Settings) (s : TrackState F)
    → (unknown_streak (suc n) c s).stable_lane ≡ (
        if ltb c.unknown_timeout_frames (s.consecutive_unknown_count + suc n)
        then none
        else s.stable_lane)
unfolding smooth
stable_lane-unknown_streak zero c s = ground arith
stable_lane-unknown_streak (suc n) c s =
    ground (arith, streak_count (suc n) c s, stable_lane-unknown_streak n c s)
