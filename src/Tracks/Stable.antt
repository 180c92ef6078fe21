-- ===== src/Tracks/Stable.antt =====
-- What the smoothing keeps: the lanes of the history, its length, and the stable lane.
use traffic_lane_counter.Prelude.{
  ℕ, zero, suc, ◌+◌, ◌≤◌, ◌<◌, ◌≡◌, ◌≢◌, Bool, true, false, Option, none, some, List, [], ◌∷◌, ◌++◌,
  String, ◌==◌, string_eq, nat_eq, if◌then◌else◌, ltb, arith, length, length-append, All, str_dec,
  subst, ◌∙◌,
}
use traffic_lane_counter.Prelude.Lists.{All-append}
use traffic_lane_counter.Tracks.Majority.{votes}
use traffic_lane_counter.Tracks.Smoothing.{replicate, Settled, fast, elected, kept, settle-Settled}
use traffic_lane_counter.Tracks.{Settings, TrackState, push_history, settle, smooth}

-- `P` is what a raw lane may be.
module _ (P : String → Type 0) where
  pub All-push_history :
      (w : ℕ) (h : List String) (l : String) → All P h → P l → All P (push_history w h l)
  unfolding push_history
  All-push_history w [] l a p = ground arith
  All-push_history w (x ∷ xs) l a p = ground (arith, All-append P xs (l ∷ []) a.1 (p, tt))

  All-votes : (l : String) (h : List String) → All P h → 0 < votes l h → P l × (l ≢ "unknown")
  unfolding votes
  All-votes l [] a p = absurd (omega arith)
  All-votes l (x ∷ xs) a p = elim (str_dec x l) [
    | no n ↦ All-votes l xs a.1 (ground arith)
    | yes e ↦ elim (str_dec x "unknown") [
      | no n ↦ (subst P e a.0, λ q. n (e ∙ q))
      | yes u ↦ All-votes l xs a.1 (ground arith)
    ]
  ]

  All-ends : (l : String) (c : ℕ) (pre : List String) → All P (pre ++ replicate (suc c) l) → P l
  All-ends l c [] a = a.0
  All-ends l c (x ∷ pre) a = All-ends l c pre a.1

  abbrev pub IsStable : Option String → Type 0
  IsStable o = (l : String) → o ≡ some l → P l × (l ≢ "unknown")

  Settled-IsStable :
      (c : ℕ) (h : List String) (old r : Option String)
      → All P h
      → IsStable old
      → Settled (suc c) h old r
      → IsStable r
  Settled-IsStable c h old r a k (fast l (n, (pre, e))) m q =
      let l≡m : l ≡ m = cc q in
      (subst P l≡m (All-ends l c pre (subst (All P) e a)), λ u. n (l≡m ∙ u))
  Settled-IsStable c h old r a k (elected l n p) m q =
      let l≡m : l ≡ m = cc q in let r = All-votes l h a p.0 in (subst P l≡m r.0, λ u. r.1 (l≡m ∙ u))
  Settled-IsStable c h old r a k (kept n p) m q = k m q

  pub settle-IsStable :
      (c : ℕ) (h : List String) (old : Option String)
      → 0 < c
      → All P h
      → IsStable old
      → IsStable (settle c h old)
  settle-IsStable zero h old p a k = absurd (omega arith)
  settle-IsStable (suc c) h old p a k =
      Settled-IsStable c h old (settle (suc c) h old) a k (settle-Settled c h old)

  pub IsStable-if :
      (b : Bool) (x y : Option String) → IsStable x → IsStable y → IsStable (if b then x else y)
  IsStable-if true x y h k = h
  IsStable-if false x y h k = k

  pub IsStable-none : IsStable none
  IsStable-none l e = absurd (cc e)

pub length-push_history :
    (w : ℕ) (h : List String) (l : String) → length h ≤ w → length (push_history w h l) ≤ w
unfolding push_history
length-push_history w [] l i = ground arith
length-push_history w (x ∷ xs) l i = ground (arith, length-append xs (l ∷ []))

pub smooth_fields :
    {F : Type 0} (c : Settings) (raw : String) (s : TrackState F)
    → ((smooth c raw s).track_id ≡ s.track_id)
      × ((smooth c raw s).first_seen_frame ≡ s.first_seen_frame)
      × ((smooth c raw s).last_seen_frame ≡ s.last_seen_frame)
      × ((smooth c raw s).raw_history ≡ s.raw_history)
unfolding smooth
smooth_fields c raw s = ground arith

pub stable_lane-smooth :
    {F : Type 0} (c : Settings) (raw : String) (s : TrackState F)
    → (smooth c raw s).stable_lane ≡ (
        if raw == "unknown"
        then (if ltb c.unknown_timeout_frames (s.consecutive_unknown_count + 1)
            then none
            else s.stable_lane)
        else settle c.min_consecutive_for_change s.raw_history s.stable_lane)
unfolding smooth
stable_lane-smooth c raw s = ground arith
