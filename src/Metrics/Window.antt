-- ===== src/Metrics/Window.antt =====
-- The window of time stamps behind the frame rates.
use traffic_lane_counter.Prelude.{
  ℕ, ◌+◌, ◌≤◌, inl, inr, Option, List, [], ◌∷◌, ◌++◌, arith, ltb, length, length-append, All,
  Bool-cases,
}
use traffic_lane_counter.Metrics.{Readings, Entry, window_size, push, trim_window, frame_entry}

-- The time stamps are in order, from `lo` to `hi`.
abbrev pub Ordered : ℕ → ℕ → List ℕ → Type 0
Ordered lo hi [] = Unit {0}
Ordered lo hi (t ∷ ts) = (lo ≤ t) × (t ≤ hi) × Ordered t hi ts

Ordered-mono :
    (lo hi lo' hi' : ℕ) (ts : List ℕ) → lo' ≤ lo → hi ≤ hi' → Ordered lo hi ts → Ordered lo' hi' ts
Ordered-mono lo hi lo' hi' [] a b h = tt
Ordered-mono lo hi lo' hi' (t ∷ ts) a b h =
    (omega (arith, h.0), omega (arith, h.1), Ordered-mono t hi t hi' ts (omega arith) b h.2)

Ordered-append :
    (lo hi x : ℕ) (ts : List ℕ) → lo ≤ x → hi ≤ x → Ordered lo hi ts → Ordered lo x (ts ++ x ∷ [])
Ordered-append lo hi x [] a b h = (a, omega arith, tt)
Ordered-append lo hi x (t ∷ ts) a b h =
    (h.0, omega (arith, h.1), Ordered-append t hi x ts (omega (arith, h.1)) b h.2)

-- What a window is: in order up to the last record, and at most 120 time stamps.
abbrev pub IsWindow : ℕ → List ℕ → Type 0
IsWindow last ts = Ordered 0 last ts × (length ts ≤ window_size)

push-Ordered :
    (last now : ℕ) (ts : List ℕ) → last ≤ now → Ordered 0 last ts → Ordered 0 now (push now ts)
unfolding push
push-Ordered last now [] l h = ground arith
push-Ordered last now (t ∷ ts) l h =
    let whole = Ordered-append 0 last now (t ∷ ts) (omega arith) l h in
    let rest =
      Ordered-append 0 last now ts (omega arith) l
        (Ordered-mono t last 0 last ts (omega arith) (omega arith) h.2) in
    elim (Bool-cases (ltb (length (t ∷ ts)) window_size)) [
      | inl e ↦ rw (e, push) whole
      | inr e ↦ rw (e, push) rest
    ]

length-push {ℓ} :
    {A : Type ℓ} (x : A) (xs : List A) → length xs ≤ window_size → length (push x xs) ≤ window_size
unfolding push
length-push x [] h = ground arith
length-push x (y ∷ ys) h =
    ground (arith, length-append (y ∷ ys) (x ∷ []), length-append ys (x ∷ []))

module _ (v : Readings) where
  recent-Ordered :
      (now t hi : ℕ) (ts : List ℕ)
      → now ≤ t + v.fps_window
      → Ordered t hi ts
      → All (λ x. now ≤ x + v.fps_window) ts
  recent-Ordered now t hi [] a h = tt
  recent-Ordered now t hi (x ∷ ts) a h =
      let near : now ≤ x + v.fps_window = omega (arith, h.0) in
      (near, recent-Ordered now x hi ts near h.2)

  trim_window-Ordered :
      (now lo hi : ℕ) (ts : List ℕ)
      → Ordered lo hi ts
      → Ordered lo hi (trim_window v now ts)
        × All (λ x. now ≤ x + v.fps_window) (trim_window v now ts)
        × (length (trim_window v now ts) ≤ length ts)
  unfolding trim_window
  trim_window-Ordered now lo hi [] h = (tt, tt, omega arith)
  trim_window-Ordered now lo hi (t ∷ ts) h =
      let more =
        trim_window-Ordered now lo hi ts (Ordered-mono t hi lo hi ts h.0 (omega arith) h.2) in
      elim (Bool-cases (ltb (t + v.fps_window) now)) [
        | inl e ↦ rw (e, trim_window) (more.0, more.1, omega (arith, more.2))
        | inr e ↦
            let near : now ≤ t + v.fps_window = ground arith in
            rw (e, trim_window) (h, (near, recent-Ordered now t hi ts near h.2), omega arith)
      ]

  -- After a recorded frame the time stamps of the processed frames are in order, at most 120, and none is
  -- older than the window, if before it they were in order up to a time that is not later.
  pub frame_entry-IsWindow :
      (now clock last : ℕ) (total : v.F) (source : Option v.F) (e : Entry v)
      → last ≤ now
      → IsWindow last e.process_timestamps
      → let after = (frame_entry v now clock total source e).process_timestamps in
        IsWindow now after × All (λ t. now ≤ t + v.fps_window) after
  unfolding frame_entry
  frame_entry-IsWindow now clock last total source e l h =
      let pushed = push-Ordered last now e.process_timestamps l h.0 in
      let trimmed = trim_window-Ordered now 0 now (push now e.process_timestamps) pushed in
      ((trimmed.0, omega (arith, trimmed.2, length-push now e.process_timestamps h.1)), trimmed.1)
