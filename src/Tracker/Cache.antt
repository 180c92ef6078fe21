-- ===== src/Tracker/Cache.antt =====
-- The cache of the adapter: which frames are detected, and what the frames between them see.
use traffic_lane_counter.Prelude.{
  ℕ, ◌+◌, ◌%◌, ◌<◌, ◌≡◌, ◌↔◌, ◌⊎◌, inl, inr, true, false, none, some, List, nat_eq, arith,
  Option-cases,
}
use traffic_lane_counter.Tracks.{Track}
use traffic_lane_counter.Tracker.{
  Adapter, Detector, Detection, is_detect_frame, run_track, read_answer, detect, track,
}

mod_suc : (n c : ℕ) → 1 < n → ((c + 1) % n ≡ 1) ↔ (c % n ≡ 0)
mod_suc n c p = (λ e. grind arith, λ e. grind arith)

-- With `n` at least 1 the frames that are detected are frame 1, frame 1 + n, frame 1 + 2n, ...
pub is_detect_frame_iff : (n c : ℕ) → 0 < n → (is_detect_frame n (c + 1) ≡ true) ↔ (c % n ≡ 0)
unfolding is_detect_frame
is_detect_frame_iff n c p = (λ e. ground (arith, mod_suc n c), λ e. ground (arith, mod_suc n c))

module _ {F : Type 0} (d : Detector F) where
  open d use {Frame, Model}

  caches-run_track :
      (a : Adapter F Model) (f : Frame)
      → ((run_track d a f).1.cached_tracks ≡ a.cached_tracks)
        × ((run_track d a f).1.cached_raw ≡ a.cached_raw)
        × ((run_track d a f).1.detect_every_n ≡ a.detect_every_n)
        × ((run_track d a f).1.frame_count ≡ a.frame_count)
  unfolding run_track
  caches-run_track a f = ground arith

  caches-detect :
      (a : Adapter F Model) (f : Frame)
      → ((r : List (Track F) × List (Detection F))
          → (detect d a f).0 ≡ some r
          → r ≡ ((detect d a f).1.cached_tracks, (detect d a f).1.cached_raw))
        × ((detect d a f).0 ≡ none
            → ((detect d a f).1.cached_tracks ≡ a.cached_tracks)
              × ((detect d a f).1.cached_raw ≡ a.cached_raw))
  unfolding detect
  caches-detect a f = elim (Option-cases (read_answer d (run_track d a f).0)) [
    | inl e ↦ (λ r q. ground arith, λ q. ground (arith, caches-run_track a f))
    | inr (x, e) ↦ (λ r q. ground arith, λ q. ground arith)
  ]

  -- What a call returns is what it leaves in the cache, on a frame that is detected and on one that is not.
  pub track_returns_cache :
      (a : Adapter F Model) (f : Frame) (r : List (Track F) × List (Detection F))
      → (track d a f).0 ≡ some r
      → r ≡ ((track d a f).1.cached_tracks, (track d a f).1.cached_raw)
  unfolding track
  track_returns_cache a f r e =
      ground (arith, (caches-detect (record a { frame_count = a.frame_count + 1 }) f).0 r)

  -- A frame that is not detected, and one whose detection raises, leave the cache as it was.
  pub cache-track_kept :
      (a : Adapter F Model) (f : Frame)
      → (is_detect_frame a.detect_every_n (a.frame_count + 1) ≡ false) ⊎ ((track d a f).0 ≡ none)
      → ((track d a f).1.cached_tracks ≡ a.cached_tracks)
        × ((track d a f).1.cached_raw ≡ a.cached_raw)
  unfolding track
  cache-track_kept a f h =
      ground (arith, (caches-detect (record a { frame_count = a.frame_count + 1 }) f).1)
