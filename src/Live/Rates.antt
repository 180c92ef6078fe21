-- ===== src/Live/Rates.antt =====
-- packages/tf_api/api/routes_live.py: how often and how large a live pipeline works, by the number of the
-- pipelines that share the GPU. Settings of the environment are arguments, `none` where they are not set.
use traffic_lane_counter.Prelude.{
  ℕ, ◌+◌, ◌≤◌, Bool, ◌&&◌, ◌||◌, Option, none, some, [], ◌∷◌, String, ◌==◌, string_eq, nat_eq,
  arith, if◌then◌else◌, ltb, leb, min, max, get_or,
}
use traffic_lane_counter.Prelude.Dict.{Dict}
use traffic_lane_counter.Live.{Stream, Fleet}

unfoldable pub is_active : Stream → Bool
is_active s = s.always_on || ltb 0 s.connections

unfoldable pub count_active : Dict String Stream → ℕ
unfolding is_active
count_active [] = 0
count_active ((c, s) ∷ d) = let rest = count_active d in if is_active s then rest + 1 else rest

-- `_count_active_pipelines`
unfoldable pub count_active_pipelines : Fleet → ℕ
unfolding count_active
count_active_pipelines f = count_active f.streams

-- `recommended_detect_every_n`; `balanced` is the mode that protects the frame rate.
unfoldable pub recommended_detect_every_n : Bool → Option ℕ → Option ℕ → ℕ → Bool → Fleet → ℕ
unfolding count_active_pipelines
recommended_detect_every_n balanced viewer_setting always_on_setting viewers always_on f =
    let load = max 1 (count_active_pipelines f) in
    if ltb 0 viewers
    then elim viewer_setting [ some n ↦ max 1 n | none ↦ if balanced && leb 3 load then 2 else 1 ]
    else if always_on
    then elim always_on_setting [
      | some n ↦ max 1 n
      | none ↦ if balanced && leb 2 load then 2 else 1
    ]
    else 1

-- `_live_max_imgsz`; the setting is `some none` where its text is not a number.
unfoldable pub live_max_imgsz : Option (Option ℕ) → Fleet → ℕ
unfolding count_active_pipelines
live_max_imgsz setting f = elim setting [
  | some given ↦ get_or given 960
  | none ↦
      let load = max 1 (count_active_pipelines f) in
      if leb 3 load then 640 else if leb 2 load then 800 else 960
]

-- `_live_capture_target_fps`, over whole frames per second
unfoldable pub live_capture_target_fps : Option ℕ → Option ℕ → ℕ → Fleet → ℕ
unfolding count_active_pipelines
live_capture_target_fps setting headless_setting viewers f =
    let load = max 1 (count_active_pipelines f) in
    let base = get_or setting 12 in
    let shared : ℕ = if leb 3 load then min base 8 else if leb 2 load then min base 10 else base in
    let wanted : ℕ = if viewers == 0 then min shared (get_or headless_setting 10) else shared in
    max 4 wanted

module _ (f g : Fleet) (h : count_active_pipelines f ≤ count_active_pipelines g) where
  detect_mono :
      (balanced always_on : Bool) (nv na : Option ℕ) (viewers : ℕ)
      → (1 ≤ recommended_detect_every_n balanced nv na viewers always_on f)
        × (recommended_detect_every_n balanced nv na viewers always_on f
            ≤ recommended_detect_every_n balanced nv na viewers always_on g)
  unfolding recommended_detect_every_n
  detect_mono balanced always_on nv na viewers = ground (arith, h)

  imgsz_mono : (size : Option (Option ℕ)) → live_max_imgsz size g ≤ live_max_imgsz size f
  unfolding live_max_imgsz
  imgsz_mono size = ground (arith, h)

  fps_mono :
      (fps headless : Option ℕ) (viewers : ℕ)
      → (4 ≤ live_capture_target_fps fps headless viewers g)
        × (live_capture_target_fps fps headless viewers g
            ≤ live_capture_target_fps fps headless viewers f)
  unfolding live_capture_target_fps
  fps_mono fps headless viewers = ground (arith, h)

-- With more pipelines on the GPU each works no more often and on no larger images: the detection interval does
-- not fall, and the image size and the capture rate do not rise. The interval is at least 1 and the rate at
-- least 4.
pub rates_mono :
    (balanced always_on : Bool) (nv na fps headless : Option ℕ) (size : Option (Option ℕ))
    (viewers : ℕ) (f g : Fleet)
    → count_active_pipelines f ≤ count_active_pipelines g
    → (1 ≤ recommended_detect_every_n balanced nv na viewers always_on f)
      × (recommended_detect_every_n balanced nv na viewers always_on f
          ≤ recommended_detect_every_n balanced nv na viewers always_on g)
      × (live_max_imgsz size g ≤ live_max_imgsz size f)
      × (4 ≤ live_capture_target_fps fps headless viewers g)
      × (live_capture_target_fps fps headless viewers g
          ≤ live_capture_target_fps fps headless viewers f)
rates_mono balanced always_on nv na fps headless size viewers f g h =
    let detect = detect_mono f g h balanced always_on nv na viewers in
    let capture = fps_mono f g h fps headless viewers in
    (detect.0, detect.1, imgsz_mono f g h size, capture.0, capture.1)
