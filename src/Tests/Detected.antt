-- ===== src/Tests/Detected.antt =====
-- Runs of the detection core.
use traffic_lane_counter.Prelude.{refl, none, map, arith}
use traffic_lane_counter.Counting.Once.{AllDistinct, key}
use traffic_lane_counter.Detection.{start, process_frame}
use traffic_lane_counter.Detection.Frames.{run_frames, counts-run_frames}
use traffic_lane_counter.Detection.Reach.{IsSound, here, next, starts, frames, Reach-IsSound}
use traffic_lane_counter.Tests.Samples.{line, model, loaded, new_core, drive, car_frame}

counts-run_frames_example :
    AllDistinct (map key (run_frames line model (start line model loaded new_core) drive).1)
counts-run_frames_example = (counts-run_frames line model loaded new_core drive refl).0

new_core-IsSound : IsSound line model loaded new_core
new_core-IsSound = record { positive = omega arith; parts = λ p e. absurd (cc e) }

Reach-IsSound_example :
    IsSound line model loaded
      (process_frame line model (start line model loaded new_core) (car_frame 5) none).1
Reach-IsSound_example =
    Reach-IsSound line model loaded new_core-IsSound
      (next (next here (starts new_core)) (frames (start line model loaded new_core) (car_frame 5)))
