-- ===== src/Tests/Shared.antt =====
-- The alert service, the bus and the validation on small inputs.
use traffic_lane_counter.Prelude.{
  ℕ, ◌≡◌, ◌↔◌, true, none, some, List, [], ◌∷◌, ◌++◌, String, done, arith, nat_eq, string_eq, leb,
  All, map,
}
use traffic_lane_counter.Prelude.Dict.{lookup}
use traffic_lane_counter.Alerts.{AlertService, Report, new_service, emit, resolve}
use traffic_lane_counter.Alerts.Reach.{
  here, next, emits, resolves, IsConsistent, Reach-IsConsistent,
}
use traffic_lane_counter.Bus.{LiveEventBus, run_scheduled, queue_maxsize}
use traffic_lane_counter.Bus.Overflow.{latest, run_scheduled-latest}
use traffic_lane_counter.Validators.{Coordinates, LaneConfig, ModelVersion, validate_lane_config}
use traffic_lane_counter.Validators.Lanes.{AreDistinct, IsLane, validate_lane_config_iff}

abbrev service : AlertService ℕ ℕ
service = new_service

abbrev offline : Report ℕ
offline = record {
  severity = "critical";
  title = "Camera offline";
  message = "";
  camera_id = some "CAM_01";
  alert_type = "camera_offline";
  suppress_if_active = true;
  details = 0;
}

service-IsConsistent : IsConsistent service
unfolding new_service lookup
service-IsConsistent = record { answers = λ k i e. tt; limit = omega arith }

Reach-IsConsistent_example :
    IsConsistent (resolve 9 "camera_offline" (some "CAM_01") (emit "id" 4 offline service).1).1
unfolding new_service lookup
Reach-IsConsistent_example = Reach-IsConsistent service-IsConsistent (
    next (next here (emits "id" 4 offline service tt (λ k e. absurd (cc e))))
      (resolves 9 "camera_offline" (some "CAM_01") (emit "id" 4 offline service).1))

abbrev waiting : List (String × ℕ)
waiting = ("CAM_01", 1) ∷ []

abbrev arriving : List (String × ℕ)
arriving = ("CAM_01", 2) ∷ ("CAM_02", 3) ∷ []

run_scheduled-latest_example :
    run_scheduled arriving waiting ≡ latest queue_maxsize (waiting ++ arriving)
run_scheduled-latest_example = run_scheduled-latest arriving waiting (omega arith)

abbrev bus : LiveEventBus ℕ
bus = ("CAM_01", 3 ∷ []) ∷ []

abbrev whole : Coordinates
whole = record { F = ℕ; of_int = λ n. n; le = leb }

abbrev lane_config : LaneConfig ℕ
lane_config = record {
  camera_id = "CAM_01";
  frame_size = record { width = 640; height = 480 };
  lanes =
      record {
        lane_id = "left";
        name = "";
        polygon = (0 ∷ 0 ∷ []) ∷ (320 ∷ 0 ∷ []) ∷ (320 ∷ 480 ∷ []) ∷ [];
        counting_line = none;
      }
      ∷ [];
}

validate_lane_config_iff_example : (validate_lane_config whole lane_config ≡ done tt) ↔ (
    AreDistinct [] (map (λ l. l.lane_id) lane_config.lanes)
    × All (IsLane whole lane_config.frame_size) lane_config.lanes)
validate_lane_config_iff_example = validate_lane_config_iff whole lane_config

abbrev models : List ModelVersion
models = record { model_id = "yolo"; path = "yolo.pt"; class_mode = "coco_pretrained" } ∷ []
