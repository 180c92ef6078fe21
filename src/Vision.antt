-- ===== src/Vision.antt =====
-- What the detection code takes from floats, NumPy and OpenCV: a parameter of the model.
-- `cv2.pointPolygonTest(..., measureDist=False)` answers -1, 0 or 1.
use traffic_lane_counter.Prelude.{Bool, List}

pub data Side : Type 0 where
  outside on_edge inside : Side

pub record Vision : Type 1 where
  pub F : Type 0
  pub float_zero : F
  pub float_two : F
  pub add : F → F → F
  pub sub : F → F → F
  -- `x / 2.0`
  pub half : F → F
  pub abs : F → F
  pub lt : F → F → Bool
  pub Polygon : Type 0
  -- `np.array(points, dtype=np.float32).reshape((-1, 1, 2))`
  pub to_polygon : List (F × F) → Polygon
  pub point_polygon_test : Polygon → F × F → Side

-- `[xmin, ymin, xmax, ymax]`
pub record Box (F : Type 0) : Type 0 where
  pub xmin : F
  pub ymin : F
  pub xmax : F
  pub ymax : F
