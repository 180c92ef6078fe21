-- ===== src/Sockets.antt =====
-- The WebSocket clients of packages/tf_api/api/routes_ws.py: their registration, the listeners of Redis that they
-- share, and the delivery of a message to one of them. The two locks make each operation one step. A socket and a
-- task are numbers, `id(ws)` and the place of the task in the order of creation; the channel of a camera, which
-- is "traffic:live:" and its id, is the id.
pub mod Counted
pub mod Fits
pub mod Sharing
pub mod Listeners
use traffic_lane_counter.Prelude.{
  ℕ, ◌+◌, ◌-◌, ◌≡◌, Bool, true, false, ◌&&◌, ◌||◌, not, Option, none, some, List, [], ◌∷◌, ◌++◌,
  String, ◌==◌, string_eq, nat_eq, if◌then◌else◌, ltb, leb, get_or,
}
use traffic_lane_counter.Prelude.Dict.{Dict, lookup, insert, remove}

-- `_MAX_GLOBAL_CONNECTIONS` and `_MAX_CONNECTIONS_PER_USER`
abbrev pub max_global_connections : ℕ
max_global_connections = 500

abbrev pub max_connections_per_user : ℕ
max_connections_per_user = 5

pub record Client : Type 0 where
  pub ws : ℕ
  pub username : String
  pub camera_key : String
  pub cameras : List String

pub record Listener : Type 0 where
  pub task : ℕ
  pub refcount : ℕ

-- The globals of the module, with the number of tasks created so far
pub record Hub : Type 0 where
  pub connections : Dict String (List ℕ)
  pub ws_cameras : Dict ℕ (List String)
  pub user_connections : Dict String ℕ
  pub global_count : ℕ
  pub redis_listeners : Dict String Listener
  pub tasks : ℕ

abbrev pub new_hub : Hub
new_hub = record {
  connections = [];
  ws_cameras = [];
  user_connections = [];
  global_count = 0;
  redis_listeners = [];
  tasks = 0;
}

-- The checks before the lock: is there a place, and does the user have one?
unfoldable pub has_place : Hub → Bool
has_place h = ltb h.global_count max_global_connections

unfoldable pub has_user_place : String → Hub → Bool
unfolding lookup
has_user_place username h =
    ltb (get_or (lookup username h.user_connections) 0) max_connections_per_user

-- The locked section that lets a client in
unfoldable pub register_client : Client → Hub → Option Hub
unfolding lookup insert
register_client c h =
    if leb max_global_connections h.global_count
    then none
    else some (record h {
      connections =
          insert c.camera_key (get_or (lookup c.camera_key h.connections) [] ++ (c.ws ∷ []))
            h.connections;
      ws_cameras = insert c.ws c.cameras h.ws_cameras;
      user_connections =
          insert c.username (get_or (lookup c.username h.user_connections) 0 + 1)
            h.user_connections;
      global_count = h.global_count + 1;
    })

-- `conns.remove(ws)`, where a socket that is not there changes nothing
unfoldable pub remove_socket : ℕ → List ℕ → List ℕ
remove_socket ws [] = []
remove_socket ws (x ∷ xs) = let rest = remove_socket ws xs in if x == ws then xs else x ∷ rest

unfoldable pub drop_socket : Client → Dict String (List ℕ) → Dict String (List ℕ)
unfolding lookup insert remove remove_socket
drop_socket c connections =
    elim (remove_socket c.ws (get_or (lookup c.camera_key connections) [])) [
      | [] ↦ remove c.camera_key connections
      | (ws ∷ more) ↦ insert c.camera_key (ws ∷ more) connections
    ]

-- The locked section behind the loop of a client
unfoldable pub unregister_client : Client → Hub → Hub
unfolding drop_socket lookup insert remove
unregister_client c h = record h {
  connections = drop_socket c h.connections;
  ws_cameras = remove c.ws h.ws_cameras;
  user_connections =
      insert c.username (get_or (lookup c.username h.user_connections) 0 - 1) h.user_connections;
  global_count = h.global_count - 1;
}

-- `_ensure_redis_listener`; `creates` says whether the task can be created, and the answer whether the client holds
-- the channel now.
unfoldable pub ensure_redis_listener : Bool → String → Hub → Hub × Bool
unfolding lookup insert
ensure_redis_listener creates channel h = elim (lookup channel h.redis_listeners) [
  | some l ↦ (
    record h {
      redis_listeners = insert channel (record l { refcount = l.refcount + 1 }) h.redis_listeners;
    },
    true,
  )
  | none ↦
      if creates
      then (
        record h {
          redis_listeners =
              insert channel (record { task = h.tasks; refcount = 1 }) h.redis_listeners;
          tasks = h.tasks + 1;
        },
        true,
      )
      else (h, false)
]

-- `_release_redis_listener`, with the task that it cancels
unfoldable pub release_redis_listener : String → Hub → Hub × Option ℕ
unfolding lookup insert remove
release_redis_listener channel h = elim (lookup channel h.redis_listeners) [
  | none ↦ (h, none)
  | some l ↦
      if ltb 0 (l.refcount - 1)
      then (
        record h {
          redis_listeners =
              insert channel (record l { refcount = l.refcount - 1 }) h.redis_listeners;
        },
        none,
      )
      else (record h { redis_listeners = remove channel h.redis_listeners }, some l.task)
]

-- The end of `_redis_sub_loop` of a cancelled task
unfoldable pub end_listener : String → ℕ → Hub → Hub
unfolding lookup remove
end_listener channel task h = elim (lookup channel h.redis_listeners) [
  | none ↦ h
  | some l ↦
      if l.task == task then record h { redis_listeners = remove channel h.redis_listeners } else h
]

unfoldable pub has_member : List String → String → Bool
has_member [] cam = false
has_member (x ∷ xs) cam = x == cam || has_member xs cam

-- `any(cam in subscribed for cam in cameras if cam)`
unfoldable pub is_subscribed : List String → List String → Bool
unfolding has_member
is_subscribed subscribed [] = false
is_subscribed subscribed (cam ∷ cams) =
    not (cam == "") && has_member subscribed cam || is_subscribed subscribed cams

-- A socket that has no cameras gets every message.
unfoldable pub wants : List String → List String → Bool
unfolding is_subscribed
wants cams [] = true
wants cams (x ∷ subscribed) = is_subscribed (x ∷ subscribed) cams

-- The body of the loop of `broadcast_raw` for one socket under one key; `sends` says whether the text can be sent,
-- and the answer whether it was.
unfoldable pub deliver : Bool → List String → String → ℕ → Hub → Hub × Bool
unfolding wants lookup insert remove remove_socket
deliver sends cams key ws h =
    if not (wants cams (get_or (lookup ws h.ws_cameras) []))
    then (h, false)
    else if sends
    then (h, true)
    else (
      record h {
        connections = elim (lookup key h.connections) [
          | none ↦ h.connections
          | some conns ↦ insert key (remove_socket ws conns) h.connections
        ];
        ws_cameras = remove ws h.ws_cameras;
      },
      false,
    )
