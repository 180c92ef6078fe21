-- ===== src/Tests/Connected.antt =====
-- WebSocket clients of one user, who share the listener of a camera.
use traffic_lane_counter.Prelude.{
  ℕ, ◌≤◌, ◌<◌, ◌≡◌, ◌≢◌, ◌⊎◌, refl, true, false, none, some, String, [], ◌∷◌, All, length, str_dec,
  string_eq, get_or, ℕ_discrete,
}
use traffic_lane_counter.Prelude.Dict.{lookup}
use traffic_lane_counter.Sockets.{
  has_user_place, Client, Listener, Hub, new_hub, max_global_connections, register_client,
  unregister_client, ensure_redis_listener, deliver,
}
use traffic_lane_counter.Sockets.Counted
use traffic_lane_counter.Sockets.Counted.{count_of, Run-IsCounted}
use traffic_lane_counter.Sockets.Fits.{held_count}
use traffic_lane_counter.Sockets.Listeners
use traffic_lane_counter.Sockets.Listeners.{Run-IsListening}

abbrev viewer : ℕ → Client
viewer ws = record { ws = ws; username = "ann"; camera_key = "north"; cameras = "north" ∷ [] }

abbrev one : Hub
one = record {
  connections = ("north", 7 ∷ []) ∷ [];
  ws_cameras = (7, "north" ∷ []) ∷ [];
  user_connections = ("ann", 1) ∷ [];
  global_count = 1;
  redis_listeners = [];
  tasks = 0;
}

abbrev two : Hub
two = record {
  connections = ("north", 7 ∷ 9 ∷ []) ∷ [];
  ws_cameras = (7, "north" ∷ []) ∷ (9, "north" ∷ []) ∷ [];
  user_connections = ("ann", 2) ∷ [];
  global_count = 2;
  redis_listeners = [];
  tasks = 0;
}

registers_one : register_client (viewer 7) new_hub ≡ some one
unfolding register_client
registers_one = refl

registers_two : register_client (viewer 9) one ≡ some two
unfolding register_client str_dec ℕ_discrete
registers_two = refl

has_no_place : has_user_place "ann" (record two { user_connections = ("ann", 5) ∷ [] }) ≡ false
unfolding has_user_place str_dec
has_no_place = refl

-- The socket that cannot be written to is dropped; its client is still counted, until it ends.
drops_socket : (deliver false ("north" ∷ []) "north" 7 two).0.connections ≡ ("north", 9 ∷ []) ∷ []
unfolding deliver ℕ_discrete str_dec
drops_socket = refl

coming_and_going : Counted.Run (unregister_client (viewer 9) two) (viewer 7 ∷ [])
coming_and_going = Counted.unregisters [] (viewer 7 ∷ []) (viewer 9) (
    Counted.registers (viewer 9) (Counted.registers (viewer 7) Counted.starts registers_one)
      registers_two)

Run-IsCounted_example :
    ((unregister_client (viewer 9) two).global_count ≡ length (viewer 7 ∷ []))
    × ((unregister_client (viewer 9) two).global_count ≤ max_global_connections)
    × ((u : String)
        → get_or (lookup u (unregister_client (viewer 9) two).user_connections) 0
          ≡ count_of u (viewer 7 ∷ []))
Run-IsCounted_example = Run-IsCounted coming_and_going

abbrev first_hold : Hub
first_hold = (ensure_redis_listener true "north" new_hub).0

abbrev second_hold : Hub
second_hold = (ensure_redis_listener true "north" first_hold).0

holding : Listeners.Run second_hold ("north" ∷ "north" ∷ []) []
unfolding ensure_redis_listener str_dec
holding = Listeners.takes true "north" (Listeners.takes true "north" Listeners.starts)

Run-IsListening_example :
    ((lookup "north" second_hold.redis_listeners ≡ none)
      × (held_count "north" ("north" ∷ "north" ∷ []) ≡ 0))
    ⊎ ((l : Listener) × (lookup "north" second_hold.redis_listeners ≡ some l)
        × (l.refcount ≡ held_count "north" ("north" ∷ "north" ∷ []))
        × 0 < l.refcount
        × All (λ (x : String × ℕ). x.0 ≡ "north" → x.1 ≢ l.task) [])
Run-IsListening_example = Run-IsListening holding "north"
