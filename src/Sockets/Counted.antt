-- ===== src/Sockets/Counted.antt =====
-- Clients that come and go, and messages that drop sockets in between: what the counters of
-- packages/tf_api/api/routes_ws.py hold.
use traffic_lane_counter.Prelude.{
  ℕ, ◌+◌, ◌-◌, ◌≤◌, ◌≡◌, refl, ap, ◌∙◌, inl, inr, Bool, some, List, [], ◌∷◌, ◌++◌, String, ◌==◌,
  string_eq, nat_eq, arith, if◌then◌else◌, leb, get_or, length, length-append, Bool-cases,
}
use traffic_lane_counter.Prelude.Dict.{lookup, insert, lookup-insert}
use traffic_lane_counter.Sockets.{
  Client, Hub, new_hub, max_global_connections, register_client, unregister_client,
  ensure_redis_listener, release_redis_listener, end_listener, deliver,
}

-- The counters of the hub and the clients that are registered, through the steps of all clients: one is let in, one of
-- them ends, a listener of Redis is used, left or ends, and a message goes to a socket.
pub data Run : Hub → List Client → Type 0 where
  starts : Run new_hub []
  registers :
      {h h' : Hub} {clients : List Client} (c : Client)
      → Run h clients
      → register_client c h ≡ some h'
      → Run h' (c ∷ clients)
  unregisters :
      {h : Hub} (xs ys : List Client) (c : Client)
      → Run h (xs ++ c ∷ ys)
      → Run (unregister_client c h) (xs ++ ys)
  listens :
      {h : Hub} {clients : List Client} (creates : Bool) (channel : String)
      → Run h clients
      → Run (ensure_redis_listener creates channel h).0 clients
  stops_listening :
      {h : Hub} {clients : List Client} (channel : String)
      → Run h clients
      → Run (release_redis_listener channel h).0 clients
  ends :
      {h : Hub} {clients : List Client} (channel : String) (task : ℕ)
      → Run h clients
      → Run (end_listener channel task h) clients
  delivers :
      {h : Hub} {clients : List Client} (sends : Bool) (cams : List String) (key : String) (ws : ℕ)
      → Run h clients
      → Run (deliver sends cams key ws h).0 clients

-- How many of the clients are the user's
abbrev pub count_of : String → List Client → ℕ
count_of u [] = 0
count_of u (c ∷ cs) = let rest = count_of u cs in if c.username == u then rest + 1 else rest

count_of-append :
    (u : String) (xs ys : List Client) → count_of u (xs ++ ys) ≡ count_of u xs + count_of u ys
count_of-append u [] ys = omega arith
count_of-append u (x ∷ xs) ys = ground (arith, count_of-append u xs ys)

abbrev pub user_count : String → Hub → ℕ
user_count u h = get_or (lookup u h.user_connections) 0

-- The counters are right, and within the limit.
abbrev pub IsCounted : Hub → List Client → Type 0
IsCounted h clients =
    (h.global_count ≡ length clients)
    × (h.global_count ≤ max_global_connections)
    × ((u : String) → user_count u h ≡ count_of u clients)

user_count-insert :
    (u v : String) (n : ℕ) (h : Hub)
    → get_or (lookup v (insert u n h.user_connections)) 0 ≡ (if u == v then n else user_count v h)
user_count-insert u v n h = elim (Bool-cases (u == v)) [
  | inl t ↦ ground (arith, t, lookup-insert u v n h.user_connections)
  | inr t ↦ ground (arith, t, lookup-insert u v n h.user_connections)
]

register_client-IsCounted :
    (c : Client) (h : Hub) (h' : Hub) (clients : List Client)
    → IsCounted h clients
    → register_client c h ≡ some h'
    → IsCounted h' (c ∷ clients)
unfolding register_client
register_client-IsCounted c h h' clients (total, low, users) r =
    elim (Bool-cases (leb max_global_connections h.global_count)) [
      | inl t ↦ absurd (cc (rw (t, register_client) at r))
      | inr t ↦ (
        ground (arith, t, r, total),
        ground (arith, t, r),
        λ u. ground (
          arith,
          t,
          r,
          users u,
          users c.username,
          user_count-insert c.username u (user_count c.username h + 1) h,
        ),
      )
    ]

unregister_client-IsCounted :
    (c : Client) (h : Hub) (xs ys : List Client)
    → IsCounted h (xs ++ c ∷ ys)
    → IsCounted (unregister_client c h) (xs ++ ys)
unfolding unregister_client
unregister_client-IsCounted c h xs ys (total, low, users) = (
  omega (arith, total, length-append xs (c ∷ ys), length-append xs ys),
  omega (arith, low),
  λ u. ground (
    arith,
    users u,
    users c.username,
    count_of-append u xs (c ∷ ys),
    count_of-append u xs ys,
    user_count-insert c.username u (user_count c.username h - 1) h,
  ),
)

-- The parts that the counters do not read
same_counters :
    (h h' : Hub) (clients : List Client)
    → h'.global_count ≡ h.global_count
    → h'.user_connections ≡ h.user_connections
    → IsCounted h clients
    → IsCounted h' clients
same_counters h h' clients g u (total, low, users) =
    (ground (arith, g), ground (arith, g), λ v. ap (λ d. get_or (lookup v d) 0) u ∙ users v)

listen-same :
    (creates : Bool) (channel : String) (h : Hub)
    → ((ensure_redis_listener creates channel h).0.global_count ≡ h.global_count)
      × ((ensure_redis_listener creates channel h).0.user_connections ≡ h.user_connections)
unfolding ensure_redis_listener
listen-same creates channel h = ground arith

release-same :
    (channel : String) (h : Hub)
    → ((release_redis_listener channel h).0.global_count ≡ h.global_count)
      × ((release_redis_listener channel h).0.user_connections ≡ h.user_connections)
unfolding release_redis_listener
release-same channel h = ground arith

end-same :
    (channel : String) (task : ℕ) (h : Hub)
    → ((end_listener channel task h).global_count ≡ h.global_count)
      × ((end_listener channel task h).user_connections ≡ h.user_connections)
unfolding end_listener
end-same channel task h = ground arith

deliver-same :
    (sends : Bool) (cams : List String) (key : String) (ws : ℕ) (h : Hub)
    → ((deliver sends cams key ws h).0.global_count ≡ h.global_count)
      × ((deliver sends cams key ws h).0.user_connections ≡ h.user_connections)
unfolding deliver
deliver-same sends cams key ws h = ground arith

-- At every moment the global counter is the number of clients that were registered and not unregistered, at most 500,
-- and the counter of each user is the number of those that are the user's, whatever listeners and messages do.
pub Run-IsCounted :
    {h : Hub} {clients : List Client}
    → Run h clients
    → (h.global_count ≡ length clients)
      × (h.global_count ≤ max_global_connections)
      × ((u : String) → get_or (lookup u h.user_connections) 0 ≡ count_of u clients)
unfolding lookup
Run-IsCounted starts = (refl, omega arith, λ u. refl)
Run-IsCounted (registers {h} {h'} {clients} c r e) =
    register_client-IsCounted c h h' clients (Run-IsCounted r) e
Run-IsCounted (unregisters {h} xs ys c r) = unregister_client-IsCounted c h xs ys (Run-IsCounted r)
Run-IsCounted (listens {h} {clients} creates channel r) =
    let (g, u) = listen-same creates channel h in
    same_counters h (ensure_redis_listener creates channel h).0 clients g u (Run-IsCounted r)
Run-IsCounted (stops_listening {h} {clients} channel r) =
    let (g, u) = release-same channel h in
    same_counters h (release_redis_listener channel h).0 clients g u (Run-IsCounted r)
Run-IsCounted (ends {h} {clients} channel task r) =
    let (g, u) = end-same channel task h in
    same_counters h (end_listener channel task h) clients g u (Run-IsCounted r)
Run-IsCounted (delivers {h} {clients} sends cams key ws r) =
    let (g, u) = deliver-same sends cams key ws h in
    same_counters h (deliver sends cams key ws h).0 clients g u (Run-IsCounted r)
