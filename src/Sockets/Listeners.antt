-- ===== src/Sockets/Listeners.antt =====
-- The listeners of Redis that the clients of packages/tf_api/api/routes_ws.py share.
use traffic_lane_counter.Prelude.{
  ℕ, ◌<◌, ◌≡◌, ◌≢◌, refl, sym, subst, inl, inr, Bool, none, some, List, [], ◌∷◌, ◌++◌, ◌⊎◌, String,
  string_eq, nat_eq, arith, leb, Bool-cases, Option-cases, All,
}
use traffic_lane_counter.Prelude.Dict.{lookup}
use traffic_lane_counter.Sockets.Fits.{held_count, Fits, IsShared, All-out, ended-Fits}
use traffic_lane_counter.Sockets.Sharing.{
  cancelled, taken, take-IsShared, give_back-IsShared, end_same,
}
use traffic_lane_counter.Sockets.{
  max_global_connections, Client, Listener, Hub, new_hub, register_client, unregister_client,
  ensure_redis_listener, release_redis_listener, end_listener, deliver,
}

-- The hub, the channels that clients hold, one entry for each that took it, and the cancelled tasks that have not
-- ended yet. Clients take and leave channels, cancelled tasks end, and clients come, go and get messages. A task that
-- is not cancelled loops for ever: the import of `redis.asyncio`, the one exception that leaves its loop, succeeds.
pub data Run : Hub → List String → List (String × ℕ) → Type 0 where
  starts : Run new_hub [] []
  takes :
      {h : Hub} {held : List String} {gone : List (String × ℕ)} (creates : Bool) (channel : String)
      → Run h held gone
      → Run
          (ensure_redis_listener creates channel h).0
          (taken (ensure_redis_listener creates channel h).1 channel held)
          gone
  gives_back :
      {h : Hub} {gone : List (String × ℕ)} (xs ys : List String) (channel : String)
      → Run h (xs ++ channel ∷ ys) gone
      → Run
          (release_redis_listener channel h).0
          (xs ++ ys)
          (cancelled channel (release_redis_listener channel h).1 gone)
  ends :
      {h : Hub} {held : List String} (xs ys : List (String × ℕ)) (channel : String) (task : ℕ)
      → Run h held (xs ++ (channel, task) ∷ ys)
      → Run (end_listener channel task h) held (xs ++ ys)
  registers :
      {h h' : Hub} {held : List String} {gone : List (String × ℕ)} (c : Client)
      → Run h held gone
      → register_client c h ≡ some h'
      → Run h' held gone
  unregisters :
      {h : Hub} {held : List String} {gone : List (String × ℕ)} (c : Client)
      → Run h held gone
      → Run (unregister_client c h) held gone
  delivers :
      {h : Hub} {held : List String} {gone : List (String × ℕ)} (sends : Bool) (cams : List String)
      (key : String) (ws : ℕ)
      → Run h held gone
      → Run (deliver sends cams key ws h).0 held gone

same_listeners :
    (h h' : Hub) (held : List String) (gone : List (String × ℕ))
    → h'.redis_listeners ≡ h.redis_listeners
    → h'.tasks ≡ h.tasks
    → IsShared h held gone
    → IsShared h' held gone
same_listeners h h' held gone l t (low, fits) = (
  subst (λ n. All (λ x. x.1 < n) gone) (sym t) low,
  λ j.
      subst (λ n. Fits n (held_count j held) gone j (lookup j h'.redis_listeners)) (sym t)
        (subst (λ d. Fits h.tasks (held_count j held) gone j (lookup j d)) (sym l) (fits j)),
)

register_client-same :
    (c : Client) (h h' : Hub)
    → register_client c h ≡ some h'
    → (h'.redis_listeners ≡ h.redis_listeners) × (h'.tasks ≡ h.tasks)
unfolding register_client
register_client-same c h h' r = elim (Bool-cases (leb max_global_connections h.global_count)) [
  | inl t ↦ absurd (cc (rw (t, register_client) at r))
  | inr t ↦ ground (arith, t, r)
]

deliver-same :
    (sends : Bool) (cams : List String) (key : String) (ws : ℕ) (h : Hub)
    → ((deliver sends cams key ws h).0.redis_listeners ≡ h.redis_listeners)
      × ((deliver sends cams key ws h).0.tasks ≡ h.tasks)
unfolding deliver
deliver-same sends cams key ws h = ground arith

Run-IsShared :
    {h : Hub} {held : List String} {gone : List (String × ℕ)}
    → Run h held gone
    → IsShared h held gone
unfolding unregister_client lookup
Run-IsShared starts = (tt, λ j. refl)
Run-IsShared (takes {h} {held} {gone} creates channel r) =
    take-IsShared creates channel h held gone (Run-IsShared r)
Run-IsShared (gives_back {h} {gone} xs ys channel r) =
    give_back-IsShared xs ys channel h gone (Run-IsShared r)
Run-IsShared (ends {h} {held} xs ys channel task r) =
    let (low, fits) = Run-IsShared r in
    subst (λ g. IsShared g held (xs ++ ys)) (sym (end_same xs ys channel task h held (low, fits)))
      (
        (All-out _ xs ys (channel, task) low).1,
        λ j. ended-Fits h.tasks _ xs ys (channel, task) j _ (fits j),
      )
Run-IsShared (registers {h} {h'} {held} {gone} c r e) =
    let (l, t) = register_client-same c h h' e in same_listeners h h' held gone l t (Run-IsShared r)
Run-IsShared (unregisters {h} {held} {gone} c r) =
    same_listeners h (unregister_client c h) held gone refl refl (Run-IsShared r)
Run-IsShared (delivers {h} {held} {gone} sends cams key ws r) =
    let (l, t) = deliver-same sends cams key ws h in
    same_listeners h (deliver sends cams key ws h).0 held gone l t (Run-IsShared r)

-- Where `redis.asyncio` can be imported, the listener of a channel is there exactly while some client holds the channel: its count is positive and is the
-- number of the holds, and its task is none of the cancelled tasks that have not ended; without a hold there is no
-- listener.
pub Run-IsListening :
    {h : Hub} {held : List String} {gone : List (String × ℕ)}
    → Run h held gone
    → (channel : String)
    → ((lookup channel h.redis_listeners ≡ none) × (held_count channel held ≡ 0))
      ⊎ ((l : Listener) × (lookup channel h.redis_listeners ≡ some l)
          × (l.refcount ≡ held_count channel held)
          × 0 < l.refcount
          × All (λ x. x.0 ≡ channel → x.1 ≢ l.task) gone)
Run-IsListening {h} {held} {gone} r channel =
    let (low, fits) = Run-IsShared r in
    elim (Option-cases (lookup channel h.redis_listeners)) [
      | inl e ↦
          inl (e, subst (Fits h.tasks (held_count channel held) gone channel) e (fits channel))
      | inr (l, e) ↦
          let (same, p, old, d) =
            subst (Fits h.tasks (held_count channel held) gone channel) e (fits channel) in
          inr (l, e, same, p, d)
    ]
