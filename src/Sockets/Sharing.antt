-- ===== src/Sockets/Sharing.antt =====
-- Each operation on the listeners of Redis, packages/tf_api/api/routes_ws.py, keeps them fit.
use traffic_lane_counter.Prelude.{
  ℕ, ◌+◌, ◌-◌, ◌≡◌, refl, subst, inl, inr, Bool, true, false, Option, none, some, List, ◌∷◌, ◌++◌,
  String, ◌==◌, string_eq, nat_eq, arith, ltb, Bool-cases, Option-cases,
}
use traffic_lane_counter.Prelude.Dict.{lookup}
use traffic_lane_counter.Sockets.Fits.{
  held_count, held_count-append, Fits, IsShared, All-out, later-Fits, cancelled-Fits, new_Differs,
  All_later, insert-Fits, remove-Fits,
}
use traffic_lane_counter.Sockets.{
  Listener, Hub, ensure_redis_listener, release_redis_listener, end_listener,
}

-- A task of a channel that was cancelled, one more or the same as before
abbrev pub cancelled : String → Option ℕ → List (String × ℕ) → List (String × ℕ)
cancelled channel none gone = gone
cancelled channel (some task) gone = (channel, task) ∷ gone

abbrev pub taken : Bool → String → List String → List String
taken true channel held = channel ∷ held
taken false channel held = held

more_held :
    (tasks : ℕ) (held : List String) (gone : List (String × ℕ)) (channel j : String)
    (o : Option Listener)
    → (channel == j) ≡ false
    → Fits tasks (held_count j held) gone j o
    → Fits tasks (held_count j (channel ∷ held)) gone j o
more_held tasks held gone channel j o n h =
    let same : held_count j held ≡ held_count j (channel ∷ held) = ground (arith, n) in
    subst (λ k. Fits tasks k gone j o) same h

less_held :
    (tasks : ℕ) (xs ys : List String) (gone : List (String × ℕ)) (channel j : String)
    (o : Option Listener)
    → (channel == j) ≡ false
    → Fits tasks (held_count j (xs ++ channel ∷ ys)) gone j o
    → Fits tasks (held_count j (xs ++ ys)) gone j o
less_held tasks xs ys gone channel j o n h =
    let same : held_count j (xs ++ channel ∷ ys) ≡ held_count j (xs ++ ys) =
      ground (arith, n, held_count-append j xs (channel ∷ ys), held_count-append j xs ys) in
    subst (λ k. Fits tasks k gone j o) same h

left_held :
    (channel : String) (xs ys : List String)
    → held_count channel (xs ++ channel ∷ ys) ≡ held_count channel (xs ++ ys) + 1
left_held channel xs ys =
    ground (arith, held_count-append channel xs (channel ∷ ys), held_count-append channel xs ys)

pub take-IsShared :
    (creates : Bool) (channel : String) (h : Hub) (held : List String) (gone : List (String × ℕ))
    → IsShared h held gone
    → IsShared
        (ensure_redis_listener creates channel h).0
        (taken (ensure_redis_listener creates channel h).1 channel held)
        gone
unfolding ensure_redis_listener
take-IsShared creates channel h held gone (low, fits) =
    elim (Option-cases (lookup channel h.redis_listeners)) [
      | inr (l, e) ↦
          let (same, p, old, d) =
            subst (Fits h.tasks (held_count channel held) gone channel) e (fits channel) in
          rw (e, ensure_redis_listener)
            (
              low,
              insert-Fits h.tasks (channel ∷ held) gone channel
                  (record l { refcount = l.refcount + 1 }) h.redis_listeners
                  (ground (arith, same), omega (arith, p), old, d)
                  (λ j n. more_held h.tasks held gone channel j _ n (fits j)),
            )
      | inl e ↦
          let zero_held : held_count channel held ≡ 0 =
            subst (Fits h.tasks (held_count channel held) gone channel) e (fits channel) in
          elim (Bool-cases creates) [
            | inr f ↦ rw (e, ensure_redis_listener) (rw f (low, fits))
            | inl t ↦
                rw (e, ensure_redis_listener)
                  (rw t (
                    All_later h.tasks gone low,
                    insert-Fits (h.tasks + 1) (channel ∷ held) gone channel
                        (record { task = h.tasks; refcount = 1 }) h.redis_listeners
                        (
                          ground (arith, zero_held),
                          omega arith,
                          omega arith,
                          new_Differs channel h.tasks gone low,
                        )
                        (λ j n.
                          more_held (h.tasks + 1) held gone channel j _ n
                            (later-Fits h.tasks _ gone j _ (fits j))),
                  ))
          ]
    ]

pub give_back-IsShared :
    (xs ys : List String) (channel : String) (h : Hub) (gone : List (String × ℕ))
    → IsShared h (xs ++ channel ∷ ys) gone
    → IsShared
        (release_redis_listener channel h).0
        (xs ++ ys)
        (cancelled channel (release_redis_listener channel h).1 gone)
unfolding release_redis_listener
give_back-IsShared xs ys channel h gone (low, fits) =
    elim (Option-cases (lookup channel h.redis_listeners)) [
      | inl e ↦
          let zero_held : held_count channel (xs ++ channel ∷ ys) ≡ 0 =
            subst (Fits h.tasks _ gone channel) e (fits channel) in
          absurd (omega (arith, zero_held, left_held channel xs ys))
      | inr (l, e) ↦
          let (same, p, old, d) =
            subst (Fits h.tasks (held_count channel (xs ++ channel ∷ ys)) gone channel) e
              (fits channel) in
          elim (Bool-cases (ltb 0 (l.refcount - 1))) [
            | inl t ↦
                rw (e, release_redis_listener)
                  (rw t (
                    low,
                    insert-Fits h.tasks (xs ++ ys) gone channel
                        (record l { refcount = l.refcount - 1 }) h.redis_listeners
                        (omega (arith, same, left_held channel xs ys), ground (arith, t), old, d)
                        (λ j n. less_held h.tasks xs ys gone channel j _ n (fits j)),
                  ))
            | inr f ↦
                let last : held_count channel (xs ++ ys) ≡ 0 =
                  ground (arith, f, same, p, left_held channel xs ys) in
                rw (e, release_redis_listener)
                  (rw f (
                    (old, low),
                    remove-Fits h.tasks (xs ++ ys) ((channel, l.task) ∷ gone) channel
                        h.redis_listeners last
                        (λ j n.
                          cancelled-Fits h.tasks _ gone channel j l.task _ n
                            (less_held h.tasks xs ys gone channel j _ n (fits j))),
                  ))
          ]
    ]

-- A cancelled task that ends finds another task, or none, under its channel.
pub end_same :
    (xs ys : List (String × ℕ)) (channel : String) (task : ℕ) (h : Hub) (held : List String)
    → IsShared h held (xs ++ (channel, task) ∷ ys)
    → end_listener channel task h ≡ h
unfolding end_listener
end_same xs ys channel task h held (low, fits) =
    elim (Option-cases (lookup channel h.redis_listeners)) [
      | inl e ↦ rw (e, end_listener) refl
      | inr (l, e) ↦
          let (same, p, old, d) = subst (Fits h.tasks _ _ channel) e (fits channel) in
          let (other, rest) = All-out _ xs ys (channel, task) d in
          let differs : (l.task == task) ≡ false = ground (arith, other refl) in
          rw (e, end_listener) (rw differs refl)
    ]
