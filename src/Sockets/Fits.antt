-- ===== src/Sockets/Fits.antt =====
-- When a listener of Redis, packages/tf_api/api/routes_ws.py, fits the clients that hold its channel and the tasks that
-- were cancelled.
use traffic_lane_counter.Prelude.{
  ℕ, ◌+◌, ◌<◌, ◌≡◌, ◌≢◌, sym, subst, inl, inr, false, Option, none, some, List, [], ◌∷◌, ◌++◌,
  String, ◌==◌, string_eq, nat_eq, arith, if◌then◌else◌, Bool-cases, All,
}
use traffic_lane_counter.Prelude.Dict.{Dict, lookup, insert, remove, lookup-insert, lookup-remove}
use traffic_lane_counter.Sockets.{Listener, Hub}

abbrev pub held_count : String → List String → ℕ
held_count channel [] = 0
held_count channel (x ∷ xs) =
    let rest = held_count channel xs in if x == channel then rest + 1 else rest

pub held_count-append :
    (channel : String) (xs ys : List String)
    → held_count channel (xs ++ ys) ≡ held_count channel xs + held_count channel ys
held_count-append channel [] ys = omega arith
held_count-append channel (x ∷ xs) ys = ground (arith, held_count-append channel xs ys)

-- No cancelled task of the channel is this one.
abbrev pub Differs : String → ℕ → List (String × ℕ) → Type 0
Differs channel task gone = All (λ x. x.0 ≡ channel → x.1 ≢ task) gone

abbrev pub Fits : ℕ → ℕ → List (String × ℕ) → String → Option Listener → Type 0
Fits tasks held gone channel none = held ≡ 0
Fits tasks held gone channel (some l) =
    (l.refcount ≡ held) × 0 < l.refcount × l.task < tasks × Differs channel l.task gone

abbrev pub IsShared : Hub → List String → List (String × ℕ) → Type 0
IsShared h held gone =
    All (λ x. x.1 < h.tasks) gone
    × ((channel : String)
        → Fits h.tasks (held_count channel held) gone channel (lookup channel h.redis_listeners))

pub All-out :
    (P : String × ℕ → Type 0) (xs ys : List (String × ℕ)) (x : String × ℕ)
    → All P (xs ++ x ∷ ys)
    → P x × All P (xs ++ ys)
All-out P [] ys x (p, h) = (p, h)
All-out P (y ∷ xs) ys x (q, h) = let (p, rest) = All-out P xs ys x h in (p, (q, rest))

pub new_Differs :
    (channel : String) (tasks : ℕ) (gone : List (String × ℕ))
    → All (λ x. x.1 < tasks) gone
    → Differs channel tasks gone
new_Differs channel tasks [] h = tt
new_Differs channel tasks (x ∷ gone) (p, h) =
    (λ _. ground (arith, p), new_Differs channel tasks gone h)

pub All_later :
    (tasks : ℕ) (gone : List (String × ℕ))
    → All (λ x. x.1 < tasks) gone
    → All (λ x. x.1 < tasks + 1) gone
All_later tasks [] h = tt
All_later tasks (x ∷ gone) (p, h) = (omega (arith, p), All_later tasks gone h)

pub later-Fits :
    (tasks n : ℕ) (gone : List (String × ℕ)) (channel : String) (o : Option Listener)
    → Fits tasks n gone channel o
    → Fits (tasks + 1) n gone channel o
later-Fits tasks n gone channel none h = h
later-Fits tasks n gone channel (some l) (same, p, low, d) = (same, p, omega (arith, low), d)

pub cancelled-Fits :
    (tasks n : ℕ) (gone : List (String × ℕ)) (channel j : String) (task : ℕ) (o : Option Listener)
    → (channel == j) ≡ false
    → Fits tasks n gone j o
    → Fits tasks n ((channel, task) ∷ gone) j o
cancelled-Fits tasks n gone channel j task none no_match h = h
cancelled-Fits tasks n gone channel j task (some l) no_match (same, p, low, d) =
    (same, p, low, (λ e. ground (arith, e, no_match), d))

pub ended-Fits :
    (tasks n : ℕ) (xs ys : List (String × ℕ)) (x : String × ℕ) (channel : String)
    (o : Option Listener)
    → Fits tasks n (xs ++ x ∷ ys) channel o
    → Fits tasks n (xs ++ ys) channel o
ended-Fits tasks n xs ys x channel none h = h
ended-Fits tasks n xs ys x channel (some l) (same, p, low, d) =
    (same, p, low, (All-out _ xs ys x d).1)

by_channel :
    (P : String → Type 0) (channel j : String) → P channel → ((channel == j) ≡ false → P j) → P j
by_channel P channel j here there = elim (Bool-cases (channel == j)) [
  | inl t ↦ let same : channel ≡ j = ground (arith, t) in subst P same here
  | inr n ↦ there n
]

module _ (tasks : ℕ) (held : List String) (gone : List (String × ℕ)) where
  abbrev FitsAt : Dict String Listener → String → Type 0
  FitsAt listeners j = Fits tasks (held_count j held) gone j (lookup j listeners)

  pub insert-Fits :
      (channel : String) (l : Listener) (listeners : Dict String Listener)
      → Fits tasks (held_count channel held) gone channel (some l)
      → ((j : String) → (channel == j) ≡ false → FitsAt listeners j)
      → (j : String) → FitsAt (insert channel l listeners) j
  insert-Fits channel l listeners here there j =
      by_channel (FitsAt (insert channel l listeners)) channel j
        (let found : lookup channel (insert channel l listeners) ≡ some l =
            ground (arith, lookup-insert channel channel l listeners) in
          subst (Fits tasks (held_count channel held) gone channel) (sym found) here)
        (λ n.
          let found : lookup j (insert channel l listeners) ≡ lookup j listeners =
            ground (arith, n, lookup-insert channel j l listeners) in
          subst (Fits tasks (held_count j held) gone j) (sym found) (there j n))

  pub remove-Fits :
      (channel : String) (listeners : Dict String Listener)
      → held_count channel held ≡ 0
      → ((j : String) → (channel == j) ≡ false → FitsAt listeners j)
      → (j : String) → FitsAt (remove channel listeners) j
  remove-Fits channel listeners here there j =
      by_channel (FitsAt (remove channel listeners)) channel j
        (let found : lookup channel (remove channel listeners) ≡ none =
            ground (arith, lookup-remove channel channel listeners) in
          subst (Fits tasks (held_count channel held) gone channel) (sym found) here)
        (λ n.
          let found : lookup j (remove channel listeners) ≡ lookup j listeners =
            ground (arith, n, lookup-remove channel j listeners) in
          subst (Fits tasks (held_count j held) gone j) (sym found) (there j n))
