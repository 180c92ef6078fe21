-- ===== src/Bus/Overflow.antt =====
-- The queue of `AsyncLiveEventBus`, which has 256 places.
use mathlib.Core.List.{append_assoc, append-nil}
use traffic_lane_counter.Prelude.{
  ℕ, zero, suc, ◌+◌, ◌-◌, ◌≤◌, ◌≡◌, refl, sym, ap, ◌∙◌, inl, inr, List, [], ◌∷◌, ◌++◌, String,
  arith, leb, length, length-append, drop, Bool-cases,
}
use traffic_lane_counter.Prelude.Lists.{length-drop}
use traffic_lane_counter.Bus.{enqueue_from_thread, run_scheduled, queue_maxsize}

module _ {A : Type 0} where
  drop-append : (n : ℕ) (xs ys : List A) → n ≤ length xs → drop n (xs ++ ys) ≡ drop n xs ++ ys
  drop-append zero xs ys h = refl
  drop-append (suc n) [] ys h = absurd (omega arith)
  drop-append (suc n) (x ∷ xs) ys h = drop-append n xs ys (omega arith)

  drop-nil : (n : ℕ) → drop {A = A} n [] ≡ []
  drop-nil zero = refl
  drop-nil (suc n) = refl

  drop-drop : (n m k : ℕ) (xs : List A) → k ≡ n + m → drop n (drop m xs) ≡ drop k xs
  drop-drop n zero k xs e = let same : n ≡ k = omega arith in ap (λ j. drop j xs) same
  drop-drop n (suc m) k [] e = drop-nil n ∙ sym (drop-nil k)
  drop-drop n (suc m) zero (x ∷ xs) e = absurd (omega arith)
  drop-drop n (suc m) (suc k) (x ∷ xs) e = drop-drop n m k xs (omega arith)

-- The latest `limit` events that were put on the queue.
abbrev pub latest : {A : Type 0} → ℕ → List A → List A
latest limit xs = drop (length xs - limit) xs

module _ {E : Type 0} where
  latest_short : (xs : List (String × E)) → length xs ≤ queue_maxsize → latest queue_maxsize xs ≡ xs
  latest_short xs h =
      let none_left : length xs - queue_maxsize ≡ 0 = omega arith in ap (λ n. drop n xs) none_left

  enqueue-latest :
      (e : String × E) (queue : List (String × E))
      → length queue ≤ queue_maxsize
      → enqueue_from_thread e queue ≡ latest queue_maxsize (queue ++ e ∷ [])
  unfolding enqueue_from_thread
  enqueue-latest e queue h = elim (Bool-cases (leb queue_maxsize (length queue))) [
    | inl b ↦
        let one : 1 ≡ length (queue ++ e ∷ []) - queue_maxsize =
          ground (arith, length-append queue (e ∷ [])) in
        rw (b, enqueue_from_thread)
          (sym (drop-append 1 queue (e ∷ []) (ground arith))
            ∙ ap (λ n. drop n (queue ++ e ∷ [])) one)
    | inr b ↦
        rw (b, enqueue_from_thread)
          (sym (latest_short (queue ++ e ∷ []) (ground (arith, length-append queue (e ∷ [])))))
  ]

  latest-append :
      (xs ys : List (String × E))
      → latest queue_maxsize (latest queue_maxsize xs ++ ys) ≡ latest queue_maxsize (xs ++ ys)
  latest-append xs ys =
      let k = length xs - queue_maxsize in
      let joined = drop-append k xs ys (omega arith) in
      let n = length (drop k xs ++ ys) - queue_maxsize in
      ap (drop n) (sym joined)
      ∙ drop-drop n k (length (xs ++ ys) - queue_maxsize) (xs ++ ys)
          (omega (arith, length-append xs ys, length-append (drop k xs) ys, length-drop k xs))

  -- Whatever events the loop puts on a queue within its limit, the queue then holds the latest 256 of
  -- those that were in it and those that came, in their order.
  pub run_scheduled-latest :
      (events queue : List (String × E))
      → length queue ≤ queue_maxsize
      → run_scheduled events queue ≡ latest queue_maxsize (queue ++ events)
  unfolding run_scheduled
  run_scheduled-latest [] queue h =
      sym (append-nil queue)
      ∙ sym (latest_short (queue ++ []) (omega (arith, length-append queue [])))
  run_scheduled-latest (e ∷ events) queue h =
      let longer = queue ++ e ∷ [] in
      let now = enqueue-latest e queue h in
      rw now (
        run_scheduled-latest events (latest queue_maxsize longer)
          (omega (arith, length-drop (length longer - queue_maxsize) longer))
        ∙ latest-append longer events
        ∙ ap (latest queue_maxsize) (append_assoc queue (e ∷ []) events))
