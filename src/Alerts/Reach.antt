-- ===== src/Alerts/Reach.antt =====
-- What holds of the alert service after any of its methods, in any order.
use traffic_lane_counter.Prelude.{
  ℕ, ◌-◌, ◌≤◌, ◌≡◌, ◌≢◌, ◌⊎◌, refl, sym, ◌∙◌, inl, inr, false, ◌&&◌, Option, some, List, [], ◌∷◌,
  ◌++◌, String, string_eq, str_dec, arith, length, length-append, All, Option-cases, Bool-cases,
}
use traffic_lane_counter.Prelude.Lists.{All-append, All-drop, All-mono, length-last_items-le}
use traffic_lane_counter.Prelude.Dict.{lookup, contains, insert, lookup-insert, lookup-remove}
use traffic_lane_counter.Alerts.{
  Alert, AlertService, Report, dedup_key_of, history_limit, register_callback, new_alert, remember,
  emit, close, close_first, resolve, find_active, close_active, resolve_by_id,
}

module _ {D : Type 0} where
  -- The alert is of another id, or it has this key and is not resolved.
  abbrev pub Answers : String → String → Alert D → Type 0
  Answers key id a = (a.id ≢ id) ⊎ ((a.dedup_key ≡ key) × (a.resolved ≡ false))

  length-remember :
      (a : Alert D) (h : List (Alert D))
      → length h ≤ history_limit
      → length (remember a h) ≤ history_limit
  unfolding remember
  length-remember a h l =
      ground (arith, length-append h (a ∷ []), length-last_items-le 999 (h ++ a ∷ []))

  length-close_first :
      (now : ℕ) (id : String) (h : List (Alert D)) → length (close_first now id h) ≡ length h
  unfolding close_first
  length-close_first now id [] = refl
  length-close_first now id (a ∷ h) = ground (arith, length-close_first now id h)

  length-close_active :
      (now : ℕ) (id : String) (h : List (Alert D)) → length (close_active now id h) ≡ length h
  unfolding close_active
  length-close_active now id [] = refl
  length-close_active now id (a ∷ h) = ground (arith, length-close_active now id h)

  All-remember :
      (P : Alert D → Type 0) (a : Alert D) (h : List (Alert D))
      → All P h
      → P a
      → All P (remember a h)
  unfolding remember
  All-remember P a h x y =
      let all = All-append P h (a ∷ []) x (y, tt) in
      ground (arith, all, All-drop P (length (h ++ a ∷ []) - 1000) (h ++ a ∷ []) all)

  -- Closing an alert with this id leaves the answers under another key as they are.
  All-close_first :
      (now : ℕ) (key k id i : String) (h : List (Alert D))
      → key ≢ k
      → All (Answers key id) h
      → All (Answers k i) h
      → All (Answers k i) (close_first now id h)
  unfolding close_first close
  All-close_first now key k id i [] n x y = tt
  All-close_first now key k id i (a ∷ h) n x y =
      ground (arith, All-close_first now key k id i h n x.1 y.1)

  All-close_active :
      (now : ℕ) (id k i : String) (h : List (Alert D)) (a : Alert D)
      → find_active id h ≡ some a
      → a.dedup_key ≢ k
      → All (Answers k i) h
      → All (Answers k i) (close_active now id h)
  unfolding close_active close find_active
  All-close_active now id k i [] a f n y = tt
  All-close_active now id k i (x ∷ h) a f n y =
      ground (arith, λ (e : find_active id h ≡ some a). All-close_active now id k i h a e n y.1)

module _ {C D : Type 0} where
  -- One call of a method. A new id is the id of no alert in the history, and active under no key.
  pub data Step : AlertService C D → AlertService C D → Type 0 where
    registers : (cb : C) (s : AlertService C D) → Step s (register_callback cb s)
    emits :
        (id : String) (now : ℕ) (r : Report D) (s : AlertService C D)
        → All (λ a. a.id ≢ id) s.alerts
        → ((k : String) → lookup k s.suppressed ≢ some id)
        → Step s (emit id now r s).1
    resolves :
        (now : ℕ) (kind : String) (camera : Option String) (s : AlertService C D)
        → Step s (resolve now kind camera s).1
    resolves_by_id :
        (now : ℕ) (id : String) (s : AlertService C D) → Step s (resolve_by_id now id s).1

  pub data Reach (first : AlertService C D) : AlertService C D → Type 0 where
    here : Reach first first
    next : {s t : AlertService C D} → Reach first s → Step s t → Reach first t

  -- The alert that suppresses a key is, if the history still has it, of that key and unresolved; and
  -- the history is within its limit.
  pub record IsConsistent (s : AlertService C D) : Type 0 where
    pub answers :
        (key id : String) → lookup key s.suppressed ≡ some id → All (Answers key id) s.alerts
    pub limit : length s.alerts ≤ history_limit

  emitted-Answers :
      (id : String) (now : ℕ) (r : Report D) (s : AlertService C D)
      → All (λ a. a.id ≢ id) s.alerts
      → ((k : String) → lookup k s.suppressed ≢ some id)
      → IsConsistent s
      → (k i : String)
      → lookup k (insert (dedup_key_of r.alert_type r.camera_id) id s.suppressed) ≡ some i
      → All (Answers k i) (remember (new_alert id now r) s.alerts)
  unfolding new_alert
  emitted-Answers id now r s fresh unused h k i e =
      let key = dedup_key_of r.alert_type r.camera_id in
      let l = lookup-insert key k id s.suppressed in
      elim (str_dec key k) [
        | yes p ↦
            let same : id ≡ i = ground arith in
            All-remember (Answers k i) (new_alert id now r) s.alerts
              (All-mono (Answers k i) (λ a n. inl (λ q. n (q ∙ sym same))) s.alerts fresh)
              (inr (p, refl))
        | no n ↦
            let old : lookup k s.suppressed ≡ some i = ground arith in
            All-remember (Answers k i) (new_alert id now r) s.alerts (h.answers k i old)
              (inl (λ q. unused k (cc (old, q))))
      ]

  emit-IsConsistent :
      (id : String) (now : ℕ) (r : Report D) (s : AlertService C D)
      → All (λ a. a.id ≢ id) s.alerts
      → ((k : String) → lookup k s.suppressed ≢ some id)
      → IsConsistent s
      → IsConsistent (emit id now r s).1
  unfolding emit
  emit-IsConsistent id now r s fresh unused h = record {
    answers = λ k i e.
        elim (Bool-cases
          (r.suppress_if_active && contains (dedup_key_of r.alert_type r.camera_id) s.suppressed)) [
            | inl b ↦ rw (b, emit) (h.answers k i (ground arith))
            | inr b ↦ rw (b, emit) (emitted-Answers id now r s fresh unused h k i (ground arith))
          ];
    limit = ground (arith, h.limit, length-remember (new_alert id now r) s.alerts h.limit);
  }

  resolve-IsConsistent :
      (now : ℕ) (kind : String) (camera : Option String) (s : AlertService C D)
      → IsConsistent s
      → IsConsistent (resolve now kind camera s).1
  unfolding resolve
  resolve-IsConsistent now kind camera s h =
      elim (Option-cases (lookup (dedup_key_of kind camera) s.suppressed)) [
        | inl e ↦ rw (e, resolve) h
        | inr (id, e) ↦
            rw (e, resolve)
              (record {
                answers = λ k i q.
                    let key = dedup_key_of kind camera in
                    let l = lookup-remove key k s.suppressed in
                    elim (str_dec key k) [
                      | yes p ↦ absurd (ground arith)
                      | no n ↦
                          All-close_first now key k id i s.alerts n (h.answers key id e)
                            (h.answers k i (ground arith))
                    ];
                limit = ground (arith, h.limit, length-close_first now id s.alerts);
              })
      ]

  resolve_by_id-IsConsistent :
      (now : ℕ) (id : String) (s : AlertService C D)
      → IsConsistent s
      → IsConsistent (resolve_by_id now id s).1
  unfolding resolve_by_id
  resolve_by_id-IsConsistent now id s h = elim (Option-cases (find_active id s.alerts)) [
    | inl e ↦ rw (e, resolve_by_id) h
    | inr (a, e) ↦
        rw (e, resolve_by_id)
          (record {
            answers = λ k i q.
                let l = lookup-remove a.dedup_key k s.suppressed in
                elim (str_dec a.dedup_key k) [
                  | yes p ↦ absurd (ground arith)
                  | no n ↦ All-close_active now id k i s.alerts a e n (h.answers k i (ground arith))
                ];
            limit = ground (arith, h.limit, length-close_active now id s.alerts);
          })
  ]

  Step-IsConsistent : {s t : AlertService C D} → Step s t → IsConsistent s → IsConsistent t
  Step-IsConsistent (registers cb s) h =
      unfold register_callback in record { answers = λ k i e. h.answers k i e; limit = h.limit }
  Step-IsConsistent (emits id now r s fresh unused) h = emit-IsConsistent id now r s fresh unused h
  Step-IsConsistent (resolves now kind camera s) h = resolve-IsConsistent now kind camera s h
  Step-IsConsistent (resolves_by_id now id s) h = resolve_by_id-IsConsistent now id s h

  -- Whatever is emitted and resolved, in any order: the alert that suppresses a key is, if the history
  -- still has it, of that key and unresolved, and the history has at most 1000 alerts. New ids are new.
  pub Reach-IsConsistent :
      {first s : AlertService C D} → IsConsistent first → Reach first s → IsConsistent s
  Reach-IsConsistent h here = h
  Reach-IsConsistent h (next r s) = Step-IsConsistent s (Reach-IsConsistent h r)
