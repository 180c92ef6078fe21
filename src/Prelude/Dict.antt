-- ===== src/Prelude/Dict.antt =====
-- Python's `dict`, in insertion order. `d[k] = v` keeps the place of a key that is there.
use mathlib.Core.Path.{◌≡◌, refl, subst}
use mathlib.Core.Bool.{Bool, true, false}
use mathlib.Core.Option.{Option, none, some}
use mathlib.Core.List.{List, [], ◌∷◌}
use native.Mathlib.Omega.{arith}
use traffic_lane_counter.Prelude.Tests.{Eq, ◌==◌, if◌then◌else◌}
use traffic_lane_counter.Prelude.Lists.{All}

abbrev pub Dict {ℓ κ} : Type ℓ → Type κ → Type (ℓ ⊔ κ)
Dict K V = List (K × V)

module _ {ℓ κ} {K : Type ℓ} {V : Type κ} ⦃e : Eq K⦄ where
  unfoldable pub lookup : K → Dict K V → Option V
  lookup k [] = none
  lookup k ((j, v) ∷ d) = if j == k then some v else lookup k d

  -- `k in d`
  abbrev pub contains : K → Dict K V → Bool
  contains k d = elim (lookup k d) [ none ↦ false | some _ ↦ true ]

  -- `d[k] = v`
  unfoldable pub insert : K → V → Dict K V → Dict K V
  insert k v [] = (k, v) ∷ []
  insert k v ((j, w) ∷ d) = if j == k then (j, v) ∷ d else (j, w) ∷ insert k v d

  -- `d.pop(k, None)`
  unfoldable pub remove : K → Dict K V → Dict K V
  remove k [] = []
  remove k ((j, w) ∷ d) = let rest = remove k d in if j == k then rest else (j, w) ∷ rest

  pub lookup-insert :
      (k j : K) (v : V) (d : Dict K V)
      → lookup j (insert k v d) ≡ (if k == j then some v else lookup j d)
  unfolding lookup insert
  lookup-insert k j v [] = ground arith
  lookup-insert k j v ((i, w) ∷ d) = ground (arith, lookup-insert k j v d)

  pub lookup-remove :
      (k j : K) (d : Dict K V) → lookup j (remove k d) ≡ (if k == j then none else lookup j d)
  unfolding lookup remove
  lookup-remove k j [] = ground arith
  lookup-remove k j ((i, w) ∷ d) = ground (arith, lookup-remove k j d)

  -- No entry has the key `k`.
  abbrev pub Absent : K → Dict K V → Type ℓ
  Absent k = All (λ x. ¬ (x.0 ≡ k))

  -- The keys are distinct, as they are in every `dict`.
  abbrev pub Distinct : Dict K V → Type ℓ
  Distinct [] = Unit
  Distinct ((k, v) ∷ d) = Absent k d × Distinct d

  Absent-insert :
      (k j : K) (v : V) (d : Dict K V) → ¬ (j ≡ k) → Absent k d → Absent k (insert j v d)
  unfolding insert
  Absent-insert k j v [] n h = (n, tt)
  Absent-insert k j v ((i, w) ∷ d) n h = ground (arith, Absent-insert k j v d n h.1)

  pub insert-Distinct : (k : K) (v : V) (d : Dict K V) → Distinct d → Distinct (insert k v d)
  unfolding insert
  insert-Distinct k v [] h = (tt, tt)
  insert-Distinct k v ((i, w) ∷ d) h =
      ground (arith, insert-Distinct k v d h.1, λ (n : ¬ (k ≡ i)). Absent-insert i k v d n h.0)

  Absent-remove : (k j : K) (d : Dict K V) → Absent k d → Absent k (remove j d)
  unfolding remove
  Absent-remove k j [] h = tt
  Absent-remove k j ((i, w) ∷ d) h = ground (arith, Absent-remove k j d h.1)

  pub remove-Distinct : (k : K) (d : Dict K V) → Distinct d → Distinct (remove k d)
  unfolding remove
  remove-Distinct k [] h = tt
  remove-Distinct k ((i, w) ∷ d) h =
      ground (arith, remove-Distinct k d h.1, Absent-remove i k d h.0)

  pub lookup-Absent : (k : K) (d : Dict K V) → Absent k d → lookup k d ≡ none
  unfolding lookup
  lookup-Absent k [] h = refl
  lookup-Absent k ((i, w) ∷ d) h = ground (arith, lookup-Absent k d h.1)

module _ {ℓ κ μ} {K : Type ℓ} {V : Type κ} ⦃e : Eq K⦄ (P : K × V → Type μ) where
  pub All-insert :
      (k : K) (v : V) (d : Dict K V) → ((j : K) → j ≡ k → P (j, v)) → All P d → All P (insert k v d)
  unfolding insert
  All-insert k v [] p h = (p k refl, tt)
  All-insert k v ((i, w) ∷ d) p h = ground (arith, p i, All-insert k v d p h.1)

  pub All-remove : (k : K) (d : Dict K V) → All P d → All P (remove k d)
  unfolding remove
  All-remove k [] h = tt
  All-remove k ((i, w) ∷ d) h = ground (arith, All-remove k d h.1)

  pub All-lookup : (k : K) (d : Dict K V) {v : V} → All P d → lookup k d ≡ some v → P (k, v)
  unfolding lookup
  All-lookup k [] h q = cc
  All-lookup k ((i, w) ∷ d) {v} h q = elim (e.dec_eq i k) [
    | yes p ↦ let w≡v : w ≡ v = ground arith in subst P (λ j. (p j, w≡v j)) h.0
    | no n ↦ All-lookup k d h.1 (ground arith)
  ]

  -- What holds of all that a lookup finds holds of all entries.
  pub lookup-All :
      (d : Dict K V) → Distinct d → ((k : K) (v : V) → lookup k d ≡ some v → P (k, v)) → All P d
  unfolding lookup
  lookup-All [] u h = tt
  lookup-All ((i, w) ∷ d) u h = (
    h i w (ground arith),
    lookup-All d u.1 (λ k v q. h k v (ground (arith, lookup-Absent i d u.0))),
  )
