-- ===== src/Tracks/Majority.antt =====
-- The vote of `LaneStateManager.update` against its definition by counting: check 2 of the
-- smoothing, lines 110 to 121 of lane_state_manager.py.
use traffic_lane_counter.Prelude.{
  ℕ, ◌+◌, ◌≤◌, ◌<◌, ◌≡◌, refl, ◌≢◌, ◌↔◌, ◌&&◌, not, some, List, [], ◌∷◌, String, ◌==◌, string_eq,
  str_dec, if◌then◌else◌, get_or, arith, All,
}
use traffic_lane_counter.Prelude.Dict.{
  Dict, lookup, insert, lookup-insert, Absent, Distinct, insert-Distinct, All-insert,
}
use native.Mathlib.Decide.{dec_le}
use traffic_lane_counter.Tracks.Vote.{valid_counts, max_count, modes, only, vote}

-- How often a lane stands in the history; `unknown` gets no votes.
unfoldable pub votes : String → List String → ℕ
votes x [] = 0
votes x (y ∷ ys) = if y == x && not (y == "unknown") then votes x ys + 1 else votes x ys

-- The lane has more votes than any other one.
abbrev pub IsPlurality : String → List String → Type 0
IsPlurality l h = (0 < votes l h) × ((x : String) → x ≢ l → votes x h < votes l h)

-- The count of a lane in a dictionary, 0 if it is not there.
count_in : String → Dict String ℕ → ℕ
count_in x d = get_or (lookup x d) 0

abbrev Positive : Dict String ℕ → Type 0
Positive = All (λ e. 0 < e.1)

count_in-valid_counts :
    (x : String) (h : List String) (d : Dict String ℕ)
    → count_in x (valid_counts h d) ≡ count_in x d + votes x h
unfolding count_in valid_counts votes
count_in-valid_counts x [] d = omega arith
count_in-valid_counts x (y ∷ ys) d = ground (
  arith,
  lookup-insert y x (get_or (lookup y d) 0 + 1) d,
  count_in-valid_counts x ys (if y == "unknown" then d else insert y (get_or (lookup y d) 0 + 1) d),
)

valid_counts-Distinct :
    (h : List String) (d : Dict String ℕ) → Distinct d → Distinct (valid_counts h d)
unfolding valid_counts
valid_counts-Distinct [] d u = u
valid_counts-Distinct (y ∷ ys) d u =
    valid_counts-Distinct ys _ (ground (arith, insert-Distinct y (get_or (lookup y d) 0 + 1) d u))

valid_counts-Positive :
    (h : List String) (d : Dict String ℕ) → Positive d → Positive (valid_counts h d)
unfolding valid_counts
valid_counts-Positive [] d p = p
valid_counts-Positive (y ∷ ys) d p = valid_counts-Positive ys _ (
    ground
      (arith, All-insert (λ e. 0 < e.1) y (get_or (lookup y d) 0 + 1) d (λ j e. omega arith) p))

count_in-Absent : (x : String) (d : Dict String ℕ) → Absent x d → count_in x d ≡ 0
unfolding count_in lookup
count_in-Absent x [] a = refl
count_in-Absent x ((k, c) ∷ d) a = ground (arith, count_in-Absent x d a.1)

count_in-nil : (x : String) → count_in x [] ≡ 0
unfolding count_in lookup
count_in-nil x = refl

no_modes : (n : ℕ) (d : Dict String ℕ) → 0 < n → modes n d ≡ [] → (x : String) → count_in x d ≢ n
unfolding count_in lookup modes
no_modes n [] p e x = omega arith
no_modes n ((k, c) ∷ d) p e x = ground (arith, λ (h : modes n d ≡ []). no_modes n d p h x)

modes_only :
    (n : ℕ) (l : String) (d : Dict String ℕ)
    → 0 < n
    → Distinct d
    → modes n d ≡ l ∷ []
    → (count_in l d ≡ n) × ((x : String) → x ≢ l → count_in x d ≢ n)
unfolding count_in lookup modes
modes_only n l [] p u e = cc
modes_only n l ((k, c) ∷ d) p u e = (
  ground (arith, λ (h : modes n d ≡ l ∷ []). (modes_only n l d p u.1 h).0, count_in-Absent k d u.0),
  λ x ne. ground (
    arith,
    λ (h : modes n d ≡ l ∷ []). (modes_only n l d p u.1 h).1 x ne,
    λ (h : modes n d ≡ []). no_modes n d p h x,
  ),
)

all_modes_ne :
    (n : ℕ) (d : Dict String ℕ)
    → Distinct d
    → 0 < n
    → ((x : String) → count_in x d ≢ n)
    → modes n d ≡ []
unfolding count_in lookup modes
all_modes_ne n [] u p h = refl
all_modes_ne n ((k, c) ∷ d) u p h =
    ground (arith, h k, all_modes_ne n d u.1 p (λ x. ground (arith, h x, count_in-Absent k d u.0)))

only_modes :
    (n : ℕ) (l : String) (d : Dict String ℕ)
    → 0 < n
    → Distinct d
    → count_in l d ≡ n
    → ((x : String) → x ≢ l → count_in x d ≢ n)
    → modes n d ≡ l ∷ []
unfolding count_in lookup modes
only_modes n l [] p u e h = absurd (omega arith)
only_modes n l ((k, c) ∷ d) p u e h = ground (
  arith,
  h k,
  λ (q : k ≡ l). all_modes_ne n d u.1 p (λ x. ground (arith, h x, count_in-Absent k d u.0)),
  λ (a : count_in l d ≡ n).
      only_modes n l d p u.1 a (λ x ne. ground (arith, h x ne, count_in-Absent k d u.0)),
)

count_in-le-max_count : (x : String) (d : Dict String ℕ) → count_in x d ≤ max_count d
unfolding count_in lookup max_count
count_in-le-max_count x [] = omega arith
count_in-le-max_count x ((k, c) ∷ d) = ground (arith, count_in-le-max_count x d)

-- Some lane has the largest count.
max_count_attained :
    (d : Dict String ℕ) → Distinct d → 0 < max_count d → (x : String) × (count_in x d ≡ max_count d)
unfolding count_in lookup max_count
max_count_attained [] u p = absurd (omega arith)
max_count_attained ((k, c) ∷ d) u p = elim (dec_le (max_count d) c) [
  | yes h ↦ (k, ground arith)
  | no h ↦
      let (x, q) = max_count_attained d u.1 (omega arith) in
      (x, ground (arith, q, count_in-Absent k d u.0))
]

modes-Positive : (n : ℕ) (l : String) (d : Dict String ℕ) → Positive d → modes n d ≡ l ∷ [] → 0 < n
unfolding modes
modes-Positive n l [] p e = cc
modes-Positive n l ((k, c) ∷ d) p e =
    ground (arith, λ (h : modes n d ≡ l ∷ []). modes-Positive n l d p.1 h)

module _ (h : List String) where
  counts : Dict String ℕ
  counts = valid_counts h []

  counts-Distinct : Distinct counts
  unfolding counts
  counts-Distinct = valid_counts-Distinct h [] tt

  count_in-counts : (x : String) → count_in x counts ≡ votes x h
  unfolding counts
  count_in-counts x = omega (arith, count_in-valid_counts x h [], count_in-nil x)

  only-some : (xs : List String) {l : String} → only xs ≡ some l → xs ≡ l ∷ []
  only-some [] e = cc
  only-some (x ∷ []) e = cc
  only-some (x ∷ y ∷ xs) e = cc

  vote_found : (l : String) → vote h ≡ some l → IsPlurality l h
  unfolding vote counts
  vote_found l e =
      let m = only-some (modes (max_count counts) counts) e in
      let pos = modes-Positive (max_count counts) l counts (valid_counts-Positive h [] tt) m in
      let r = modes_only (max_count counts) l counts pos counts-Distinct m in
      (
        omega (arith, count_in-counts l),
        λ x ne.
            omega (
              arith,
              r.1 x ne,
              count_in-le-max_count x counts,
              count_in-counts x,
              count_in-counts l,
            ),
      )

  max_count-plurality : (l : String) → IsPlurality l h → count_in l counts ≡ max_count counts
  max_count-plurality l p =
      let (x, q) =
        max_count_attained counts counts-Distinct
          (omega (arith, count_in-le-max_count l counts, count_in-counts l)) in
      elim (str_dec x l) [
        | yes e ↦ rw (← e) q
        | no n ↦ absurd (
            omega (
              arith,
              p.1 x n,
              count_in-counts x,
              count_in-counts l,
              count_in-le-max_count l counts,
            ))
      ]

  vote_finds : (l : String) → IsPlurality l h → vote h ≡ some l
  unfolding vote counts
  vote_finds l p = rw (
      only_modes (max_count counts) l counts
        (omega (arith, count_in-counts l, max_count-plurality l p)) counts-Distinct
        (max_count-plurality l p)
        (λ x ne.
          omega (arith, p.1 x ne, count_in-counts x, count_in-counts l, max_count-plurality l p)))

-- The vote names a lane exactly when that lane has votes and more of them than any other lane.
pub vote-eq-some_iff : (h : List String) (l : String) → (vote h ≡ some l) ↔ IsPlurality l h
vote-eq-some_iff h l = (vote_found h l, vote_finds h l)
