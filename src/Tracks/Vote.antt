-- ===== src/Tracks/Vote.antt =====
-- The majority vote of `LaneStateManager.update` over the raw history.
use traffic_lane_counter.Prelude.{
  ℕ, ◌+◌, Option, none, some, List, [], ◌∷◌, String, ◌==◌, nat_eq, string_eq, if◌then◌else◌, max,
  get_or,
}
use traffic_lane_counter.Prelude.Dict.{Dict, lookup, insert}

-- `valid_counts`, the loop over the history
unfoldable pub valid_counts : List String → Dict String ℕ → Dict String ℕ
valid_counts [] counts = counts
valid_counts (x ∷ xs) counts =
    valid_counts xs
      (if x == "unknown" then counts else insert x (get_or (lookup x counts) 0 + 1) counts)

-- `max(valid_counts.values())`, 0 for no values
unfoldable pub max_count : Dict String ℕ → ℕ
max_count [] = 0
max_count ((lane, n) ∷ counts) = max n (max_count counts)

-- `modes`
unfoldable pub modes : ℕ → Dict String ℕ → List String
modes n [] = []
modes n ((lane, count) ∷ counts) =
    let rest = modes n counts in if count == n then lane ∷ rest else rest

abbrev pub only : List String → Option String
only [] = none
only (x ∷ []) = some x
only (x ∷ y ∷ xs) = none

-- The lane of the vote, if the mode is unique. (An empty `valid_counts` has no mode.)
unfoldable pub vote : List String → Option String
unfolding valid_counts max_count modes
vote history = let counts = valid_counts history [] in only (modes (max_count counts) counts)
