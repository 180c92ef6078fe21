-- ===== src/Alerts.antt =====
-- packages/tf_common/alert_service.py: `AlertService`. The lock makes each method one step. The new id
-- and the time are given; `C` are the callbacks and `D` the details of an alert.
pub mod Reach
use Prim.Native.String.{◌++◌ as concat}
use traffic_lane_counter.Prelude.{
  ℕ, ◌+◌, ◌-◌, Bool, true, false, ◌&&◌, not, Option, none, some, List, [], ◌∷◌, ◌++◌, map, String,
  ◌==◌, string_eq, if◌then◌else◌, ltb, length, last_items,
}
use traffic_lane_counter.Prelude.Dict.{Dict, lookup, contains, insert, remove}

pub record Alert (D : Type 0) : Type 0 where
  pub id : String
  pub severity : String
  pub title : String
  pub message : String
  pub camera_id : Option String
  pub alert_type : String
  pub dedup_key : String
  pub timestamp : ℕ
  pub resolved : Bool
  pub resolved_at : Option ℕ
  pub details : D

pub record AlertService (C D : Type 0) : Type 0 where
  pub alerts : List (Alert D)
  pub callbacks : List C
  pub suppressed : Dict String String

-- The arguments of `emit`
pub record Report (D : Type 0) : Type 0 where
  pub severity : String
  pub title : String
  pub message : String
  pub camera_id : Option String
  pub alert_type : String
  pub suppress_if_active : Bool
  pub details : D

-- `f"{alert_type}:{camera_id or 'global'}"`
unfoldable pub dedup_key_of : String → Option String → String
dedup_key_of kind camera =
    concat (concat kind ":")
      (elim camera [ none ↦ "global" | some c ↦ if c == "" then "global" else c ])

abbrev pub history_limit : ℕ
history_limit = 1000

module _ {D : Type 0} where
  unfoldable pub new_service : {C : Type 0} → AlertService C D
  new_service = record { alerts = []; callbacks = []; suppressed = [] }

  unfoldable pub register_callback : {C : Type 0} → C → AlertService C D → AlertService C D
  register_callback cb s = record s { callbacks = s.callbacks ++ cb ∷ [] }

  unfoldable pub new_alert : String → ℕ → Report D → Alert D
  new_alert id now r = record {
    id = id;
    severity = r.severity;
    title = r.title;
    message = r.message;
    camera_id = r.camera_id;
    alert_type = r.alert_type;
    dedup_key = dedup_key_of r.alert_type r.camera_id;
    timestamp = now;
    resolved = false;
    resolved_at = none;
    details = r.details;
  }

  -- `append`, and the cut to the last 1000 alerts
  unfoldable pub remember : Alert D → List (Alert D) → List (Alert D)
  remember a history =
      let longer = history ++ a ∷ [] in
      if ltb history_limit (length longer) then last_items history_limit longer else longer

  -- `emit`: the id, if the alert is not suppressed, the service, and the calls of the callbacks. What
  -- a callback raises is only logged.
  unfoldable pub emit :
      {C : Type 0}
      → String
      → ℕ
      → Report D
      → AlertService C D
      → Option String × AlertService C D × List (C × Alert D)
  unfolding new_alert remember
  emit id now r s =
      let key = dedup_key_of r.alert_type r.camera_id in
      if r.suppress_if_active && contains key s.suppressed
      then (none, s, [])
      else let a : Alert D = new_alert id now r in
        (
          some id,
          record s { alerts = remember a s.alerts; suppressed = insert key id s.suppressed },
          map (λ cb. (cb, a)) s.callbacks,
        )

  -- `a["resolved"] = True; a["resolved_at"] = now`
  unfoldable pub close : ℕ → Alert D → Alert D
  close now a = record a { resolved = true; resolved_at = some now }

  -- The loop of `resolve`: the first alert with this id
  unfoldable pub close_first : ℕ → String → List (Alert D) → List (Alert D)
  unfolding close
  close_first now id [] = []
  close_first now id (a ∷ rest) =
      if a.id == id then close now a ∷ rest else a ∷ close_first now id rest

  unfoldable pub resolve :
      {C : Type 0} → ℕ → String → Option String → AlertService C D → Bool × AlertService C D
  unfolding close_first
  resolve now kind camera s =
      let key = dedup_key_of kind camera in
      elim (lookup key s.suppressed) [
        | none ↦ (false, s)
        | some id ↦ (
          true,
          record s { alerts = close_first now id s.alerts; suppressed = remove key s.suppressed },
        )
      ]

  -- The first unresolved alert with this id
  unfoldable pub find_active : String → List (Alert D) → Option (Alert D)
  find_active id [] = none
  find_active id (a ∷ rest) = if a.id == id && not a.resolved then some a else find_active id rest

  unfoldable pub close_active : ℕ → String → List (Alert D) → List (Alert D)
  unfolding close
  close_active now id [] = []
  close_active now id (a ∷ rest) =
      if a.id == id && not a.resolved then close now a ∷ rest else a ∷ close_active now id rest

  unfoldable pub resolve_by_id :
      {C : Type 0} → ℕ → String → AlertService C D → Bool × AlertService C D
  unfolding find_active close_active
  resolve_by_id now id s = elim (find_active id s.alerts) [
    | none ↦ (false, s)
    | some a ↦ (
      true,
      record s {
        alerts = close_active now id s.alerts;
        suppressed = remove a.dedup_key s.suppressed;
      },
    )
  ]

  unfoldable pub active : List (Alert D) → List (Alert D)
  active [] = []
  active (a ∷ rest) = let more = active rest in if a.resolved then more else a ∷ more

  -- `[::-1]`
  unfoldable pub reverse : List (Alert D) → List (Alert D)
  reverse [] = []
  reverse (a ∷ rest) = reverse rest ++ a ∷ []

  unfoldable pub get_active : {C : Type 0} → AlertService C D → List (Alert D)
  unfolding active reverse
  get_active s = reverse (last_items 50 (active s.alerts))

  unfoldable pub get_active_count : {C : Type 0} → AlertService C D → ℕ
  unfolding active
  get_active_count s = length (active s.alerts)

  -- `get_history`, for a limit that is not negative
  unfoldable pub get_history : {C : Type 0} → ℕ → AlertService C D → List (Alert D)
  unfolding reverse
  get_history limit s = reverse (last_items limit s.alerts)
