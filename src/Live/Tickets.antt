-- ===== src/Live/Tickets.antt =====
-- packages/tf_api/api/routes_live.py: the tickets with which a browser loads a stream. A ticket is a random text;
-- times are in whole ticks.
use traffic_lane_counter.Prelude.{
  ℕ, ◌+◌, ◌≡◌, refl, Bool, false, ◌&&◌, none, some, [], ◌∷◌, String, ◌==◌, string_eq, arith,
  if◌then◌else◌, ltb, leb,
}
use traffic_lane_counter.Prelude.Dict.{Dict, lookup, insert, remove, lookup-insert, lookup-remove}

-- `_stream_tickets`: the camera and the end of its time
abbrev pub Tickets : Type 0
Tickets = Dict String (String × ℕ)

abbrev pub stream_ticket_ttl : ℕ
stream_ticket_ttl = 60

-- The tickets whose time is over go.
unfoldable pub prune : ℕ → Tickets → Tickets
prune now [] = []
prune now ((t, (c, expiry)) ∷ d) =
    let rest = prune now d in if leb expiry now then rest else (t, (c, expiry)) ∷ rest

-- `create_stream_ticket`
unfoldable pub create_stream_ticket : ℕ → String → String → Tickets → Tickets
unfolding prune
create_stream_ticket now ticket camera d =
    insert ticket (camera, now + stream_ticket_ttl) (prune now d)

-- `_authorize_live_request` with a ticket: is the viewer let in?
unfoldable pub authorize_ticket : ℕ → String → String → Tickets → Bool × Tickets
authorize_ticket now ticket camera d = elim (lookup ticket d) [
  | none ↦ (false, d)
  | some (c, expires_at) ↦ (c == camera && ltb now expires_at, remove ticket d)
]

-- A new ticket lets in one viewer, of its camera, in the 60 seconds after its issue; whatever comes of it, it
-- lets in nobody a second time.
pub authorize-create :
    (t0 t1 t2 : ℕ) (ticket camera c k : String) (d : Tickets)
    → let first = authorize_ticket t1 ticket c (create_stream_ticket t0 ticket camera d) in
      (first.0 ≡ (camera == c && ltb t1 (t0 + 60)))
      × ((authorize_ticket t2 ticket k first.1).0 ≡ false)
unfolding authorize_ticket create_stream_ticket
authorize-create t0 t1 t2 ticket camera c k d =
    let issued = insert ticket (camera, t0 + stream_ticket_ttl) (prune t0 d) in
    let found : lookup ticket issued ≡ some (camera, t0 + stream_ticket_ttl) =
      ground (arith, lookup-insert ticket ticket (camera, t0 + stream_ticket_ttl) (prune t0 d)) in
    let gone : lookup ticket (remove ticket issued) ≡ none =
      ground (arith, lookup-remove ticket ticket issued) in
    rw (found, authorize_ticket) (refl, rw (gone, authorize_ticket) refl)
