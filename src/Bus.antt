-- ===== src/Bus.antt =====
-- packages/tf_common/live_bus.py: `LiveEventBus` and the queue of `AsyncLiveEventBus`. `H` are the
-- handlers and `E` the data of an event.
pub mod Handlers
pub mod Overflow
use traffic_lane_counter.Prelude.{
  ℕ, ◌+◌, Bool, true, false, ◌&&◌, not, Option, none, some, List, [], ◌∷◌, ◌++◌, map, String, ◌==◌,
  Eq, string_eq, if◌then◌else◌, ltb, leb, length, get_or, drop,
}
use traffic_lane_counter.Prelude.Dict.{Dict, lookup, insert, remove}

abbrev pub LiveEventBus : Type 0 → Type 0
LiveEventBus H = Dict String (List H)

-- One call of a handler: the handler, the camera, the data.
pub record Call (H E : Type 0) : Type 0 where
  pub handler : H
  pub camera_id : String
  pub data_of : E

-- `_subscribers.get(camera_id, [])`
unfoldable pub handlers_of : {H : Type 0} → String → LiveEventBus H → List H
handlers_of camera bus = get_or (lookup camera bus) []

-- The calls that `publish` makes, in their order. What a handler raises is only logged.
unfoldable pub publish : {H E : Type 0} → String → E → LiveEventBus H → List (Call H E)
unfolding handlers_of
publish camera event bus =
    map (λ h. record { handler = h; camera_id = camera; data_of = event }) (handlers_of camera bus)
    ++ map (λ h. record { handler = h; camera_id = camera; data_of = event }) (handlers_of "*" bus)

unfoldable pub subscribe : {H : Type 0} → String → H → LiveEventBus H → LiveEventBus H
unfolding handlers_of
subscribe camera h bus = insert camera (handlers_of camera bus ++ h ∷ []) bus

-- `handlers.remove(handler)`, if it is there: the first one
unfoldable pub remove_first : {H : Type 0} ⦃e : Eq H⦄ → H → List H → List H
remove_first h [] = []
remove_first h (x ∷ xs) = let rest = remove_first h xs in if x == h then xs else x ∷ rest

unfoldable pub unsubscribe : {H : Type 0} ⦃e : Eq H⦄ → String → H → LiveEventBus H → LiveEventBus H
unfolding handlers_of remove_first
unsubscribe camera h bus =
    let left = remove_first h (handlers_of camera bus) in
    elim left [
      | [] ↦ remove camera bus
      | ◌∷◌ x xs ↦ elim (lookup camera bus) [ none ↦ bus | some _ ↦ insert camera (x ∷ xs) bus ]
    ]

unfoldable pub clear : {H : Type 0} → LiveEventBus H → LiveEventBus H
clear bus = []

-- `AsyncLiveEventBus`; `scheduled` are the calls that `call_soon_threadsafe` has put on the loop.
pub record AsyncBus (E : Type 0) : Type 0 where
  pub queue : List (String × E)
  pub scheduled : List (String × E)
  pub camera_ids : List String
  pub subscribed : Bool

abbrev pub queue_maxsize : ℕ
queue_maxsize = 256

unfoldable pub new_async : {E : Type 0} → AsyncBus E
new_async = record { queue = []; scheduled = []; camera_ids = []; subscribed = false }

unfoldable pub is_watched : String → List String → Bool
is_watched camera [] = false
is_watched camera (c ∷ cs) = if c == camera then true else is_watched camera cs

-- `_handler`; with a closed loop the event is dropped.
unfoldable pub handle : {E : Type 0} → Bool → String → E → AsyncBus E → AsyncBus E
unfolding is_watched
handle loop_closed camera event a =
    if not (is_watched camera a.camera_ids) && ltb 0 (length a.camera_ids)
    then a
    else if loop_closed
    then a
    else record a { scheduled = a.scheduled ++ (camera, event) ∷ [] }

-- `_enqueue_from_thread`: a full queue drops its oldest event.
unfoldable pub enqueue_from_thread :
    {E : Type 0} → String × E → List (String × E) → List (String × E)
enqueue_from_thread event queue =
    if leb queue_maxsize (length queue) then drop 1 queue ++ event ∷ [] else queue ++ event ∷ []

-- The loop runs what is scheduled.
unfoldable pub run_scheduled :
    {E : Type 0} → List (String × E) → List (String × E) → List (String × E)
unfolding enqueue_from_thread
run_scheduled [] queue = queue
run_scheduled (event ∷ rest) queue = run_scheduled rest (enqueue_from_thread event queue)

unfoldable pub run_loop : {E : Type 0} → AsyncBus E → AsyncBus E
unfolding run_scheduled
run_loop a = record a { queue = run_scheduled a.scheduled a.queue; scheduled = [] }

-- `subscribe`, with the bus on which the handler `h` of this object is registered
unfoldable pub start_listening :
    {H E : Type 0}
    → H
    → Option (List String)
    → AsyncBus E × LiveEventBus H
    → AsyncBus E × LiveEventBus H
unfolding subscribe
start_listening h cameras (a, bus) =
    if a.subscribed
    then (a, bus)
    else (record a { subscribed = true; camera_ids = get_or cameras [] }, subscribe "*" h bus)

-- `unsubscribe`, and `close`
unfoldable pub stop_listening :
    {H E : Type 0} ⦃e : Eq H⦄ → H → AsyncBus E × LiveEventBus H → AsyncBus E × LiveEventBus H
unfolding unsubscribe
stop_listening h (a, bus) =
    if a.subscribed then (record a { subscribed = false }, unsubscribe "*" h bus) else (a, bus)

-- `get`: with no event before the timeout there is none.
unfoldable pub get : {E : Type 0} → AsyncBus E → Option (String × E) × AsyncBus E
get a = elim a.queue [ [] ↦ (none, a) | ◌∷◌ event rest ↦ (some event, record a { queue = rest }) ]
