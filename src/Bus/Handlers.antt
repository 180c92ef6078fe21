-- ===== src/Bus/Handlers.antt =====
-- Who is called after a handler is registered and taken off again.
use traffic_lane_counter.Prelude.{
  ◌≡◌, refl, ◌∙◌, Bool, true, false, List, [], ◌∷◌, ◌++◌, String, ◌==◌, Eq, string_eq,
  if◌then◌else◌, arith, get_or,
}
use traffic_lane_counter.Prelude.Dict.{lookup, lookup-insert, lookup-remove}
use traffic_lane_counter.Bus.{LiveEventBus, handlers_of, subscribe, unsubscribe, remove_first}

module _ {H : Type 0} ⦃eq : Eq H⦄ where
  -- The handler is registered.
  unfoldable pub has_handler : H → List H → Bool
  has_handler h [] = false
  has_handler h (x ∷ xs) = if x == h then true else has_handler h xs

  remove_first-last :
      (h : H) (hs : List H) → has_handler h hs ≡ false → remove_first h (hs ++ h ∷ []) ≡ hs
  unfolding has_handler remove_first
  remove_first-last h [] n = ground arith
  remove_first-last h (x ∷ xs) n = ground (arith, remove_first-last h xs)

  handlers_of-subscribe :
      (h : H) (camera j : String) (bus : LiveEventBus H)
      → handlers_of j (subscribe camera h bus)
        ≡ (if camera == j then handlers_of camera bus ++ h ∷ [] else handlers_of j bus)
  unfolding handlers_of subscribe
  handlers_of-subscribe h camera j bus =
      ground (arith, lookup-insert camera j (get_or (lookup camera bus) [] ++ h ∷ []) bus)

  unsubscribe_from :
      (h : H) (camera j : String) (bus : LiveEventBus H) (hs : List H)
      → remove_first h (handlers_of camera bus) ≡ hs
      → handlers_of j (unsubscribe camera h bus) ≡ (if camera == j then hs else handlers_of j bus)
  unfolding handlers_of unsubscribe remove_first
  unsubscribe_from h camera j bus [] e = ground (arith, lookup-remove camera j bus)
  unsubscribe_from h camera j bus (x ∷ xs) e = ground (arith, lookup-insert camera j (x ∷ xs) bus)

  -- After a handler is registered for a camera and taken off again, each camera has the handlers that
  -- it had before, if that handler was not yet registered for the camera.
  pub handlers_of-unsubscribe :
      (h : H) (camera j : String) (bus : LiveEventBus H)
      → has_handler h (handlers_of camera bus) ≡ false
      → handlers_of j (unsubscribe camera h (subscribe camera h bus)) ≡ handlers_of j bus
  handlers_of-unsubscribe h camera j bus n =
      let b = subscribe camera h bus in
      let off = unsubscribe_from h camera j b (remove_first h (handlers_of camera b)) refl in
      let mine = handlers_of-subscribe h camera camera bus in
      let theirs = handlers_of-subscribe h camera j bus in
      let last = remove_first-last h (handlers_of camera bus) n in
      off ∙ ground (arith, mine, theirs, last)
