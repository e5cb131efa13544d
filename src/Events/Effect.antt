-- ===== src/Events/Effect.antt =====
-- The effect of one step on the event log.
use merger_herder_validation.World.Payloads.{Payload}
use merger_herder_validation.Events.Numbering.{IsNumbered, Numbered-append_one}
use merger_herder_validation.World.{World, PendingEvent}
use merger_herder_validation.Prelude.{
  ℕ, ◌≡◌, String, get_elem?-append, get_elem?, some, ◌∷◌, [], ◌++◌, refl,
}
use merger_herder_validation.Events.{
  append_pending_event, append_pending_app_event, event_guid, increment,
}

pub data EventEffect (w w' : World) : Type 0 where
  quiet :
      w'.next_event_id ≡ w.next_event_id → w'.pending_events ≡ w.pending_events → EventEffect w w'
  logged :
      (e : PendingEvent)
      → e.guid ≡ event_guid (increment w.next_event_id)
      → w'.next_event_id ≡ increment w.next_event_id
      → w'.pending_events ≡ w.pending_events ++ e ∷ []
      → EventEffect w w'

pub append_pending_app_event-EventEffect :
    (w : World) (event action : String) (app_id repository_id : ℕ) (payload : Payload)
    → EventEffect w (append_pending_app_event w event action app_id repository_id payload)
unfolding append_pending_app_event
append_pending_app_event-EventEffect w event action app_id repository_id payload =
    logged _ refl refl refl

pub append_pending_event-EventEffect :
    (w : World) (event action : String) (repository_id : ℕ) (payload : Payload)
    → EventEffect w (append_pending_event w event action repository_id payload)
unfolding append_pending_event
append_pending_event-EventEffect w event action repository_id payload =
    append_pending_app_event-EventEffect w event action _ repository_id payload

-- Each step keeps a numbered log numbered, and an event of the log at its place.
pub EventEffect-IsNumbered : (w w' : World) → EventEffect w w' → IsNumbered w → IsNumbered w'
EventEffect-IsNumbered w w' (quiet next events) h = rw (next, events) h
EventEffect-IsNumbered w w' (logged e guid next events) h =
    rw (next, events) (Numbered-append_one w.next_event_id w.pending_events e guid h)

abbrev pub HasEvent : ℕ → PendingEvent → World → Type 0
HasEvent i e w = get_elem? w.pending_events i ≡ some e

pub EventEffect-HasEvent :
    (i : ℕ) (e : PendingEvent) (w w' : World) → EventEffect w w' → HasEvent i e w → HasEvent i e w'
EventEffect-HasEvent i e w w' (quiet next events) h = rw events h
EventEffect-HasEvent i e w w' (logged new guid next events) h =
    rw events (get_elem?-append w.pending_events (new ∷ []) i e h)
