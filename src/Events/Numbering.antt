-- ===== src/Events/Numbering.antt =====
-- Delivery GUIDs: each event of the log has its own.
use merger_herder_validation.World.Payloads.{Payload}
use text.Mathlib.TextLemmas.{append_cancel_left}
use merger_herder_validation.Prelude.{
  ℕ, suc, ◌%◌, ◌<◌, ◌≡◌, sym, ◌∙◌, some, List, [], ◌∷◌, ◌++◌, arith, length, ap, length-append,
  get_elem?, word64, AllFrom, AllFrom-append_one, AllFrom-get_elem?, lt_of_get_elem?, ◌+◌, String,
}
use merger_herder_validation.Text.{decimal_12-injective}
use merger_herder_validation.World.{PendingEvent, World}
use merger_herder_validation.Events.{
  increment, event_guid, append_pending_app_event, append_pending_event,
}

abbrev pub HasNumber : ℕ → PendingEvent → Type 0
HasNumber i e = e.guid ≡ event_guid (suc i % word64)

-- The counter has counted the events, and the i-th event has the GUID of i + 1.
pub record Numbered (next : ℕ) (events : List PendingEvent) : Type 0 where
  pub counter : next ≡ length events % word64
  pub guids : AllFrom HasNumber 0 events

-- The counter's next value numbers one more event.
pub Numbered-append_one :
    (next : ℕ) (events : List PendingEvent) (e : PendingEvent)
    → e.guid ≡ event_guid (increment next)
    → Numbered next events
    → Numbered (increment next) (events ++ e ∷ [])
Numbered-append_one next events e g h = record {
  counter = omega (arith, h.counter, length-append events (e ∷ []));
  guids =
      AllFrom-append_one HasNumber 0 (length events) events e (omega arith) h.guids
        (g ∙ ap event_guid (omega (arith, h.counter)));
}

pub event_guid-injective : (m n : ℕ) → event_guid m ≡ event_guid n → m ≡ n
unfolding event_guid
event_guid-injective m n e = decimal_12-injective m n (append_cancel_left "dtu-" _ _ e)

-- In a numbered log of fewer than 2 ^ 64 events, two events with one GUID are the same event.
pub guid_unique :
    (next : ℕ) (events : List PendingEvent) (i j : ℕ) (a b : PendingEvent)
    → Numbered next events
    → length events < word64
    → get_elem? events i ≡ some a
    → get_elem? events j ≡ some b
    → a.guid ≡ b.guid
    → i ≡ j
guid_unique next events i j a b h short ei ej same = omega (
  arith,
  event_guid-injective (suc (0 + i) % word64) (suc (0 + j) % word64) (
      sym (AllFrom-get_elem? HasNumber 0 events i a h.guids ei)
      ∙ same
      ∙ AllFrom-get_elem? HasNumber 0 events j b h.guids ej),
  lt_of_get_elem? events i a ei,
  lt_of_get_elem? events j b ej,
)

-- The log of a world is numbered.
abbrev pub IsNumbered : World → Type 0
IsNumbered w = Numbered w.next_event_id w.pending_events

module _ (w : World) (event action : String) (repository_id : ℕ) (payload : Payload) where
  pub append_pending_app_event-IsNumbered :
      (app_id : ℕ)
      → IsNumbered w
      → IsNumbered (append_pending_app_event w event action app_id repository_id payload)
  unfolding append_pending_app_event
  append_pending_app_event-IsNumbered app_id h =
      Numbered-append_one w.next_event_id w.pending_events _
        (λ i. event_guid (increment w.next_event_id)) h

  pub append_pending_event-IsNumbered :
      IsNumbered w → IsNumbered (append_pending_event w event action repository_id payload)
  unfolding append_pending_event
  append_pending_event-IsNumbered h = append_pending_app_event-IsNumbered _ h
