-- ===== src/Delivery.antt =====
-- Webhook deliveries: deliverEvent, duplicateEvent, findPendingEvent and webhookSignature of
-- dtu/delivery.go. deliverEvent reads the world, sends with no lock held, and then writes the
-- attempt to the world of that later moment: two steps.
pub mod Outcomes
use merger_herder_validation.Prelude.{
  ℕ, Bool, not, ◌||◌, Option, none, some, List, [], ◌∷◌, ◌++◌, String, ◌==◌, string_key, nat_key,
  if◌then◌else◌, get_or, leb, ltb, if_some,
}
use merger_herder_validation.Text.{◌+++◌}
use merger_herder_validation.Dict.{get}
use merger_herder_validation.World.Payloads.{Payload}
use merger_herder_validation.World.{World, PendingEvent, DeliveryAttempt, zero_app}
use merger_herder_validation.World.Inputs.{DeliveryInput, DuplicateEventInput}
use merger_herder_validation.Reply.{
  Reply, attempt, event, message, write_json, refuse, stay, Decoded, decode_control,
}
use merger_herder_validation.Events.{increment, event_guid}

-- The request that deliverEvent sends, with the headers that it sets.
pub record Outbound : Type 0 where
  pub url : String
  pub body : String
  pub content_type : String
  pub delivery : String
  pub event : String
  pub signature : String

-- What http.Client.Do gives: a response's status code, or an error.
pub data Sent : Type 0 where
  responded : ℕ → Sent
  undelivered : String → Sent

-- encoding/json, crypto/hmac with crypto/sha256 and encoding/hex, and net/http.
pub record Network : Type 0 where
  pub marshal : Payload → String
  pub hmac_hex : String → String → String
  pub valid_url : String → Bool
  pub send : Outbound → Sent

-- The loop of findPendingEvent.
unfoldable pub find_guid : String → List PendingEvent → Option PendingEvent
find_guid guid [] = none
find_guid guid (e ∷ es) = if e.guid == guid then some e else find_guid guid es

unfoldable pub find_pending_event : World → String → Option PendingEvent
unfolding find_guid
find_pending_event w guid = find_guid guid w.pending_events

unfoldable pub webhook_signature : Network → String → String → String
webhook_signature n secret body = "sha256=" +++ n.hmac_hex secret body

-- if input.InvalidSignature { secret += "-invalid" }
abbrev pub signing_secret : String → Bool → String
signing_secret secret invalid = if invalid then secret +++ "-invalid" else secret

abbrev outbound : Network → PendingEvent → String → String → Outbound
outbound n e url secret =
    let body = n.marshal e.body in
    record {
      url = url;
      body = body;
      content_type = "application/json";
      delivery = e.guid;
      event = e.event;
      signature = webhook_signature n secret body;
    }

-- The attempt that the code records, from the result of the request.
abbrev pub attempt_of : String → String → Bool → ℕ → Sent → DeliveryAttempt
attempt_of guid url invalid now (responded code) = record {
  guid = guid;
  destination = url;
  status_code = code;
  invalid_signature = invalid;
  attempted_at = now;
  error = "";
}
attempt_of guid url invalid now (undelivered error) = record {
  guid = guid;
  destination = url;
  status_code = 0;
  invalid_signature = invalid;
  attempted_at = now;
  error = error;
}

-- The first step ends the request, or has sent the event.
pub data Delivery : Type 0 where
  ended : Reply → Delivery
  sent : Outbound → DeliveryAttempt → Sent → Delivery

-- deliverEvent up to the request's end.
unfoldable pub send_event : Network → World → Decoded DeliveryInput → Delivery
unfolding find_pending_event webhook_signature
send_event n w body = decode_control ended body λ input.
    if_some (find_pending_event w input.guid) (ended (write_json 404 (message "unknown event")))
      λ e.
        let app = get_or (get w.apps e.app_id) zero_app in
        let request =
          outbound n e app.webhook_url
            (signing_secret app.webhook_secret input.invalid_signature) in
        let result = n.send request in
        if app.webhook_url == "" || app.webhook_secret == ""
        then ended (write_json 409 (message "webhook destination is not configured"))
        else if not (n.valid_url app.webhook_url)
        then ended (write_json 400 (message "invalid webhook destination"))
        else sent request (attempt_of e.guid app.webhook_url input.invalid_signature w.now result)
            result

-- The reply once the attempt is written.
unfoldable pub delivery_reply : DeliveryAttempt → Sent → Reply
delivery_reply a (undelivered error) = write_json 502 (message "webhook delivery failed")
delivery_reply a (responded code) =
    if ltb code 200 || leb 300 code
    then write_json 502 (message "webhook receiver rejected delivery")
    else write_json 200 (attempt a)

-- deliverEvent from there, in the world of that moment.
unfoldable pub record_attempt : World → DeliveryAttempt → Sent → World × Reply
unfolding delivery_reply
record_attempt w a result = (
  record w { delivery_attempts = w.delivery_attempts ++ a ∷ []; mutations = increment w.mutations },
  delivery_reply a result,
)

-- The second step, where the first has sent the event.
unfoldable pub finish_delivery : World → Delivery → World × Reply
unfolding record_attempt
finish_delivery w (ended r) = (w, r)
finish_delivery w (sent request a result) = record_attempt w a result

-- The copy of an event that duplicateEvent makes.
abbrev pub duplicate_of : World → PendingEvent → PendingEvent
duplicate_of w source = record source {
  guid = event_guid (increment w.next_event_id);
  created_at = w.now;
}

-- Its writes.
abbrev pub with_duplicate : World → PendingEvent → World
with_duplicate w source = record w {
  next_event_id = increment w.next_event_id;
  pending_events = w.pending_events ++ duplicate_of w source ∷ [];
  mutations = increment w.mutations;
}

unfoldable pub duplicate_event : World → Decoded DuplicateEventInput → World × Reply
unfolding find_pending_event event_guid
duplicate_event w body = decode_control (stay w) body λ input.
    if_some (find_pending_event w input.guid) (refuse w 404 "unknown event")
      λ source. (with_duplicate w source, write_json 201 (event (duplicate_of w source)))
