-- ===== src/Delivery/Outcomes.antt =====
-- What deliverEvent sends, records and answers.
use merger_herder_validation.Text.{◌+++◌}
use merger_herder_validation.Dict.{get}
use merger_herder_validation.World.Inputs.{DeliveryInput}
use merger_herder_validation.Reply.{decode_control, decoded, write_json, attempt, Reply}
use merger_herder_validation.World.{World, PendingEvent, DeliveryAttempt, zero_app}
use merger_herder_validation.Prelude.{
  String, List, Bool, ℕ, ◌≤◌, ◌<◌, ◌≡◌, some, ◌++◌, get_elem?, ◌∷◌, get_or, arith, false, refl,
  Bool-cases, [], option_cases, ◌==◌, inl, if_cases, true, ◌||◌, eq_iff, nat_key, ltb, not, inr,
  string_key, suc, leb,
}
use merger_herder_validation.Delivery.{
  Sent, record_attempt, find_guid, Network, send_event, responded, delivery_reply,
  find_pending_event, attempt_of, Delivery, Outbound, webhook_signature, ended, undelivered, sent,
}

find_guid_sound :
    (guid : String) (es : List PendingEvent) (e : PendingEvent)
    → find_guid guid es ≡ some e
    → (i : ℕ) × (get_elem? es i ≡ some e) × (e.guid ≡ guid)
unfolding find_guid
find_guid_sound guid [] e h = absurd (ground arith)
find_guid_sound guid (x ∷ es) e h = elim (Bool-cases (x.guid == guid)) [
  | inl hit ↦ (0, ground arith, ground (arith, eq_iff x.guid guid))
  | inr miss ↦ let (i, at, same) = find_guid_sound guid es e (ground arith) in (suc i, at, same)
]

-- A logged event that is sent to its app, signed, with the attempt that is kept of it.
pub record IsSent (n : Network) (w : World) (input : DeliveryInput) (request : Outbound)
    (a : DeliveryAttempt) (result : Sent) : Type 0 where
  pub index : ℕ
  pub e : PendingEvent
  pub logged : get_elem? w.pending_events index ≡ some e
  pub asked : e.guid ≡ input.guid
  pub headers : (request.delivery ≡ e.guid) × (request.event ≡ e.event)
  pub body : request.body ≡ n.marshal e.body
  pub to_app : request.url ≡ (get_or (get w.apps e.app_id) zero_app).webhook_url
  pub signed :
      input.invalid_signature ≡ false
      → request.signature
        ≡ "sha256="
          +++ n.hmac_hex (get_or (get w.apps e.app_id) zero_app).webhook_secret request.body
  pub signed_wrong :
      input.invalid_signature ≡ true
      → request.signature
        ≡ "sha256="
          +++ n.hmac_hex
              ((get_or (get w.apps e.app_id) zero_app).webhook_secret +++ "-invalid")
              request.body
  pub answered : result ≡ n.send request
  pub attempted :
      (a.guid ≡ e.guid)
      × (a.destination ≡ request.url)
      × (a.attempted_at ≡ w.now)
      × (a.invalid_signature ≡ input.invalid_signature)

abbrev pub SendOutcome : Network → World → DeliveryInput → Delivery → Type 0
SendOutcome n w input (ended reply) = 400 ≤ reply.status
SendOutcome n w input (sent request a result) = IsSent n w input request a result

attempt_of_lem :
    (guid url : String) (invalid : Bool) (now : ℕ) (result : Sent)
    → ((attempt_of guid url invalid now result).guid ≡ guid)
      × ((attempt_of guid url invalid now result).destination ≡ url)
      × ((attempt_of guid url invalid now result).attempted_at ≡ now)
      × ((attempt_of guid url invalid now result).invalid_signature ≡ invalid)
attempt_of_lem guid url invalid now (responded code) = (refl, refl, refl, refl)
attempt_of_lem guid url invalid now (undelivered error) = (refl, refl, refl, refl)

-- deliverEvent up to the answer of the receiver, for an input that it decoded: it ends with an error
-- of at least 400, or it has sent an event of the log with the GUID that was asked for, to the
-- webhook of the event's app, with its GUID and name as headers and signed with the app's secret, or
-- with a spoiled secret where this was asked for; the attempt has the moment, the event and the
-- destination.
pub send_event-SendOutcome :
    (n : Network) (w : World) (input : DeliveryInput)
    → SendOutcome n w input (send_event n w (decoded input false))
unfolding send_event find_pending_event decode_control webhook_signature
send_event-SendOutcome n w input =
    let P = SendOutcome n w input in
    option_cases P (find_guid input.guid w.pending_events) _ _ (λ _. omega arith)
      λ e found.
        let app = get_or (get w.apps e.app_id) zero_app in
        let (i, at, same) = find_guid_sound input.guid w.pending_events e found in
        if_cases P (app.webhook_url == "" || app.webhook_secret == "") _ _ (λ _. omega arith)
          λ configured.
            if_cases P (not (n.valid_url app.webhook_url)) _ _ (λ _. omega arith)
              λ valid. record {
                index = i;
                e = e;
                logged = at;
                asked = same;
                headers = (refl, refl);
                body = refl;
                to_app = refl;
                signed = λ proper. rw proper refl;
                signed_wrong = λ spoiled. rw spoiled refl;
                answered = refl;
                attempted = attempt_of_lem e.guid app.webhook_url input.invalid_signature w.now _;
              }

abbrev pub IsAccepted : Sent → Type 0
IsAccepted (responded code) = (200 ≤ code) × (code < 300)
IsAccepted (undelivered error) = ⊥

-- deliverEvent after the answer of the receiver: the attempt is added to the log of attempts and no
-- event is logged; the reply is 200 where the receiver answered with a status from 200 to 299, and 502
-- otherwise.
pub record_attempt_outcome :
    (w : World) (a : DeliveryAttempt) (result : Sent)
    → ((record_attempt w a result).0.delivery_attempts ≡ w.delivery_attempts ++ a ∷ [])
      × ((record_attempt w a result).0.pending_events ≡ w.pending_events)
      × (IsAccepted result → (record_attempt w a result).1 ≡ write_json 200 (attempt a))
      × (¬ IsAccepted result → (record_attempt w a result).1.status ≡ 502)
unfolding record_attempt delivery_reply
record_attempt_outcome w a (undelivered error) =
    (refl, refl, λ none_given. absurd none_given, λ _. refl)
record_attempt_outcome w a (responded code) = (
  refl,
  refl,
  λ accepted. ground (arith, accepted.0, accepted.1),
  λ refused_it.
      if_cases (λ (r : Reply). r.status ≡ 502) (ltb code 200 || leb 300 code) _ _ (λ _. refl)
        (λ fine. absurd (refused_it (ground arith, ground arith))),
)
