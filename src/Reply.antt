-- ===== src/Reply.antt =====
-- What a handler of the control API answers: writeJSON and writeControlError of dtu.
use merger_herder_validation.Prelude.{ℕ, Bool, true, false, List, String}
use merger_herder_validation.World.{
  World, PendingEvent, WorkflowRun, DeliveryAttempt, UnsupportedRequest, ObservationError,
}

-- The counts and logs that GET /state gives.
pub record StateSnapshot : Type 0 where
  pub now : ℕ
  pub apps : ℕ
  pub installations : ℕ
  pub repositories : ℕ
  pub pull_requests : ℕ
  pub tokens : ℕ
  pub mutations : ℕ
  pub unsupported_requests : List UnsupportedRequest
  pub pending_events : List PendingEvent
  pub workflow_runs : List WorkflowRun
  pub observation_errors : List ObservationError
  pub delivery_attempts : List DeliveryAttempt

-- The JSON values that the control handlers write.
pub data ReplyBody : Type 0 where
  message : String → ReplyBody
  id : ℕ → ReplyBody
  number : ℕ → ReplyBody
  state : String → ReplyBody
  now : ℕ → ReplyBody
  attempt : DeliveryAttempt → ReplyBody
  event : PendingEvent → ReplyBody
  run : WorkflowRun → ReplyBody
  snapshot : StateSnapshot → ReplyBody

pub record Reply : Type 0 where
  pub status : ℕ
  pub body : ReplyBody

-- writeJSON
abbrev pub write_json : ℕ → ReplyBody → Reply
write_json s b = record { status = s; body = b }

-- writeControlError, and the return after it: the world is left as it is.
abbrev pub refuse : World → ℕ → String → World × Reply
refuse w s text = (w, write_json s (message text))

-- What json.Decoder finds in a request body: no value of the input's type (or an unknown field, or
-- more than the limit), or a value and whether anything follows it.
pub data Decoded (A : Type 0) : Type 0 where
  malformed : Decoded A
  decoded : A → Bool → Decoded A

-- A reply that leaves the world as it is.
abbrev pub stay : World → Reply → World × Reply
stay w r = (w, r)

-- decodeControl, and the handler's return after it fails; `end` makes the handler's result of a
-- reply.
unfoldable pub decode_control {ℓ} :
    {A : Type 0} {R : Type ℓ} → (Reply → R) → Decoded A → (A → R) → R
decode_control end malformed handle = end (write_json 400 (message "invalid JSON"))
decode_control end (decoded a true) handle = end (write_json 400 (message "invalid JSON"))
decode_control end (decoded a false) handle = handle a
