-- ===== src/Examples/Outgoing.antt =====
-- A delivery and a push on the fixture.
use merger_herder_validation.Git.Queued.{target, record_ref_changes-released}
use merger_herder_validation.Reply.{decoded, write_json, attempt}
use merger_herder_validation.Dict.Entries.{find, insert}
use merger_herder_validation.Prelude.{
  true, false, string_key, ◌≡◌, map, ◌∷◌, some, [], nat_key, refl, ◌++◌,
}
use merger_herder_validation.Events.{event_guid}
use merger_herder_validation.Examples.{
  sample_world, sample_machine, sample_repository, sample_token,
}
use merger_herder_validation.Dict.{get, put, empty}
use merger_herder_validation.World.{WorkflowConfig, DeliveryAttempt}
use merger_herder_validation.Git.Push.{Refs, record_ref_changes}
use merger_herder_validation.Delivery.Outcomes.{
  SendOutcome, send_event-SendOutcome, IsAccepted, record_attempt_outcome,
}
use merger_herder_validation.Delivery.{record_attempt, Network, attempt_of, send_event, responded}
use merger_herder_validation.World.Inputs.{DeliveryInput}

abbrev pub sample_network : Network
sample_network = record {
  marshal = λ payload. "{}";
  hmac_hex = λ secret body. secret;
  valid_url = λ url. true;
  send = λ request. responded 200;
}

abbrev sample_delivery : DeliveryInput
sample_delivery = record { guid = event_guid 1; invalid_signature = false }

send_event-SendOutcome_example :
    SendOutcome sample_network sample_world sample_delivery
      (send_event sample_network sample_world (decoded sample_delivery false))
send_event-SendOutcome_example = send_event-SendOutcome sample_network sample_world sample_delivery

abbrev sample_attempt : DeliveryAttempt
sample_attempt = attempt_of (event_guid 1) "http://hook" false 0 (responded 404)

record_attempt_outcome_example :
    ((record_attempt sample_world sample_attempt (responded 404)).0.delivery_attempts
      ≡ sample_attempt ∷ [])
    × ((record_attempt sample_world sample_attempt (responded 404)).0.pending_events
        ≡ sample_world.pending_events)
    × (IsAccepted (responded 404)
        → (record_attempt sample_world sample_attempt (responded 404)).1
          ≡ write_json 200 (attempt sample_attempt))
    × (¬ IsAccepted (responded 404)
        → (record_attempt sample_world sample_attempt (responded 404)).1.status ≡ 502)
record_attempt_outcome_example = record_attempt_outcome sample_world sample_attempt (responded 404)

abbrev sample_workflow : WorkflowConfig
sample_workflow = record {
  repository_id = 700;
  id = 9;
  name = "Release";
  path = ".github/workflows/release.yml";
  release_ref = "release";
}

sample_world-workflows : get sample_world.workflows 700 ≡ some sample_workflow
unfolding get put find insert empty
sample_world-workflows = refl

-- The release branch moves from abc to def.
abbrev refs_before : Refs
refs_before = put empty "release" "abc"

abbrev refs_after : Refs
refs_after = put empty "release" "def"

record_ref_changes-released_example :
    ((record_ref_changes sample_machine sample_world sample_repository sample_token refs_before
        refs_after).workflows
      ≡ sample_world.workflows)
    × (map target
          (record_ref_changes sample_machine sample_world sample_repository sample_token refs_before
            refs_after).workflow_runs
        ≡ map target sample_world.workflow_runs ++ ("release", "def", "queued") ∷ [])
unfolding get put find insert empty
record_ref_changes-released_example =
    record_ref_changes-released sample_machine sample_world sample_repository sample_token
      sample_workflow refs_before refs_after sample_world-workflows
