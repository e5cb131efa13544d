-- ===== src/Examples/Runners.antt =====
-- An execution on the fixture, with tools that answer as expected.
use merger_herder_validation.Text.{◌+++◌, trim_space}
use merger_herder_validation.Concurrency.Success.{ended_run, execute_workflow_run-completes}
use merger_herder_validation.Reply.{decoded, write_json, run}
use merger_herder_validation.Concurrency.Reachable.{Reach-IsSound}
use merger_herder_validation.Concurrency.Board.{
  Status, BoardReach, is_queued, Shows, Reach-BoardReach,
}
use merger_herder_validation.Execution.Complete.{execute_workflow_run}
use merger_herder_validation.Examples.Executions.{
  claimed_world, claimed_system, sample_claim, claimed_Reach, moved_system, moved_Reach,
  sample_claim_run,
}
use merger_herder_validation.Examples.{
  sample_machine, sample_world, sample_platform, sample_system, sample_system-IsSound, sample_run,
}
use merger_herder_validation.World.{World}
use merger_herder_validation.Execution.Prepare.{
  prepare, Launch, launch_of, act_version_matches, verify_runner_image, pinned_runner_digest,
  check_digests, pinned_act_version, check_architecture, digest_matches, prepare_checkout,
  prepare_docker_config, check_out, resolve_checkout_head, format_int, prepared,
}
use merger_herder_validation.Machine.{Machine, Platform, exited, run_git}
use merger_herder_validation.Concurrency.Soundness.{IsSound}
use merger_herder_validation.Prelude.{
  [], ◌∷◌, List, String, some, if◌then◌else◌, ◌==◌, true, string_key, refl, false, ◌≡◌, get_elem?,
}

abbrev tool_output : List String → String
tool_output [] = ""
tool_output (program ∷ rest) =
    if program == "act" then pinned_act_version else if program == "docker" then "amd64" else "abc"

abbrev tools : Machine
tools = record sample_machine {
  run = λ dir arguments. exited (tool_output arguments);
  look_path = λ name. some "act";
}

abbrev image_platform : Platform
image_platform = record sample_platform { parse_strings = λ text. some (pinned_runner_digest ∷ []) }

abbrev sample_launch : Launch
sample_launch =
    launch_of (λ text. "d") claimed_world sample_claim "act" "amd64" "/srv/docker-config"

sample_prepare :
    prepare image_platform (λ text. "d") claimed_world tools tools sample_claim
    ≡ prepared sample_launch
unfolding prepare act_version_matches verify_runner_image check_digests check_architecture
    digest_matches prepare_checkout prepare_docker_config check_out resolve_checkout_head run_git
    format_int trim_space
sample_prepare = refl

execute_workflow_run-completes_example :
    (w'' : World) × (execute_workflow_run image_platform
        (λ text. "d")
        tools
        tools
        (λ launch. some 42)
        true
        "done"
        sample_world
        (decoded (record { run_id = 1001 }) false)
      ≡ some (
        w'',
        write_json 200 (run (ended_run sample_run true (sample_launch.log_header +++ "done"))),
      ))
    × (get_elem? w''.workflow_runs 0
        ≡ some (ended_run sample_run true (sample_launch.log_header +++ "done")))
execute_workflow_run-completes_example =
    execute_workflow_run-completes image_platform (λ text. "d") tools tools (λ launch. some 42) true
      "done" sample_world claimed_world (decoded (record { run_id = 1001 }) false) sample_claim
      sample_launch 42 sample_claim_run refl sample_prepare refl

claimed_system-IsSound : IsSound claimed_system
claimed_system-IsSound =
    Reach-IsSound sample_system claimed_system claimed_Reach sample_system-IsSound

Reach-BoardReach_example :
    (c : List Status) × BoardReach (is_queued ∷ []) c × Shows moved_system.world c
Reach-BoardReach_example =
    Reach-BoardReach sample_system moved_system (is_queued ∷ []) moved_Reach sample_system-IsSound
      refl
