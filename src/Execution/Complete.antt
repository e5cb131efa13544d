-- ===== src/Execution/Complete.antt =====
-- An execution from its claim to its end, where no other request comes between its steps and its tools
-- and its runner end.
use merger_herder_validation.Text.{◌+++◌}
use merger_herder_validation.World.Inputs.{ExecuteWorkflowInput}
use merger_herder_validation.Reply.{Reply, Decoded}
use merger_herder_validation.Prelude.{String, Option, ℕ, Bool, some, if_some, none}
use merger_herder_validation.World.{World}
use merger_herder_validation.Machine.{Platform, Machine}
use merger_herder_validation.Execution.Prepare.{prepare, Prepared, Launch, unprepared, prepared}
use merger_herder_validation.Execution.{
  release_claim, claim_run, start_run, finish_run, Claim, refused, claimed, stopped, under_way,
  Claimed,
}

unfoldable pub execute_prepared :
    World → Claim → Prepared → (Launch → Option ℕ) → Bool → String → Option (World × Reply)
unfolding release_claim start_run finish_run
execute_prepared w c (unprepared reply) start waited output = some (release_claim w c, reply)
execute_prepared w c (prepared launch) start waited output =
    if_some (start_run w c (start launch)) (none) λ started. elim started [
      | stopped w' reply ↦ some (w', reply)
      | under_way w' ↦ finish_run w' c waited (launch.log_header +++ output)
    ]

-- From the first critical section on.
unfoldable pub execute_claimed :
    Platform
    → (String → String)
    → Machine
    → Machine
    → (Launch → Option ℕ)
    → Bool
    → String
    → World
    → Claimed
    → Option (World × Reply)
unfolding prepare execute_prepared
execute_claimed p digest m after start waited output w (refused reply) = some (w, reply)
execute_claimed p digest m after start waited output w (claimed w' c) =
    execute_prepared w' c (prepare p digest w' m after c) start waited output

-- executeWorkflowRun: `m` and `after` answer before and after the checkout, `start` is command.Start,
-- `waited` whether command.Wait gives no error, and `output` what the runner writes.
unfoldable pub execute_workflow_run :
    Platform
    → (String → String)
    → Machine
    → Machine
    → (Launch → Option ℕ)
    → Bool
    → String
    → World
    → Decoded ExecuteWorkflowInput
    → Option (World × Reply)
unfolding claim_run execute_claimed
execute_workflow_run p digest m after start waited output w body = elim (claim_run w body) [
  | refused reply ↦ some (w, reply)
  | claimed w' c ↦ execute_prepared w' c (prepare p digest w' m after c) start waited output
]
