-- ===== src/Executor/Tests.antt =====
-- Executions of a rollback.
use ai_assisted_aws_incident.Prelude.{ℕ, ◌≤◌, ◌≡◌, refl, true, false, [], ◌∷◌, concat}
use ai_assisted_aws_incident.Contracts.{ActionRequest, investigating}
use ai_assisted_aws_incident.World.{Action, ok, pure}
use ai_assisted_aws_incident.Adapters.{AdapterResult}
use ai_assisted_aws_incident.Executor.{execute, attempts}
use ai_assisted_aws_incident.Executor.Once.{execute-once}
use ai_assisted_aws_incident.Executor.Attempts.{Runs, attempts-Runs}
use ai_assisted_aws_incident.Samples.{env, ecs, on_time, action, world}

-- The same rollback, no longer dry.
abbrev real_action : ActionRequest
real_action = record action { action_id = "act_2"; dry_run = false }

execute-once_example :
    execute env ecs on_time real_action (execute env ecs on_time action (world investigating)).1 ≡ (
      ok (true, concat ("Skipped duplicate idempotency key " ∷ "inc_1:rollback" ∷ [])),
      (execute env ecs on_time action (world investigating)).1,
    )
execute-once_example = execute-once env ecs on_time action real_action (world investigating) refl

abbrev failing : Action AdapterResult
failing = pure (record { success = false; message = "no" })

attempts-Runs_example :
    (n : ℕ) × (n ≤ 3)
    × Runs on_time failing 3 n (world investigating) (ok (false, "no")) (world investigating)
unfolding attempts
attempts-Runs_example = attempts-Runs on_time failing 2 (world investigating) attempted
  where
    attempted :
        attempts on_time failing 3 (world investigating) ≡ (ok (false, "no"), world investigating)
    attempted = refl
