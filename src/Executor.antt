-- ===== src/Executor.antt =====
-- The execution of one action: `IdempotencyStore.claim` of src/persistence/idempotency.py with the
-- database at hand, `ActionExecutor` of src/adapters/actions/executor.py and `ExecutionAgent` of
-- src/agents/executor/agent.py. Whether an attempt ends before `asyncio.wait_for` gives up is the
-- parameter `fate`; the pause between attempts and the log lines are left out.
pub mod Attempts
pub mod Once
pub mod Keeps
pub mod Tests
use ai_assisted_aws_incident.Prelude.{
  ℕ, zero, suc, ◌-◌, Bool, true, false, String, Option, none, some, List, [], ◌∷◌, is_some,
  if◌then◌else◌, concat,
}
use ai_assisted_aws_incident.Value.{Fields, end, field, text, boolean}
use ai_assisted_aws_incident.Contracts.{ActionRequest, ActionResult, action_value}
use ai_assisted_aws_incident.Environ.{Environ}
use ai_assisted_aws_incident.Dict.{lookup, insert}
use ai_assisted_aws_incident.World.{
  World, Action, Result, Failure, ok, err, pure, modify, utcnow, append_audit, ◌>>=◌, ◌>>◌,
}
use ai_assisted_aws_incident.Adapters.{AdapterResult, Ecs, run}

-- `INSERT … ON CONFLICT (key) DO NOTHING`, and whether a row was inserted.
unfoldable pub claim : String → String → Action Bool
claim key action_id w =
    if is_some (lookup key w.claims)
    then (ok false, w)
    else (ok true, record w { claims = insert key action_id w.claims })

-- How an attempt ends: in time, or cut off with its effect on the world undone or done.
pub data Fate : Type 0 where
  in_time cut_before cut_after : Fate

-- `asyncio.wait_for(self.registry.run(action, context), timeout)`; `none` is the TimeoutError.
abbrev pub wait_for : Fate → Action AdapterResult → Action (Option AdapterResult)
wait_for in_time m w = (m >>= λ r. pure (some r)) w
wait_for cut_before m w = (ok none, w)
wait_for cut_after m w = let (_, w') = m w in (ok none, w')

abbrev pub timeout_message : String
timeout_message = "Action timed out after 3 attempts"

-- The end of a round: success leaves the loop, and so does the last attempt.
abbrev pub round_end : Action (Bool × String) → ℕ → Option AdapterResult → Action (Bool × String)
round_end again zero none = pure (false, timeout_message)
round_end again (suc left) none = again
round_end again zero (some r) = pure (r.success, r.message)
round_end again (suc left) (some r) = if r.success then pure (true, r.message) else again

-- The loop of `_run_with_retries` with so many attempts left. The return behind the loop, for no
-- attempt left, is reached only from a limit of zero.
unfoldable pub attempts : (ℕ → Fate) → Action AdapterResult → ℕ → Action (Bool × String)
attempts fate m zero w = (ok (false, "Action failed after retries"), w)
attempts fate m (suc left) w = (wait_for (fate left) m >>= round_end (attempts fate m left) left) w

abbrev pub retry_limit : ℕ
retry_limit = 3

module _ (env : Environ) (ecs : Ecs) (fate : ℕ → Fate) where
  -- `_run_with_retries`
  unfoldable pub run_with_retries : ActionRequest → List String → Action (Bool × String)
  unfolding attempts
  run_with_retries action targets = attempts fate (run env ecs action targets) retry_limit

  abbrev pub execution_event : ActionRequest → Bool → String → Fields
  execution_event action success message = field "action_id" (text action.action_id) (
      field "action_type" (text (action_value action.action_type)) (
        field "target" (text action.target) (
          field "idempotency_key" (text action.idempotency_key) (
            field "dry_run" (boolean action.dry_run)
              (field "success" (boolean success) (field "message" (text message) end))))))

  abbrev pub skipped : ActionRequest → Bool × String
  skipped action =
      (true, concat ("Skipped duplicate idempotency key " ∷ action.idempotency_key ∷ []))

  -- The part of `execute` behind a claim that was granted.
  unfoldable pub perform : ActionRequest → Action (Bool × String)
  perform action = do
    outcome ← run_with_retries action (action.target ∷ "k8s-*" ∷ "arc-*" ∷ [])
    append_audit env "adapter_execution" (execution_event action outcome.0 outcome.1)
    pure outcome

  -- `execute`
  unfoldable pub execute : ActionRequest → Action (Bool × String)
  execute action = do
    granted ← claim action.idempotency_key action.action_id
    if granted then perform action else pure (skipped action)

  -- `ExecutionAgent.run`
  unfoldable pub run_agent : ActionRequest → Action ActionResult
  run_agent request = do
    started ← utcnow env
    outcome ← execute request
    finished ← utcnow env
    pure (record {
      action_id = request.action_id;
      success = outcome.0;
      status_message = outcome.1;
      started_at = started;
      finished_at = finished;
      rollback_action = none;
    })
