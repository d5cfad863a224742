-- ===== src/Scenario.antt =====
-- `run_checkout_deployment_failure` of src/apps/api/main.py: the demo that breaks the checkout service and
-- repairs it, with the calls of src/adapters/local/checkout_client.py. The report's files are left out.
pub mod Laws
pub mod Tests
use ai_assisted_aws_incident.Prelude.{
  ℕ, ◌+◌, ◌*◌, Bool, true, false, ◌&&◌, String, Option, none, some, List, [], ◌∷◌, ◌++◌,
  if◌then◌else◌,
}
use ai_assisted_aws_incident.Value.{Fields, Value, end, field, text, boolean, dict}
use ai_assisted_aws_incident.Contracts.{
  ActionGraph, ActionRequest, ActionResult, ApprovalRecord, IncidentRecord, add_trace, executing,
  investigating, planned, resolved, waiting_approval,
}
use ai_assisted_aws_incident.Environ.{Environ}
use ai_assisted_aws_incident.Adapters.{Ecs}
use ai_assisted_aws_incident.Executor.{Fate, run_agent}
use ai_assisted_aws_incident.Execute.{trace_entry, metrics_fields}
use ai_assisted_aws_incident.Ingress.{Alert, normalize}
use ai_assisted_aws_incident.Planner.{run}
use ai_assisted_aws_incident.Store.{upsert}
use ai_assisted_aws_incident.Workflow.{Agents}
use ai_assisted_aws_incident.Workflow.Loop.{first_action, first_step}
use ai_assisted_aws_incident.Workflow.Routes.{execute_route}
use ai_assisted_aws_incident.World.{
  World, Action, Failure, http, http_error, ok, err, or_raise, raise, pure, fresh_id, utcnow,
  append_audit, about, ◌>>=◌, ◌>>◌,
}
use ai_assisted_aws_incident.World.Workload.{
  CheckoutState, rollback, inject_deployment_regression, verify_recovery,
}

abbrev pub scenario_alert : Alert
scenario_alert = record {
  source = some "checkout-scenario";
  severity = some "sev2";
  service = some "checkout-service";
  resource = some "checkout-service";
  symptom = some "checkout deployment regression causing elevated errors and latency";
  raw_payload_ref = some "scenario://checkout-deployment-regression";
}

-- What the route answers, with the world's part left out.
pub record ScenarioResult : Type 0 where
  pub incident : IncidentRecord
  pub approval : ApprovalRecord
  pub metrics : CheckoutState

module _ (env : Environ) where
  -- A call of the checkout service that cannot be refused.
  unfoldable pub change_workload : (CheckoutState → CheckoutState) → Action (Unit {0})
  change_workload f w =
      if env.workload_up then (ok tt, record w { workload = f w.workload }) else (err http_error, w)

  -- `CheckoutServiceClient.verify_recovery`
  unfoldable pub verify : Action (Bool × CheckoutState)
  verify w =
      if env.workload_up
      then (ok (verify_recovery w.workload, w.workload), w)
      else (err http_error, w)

  -- The failure, and the incident that it opens.
  unfoldable pub break_checkout : Action IncidentRecord
  break_checkout = do
    change_workload (rollback "checkout-r42")
    change_workload inject_deployment_regression
    incident ← normalize env scenario_alert
    stored ← upsert env incident
    append_audit env "scenario_failure_injected" (about stored.incident_id end)
    pure stored

  abbrev pub first_request : List ActionRequest → Option ActionRequest
  first_request [] = none
  first_request (a ∷ _) = some (record a { dry_run = false })

  -- The investigation and the plan, with the action to run.
  unfoldable pub plan_repair : Agents → IncidentRecord → Action (ActionRequest × IncidentRecord)
  plan_repair agents incident = do
    routed ← execute_route env agents incident
    done ← run env agents.planner_llm routed
    stored ← upsert env (record (done.1) {
      pending_action_graph = some done.0;
      pending_approval_action_id = first_action (done.0).actions;
      pending_plan_step_id = first_step (done.0).plan_steps;
      state = waiting_approval;
      final_diagnosis =
          some "Deployment checkout-r43 introduced elevated checkout errors and latency.";
    })
    action ←
        or_raise (first_request (done.0).actions) (http 500 "scenario planner returned no action")
    pure (action, stored)

  -- The approval, recorded.
  unfoldable pub approve_repair :
      ActionRequest → IncidentRecord → Action (ApprovalRecord × IncidentRecord)
  approve_repair action incident = do
    id ← fresh_id env "apr_" 10
    token ← fresh_id env "token_" 32
    start ← utcnow env
    now ← utcnow env
    let approval : ApprovalRecord = record {
      approval_id = id;
      action_id = some action.action_id;
      plan_step_id = incident.pending_plan_step_id;
      approval_scope = "action";
      expected_incident_version_at_grant = some incident.version;
      approver = "demo-approver";
      approved = true;
      approval_token = token;
      expires_at = start + 15 * 60000000;
      reason = some "Deterministic scenario approval for local checkout rollback.";
      created_at = now;
    }
    stored ←
        upsert env
          (record incident { approvals = incident.approvals ++ approval ∷ []; state = planned })
    append_audit env "approval_recorded"
        (about stored.incident_id (field "approval_id" (text approval.approval_id) end))
    pure (approval, stored)

  -- The incident that the outcome is written to.
  abbrev pub with_outcome : ActionResult → Bool → IncidentRecord → IncidentRecord
  with_outcome result verified incident = record incident {
    executed_actions = incident.executed_actions ++ result ∷ [];
    final_resolution = some "Rollback to checkout-r42 restored checkout health and business KPIs.";
    state = if result.success && verified then resolved else investigating;
  }

  -- The outcome of the run and of its verification.
  unfoldable pub finish :
      ActionResult → Bool × CheckoutState → IncidentRecord → Action (CheckoutState × IncidentRecord)
  finish result checked traced = do
    stored ← upsert env (with_outcome result checked.0 traced)
    append_audit env "scenario_completed" (
        about stored.incident_id (
          field "success" (boolean (result.success && checked.0))
            (field "metrics" (dict (metrics_fields checked.1)) end)))
    pure (checked.1, stored)

  -- The trace entry of the verification.
  unfoldable pub record_verification :
      ActionRequest
      → ActionResult
      → IncidentRecord
      → Bool × CheckoutState
      → Action (CheckoutState × IncidentRecord)
  record_verification action result started checked = do
    seen ←
        trace_entry env "verify" (some action.action_id) (some checked.0) "checkout_metrics" false
    finish result checked (add_trace seen started)

  -- The run and its verification.
  unfoldable pub repair :
      Ecs → (ℕ → Fate) → ActionRequest → IncidentRecord → Action (CheckoutState × IncidentRecord)
  repair ecs fate action incident = do
    act ← trace_entry env "act" (some action.action_id) none "" false
    result ← run_agent env ecs fate action
    checked ← verify
    record_verification action result (add_trace act (record incident { state = executing }))
        checked

  -- `run_checkout_deployment_failure`
  unfoldable pub run_checkout_deployment_failure : Agents → Ecs → (ℕ → Fate) → Action ScenarioResult
  run_checkout_deployment_failure agents ecs fate = do
    incident ← break_checkout
    planned_repair ← plan_repair agents incident
    approved ← approve_repair planned_repair.0 planned_repair.1
    done ← repair ecs fate planned_repair.0 approved.1
    pure (record { incident = done.1; approval = approved.0; metrics = done.0 })
