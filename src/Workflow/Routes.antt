-- ===== src/Workflow/Routes.antt =====
-- `execute_route` of src/workflows/incident_workflow.py, and `route_incident` and `create_plan` of
-- apps/api/routers/router/app.py.
use ai_assisted_aws_incident.Prelude.{
  none, Option, not, not, Option, map, Bool, String, some, [], ◌∷◌, concat, if◌then◌else◌,
}
use ai_assisted_aws_incident.Value.{pos, int, text_items, list, Fields, end, field, text, dict}
use ai_assisted_aws_incident.Contracts.{
  action_value, class_value, ActionGraph, IncidentRecord, ResponsePlan, waiting_approval,
}
use ai_assisted_aws_incident.Environ.{Environ, env_flag}
use ai_assisted_aws_incident.HotState.{acquire_lock, release_lock}
use ai_assisted_aws_incident.Planner.{run}
use ai_assisted_aws_incident.Store.{get, upsert}
use ai_assisted_aws_incident.Workflow.{modify, Agents, run_linear_route}
use ai_assisted_aws_incident.Workflow.Loop.{
  run_decision_loop_route, first_action, first_step, keep_unless,
}
use ai_assisted_aws_incident.World.{
  raise_if, with_budget, World, Action, http, or_raise, raise, pure, finally, fresh_id,
  append_audit, about, ok, ◌>>=◌, ◌>>◌,
}

abbrev pub lock_key : String → String
lock_key incident_id = concat ("incident_lock:" ∷ incident_id ∷ [])

abbrev pub release : String → String → World → World
release key token w = record w { hot = (release_lock key token w.hot).1 }

-- `hot_state.acquire_lock(…, expire_seconds=30)`
unfoldable pub acquire : String → String → Action Bool
acquire key token w =
    let (taken, hot) = acquire_lock key token 30 w.hot in (ok taken, record w { hot = hot })

-- `response_plan.model_dump(mode="json")`
abbrev pub plan_fields : ResponsePlan → Fields
plan_fields p = field "plan_id" (text p.plan_id) (
    field "workflow_family" (text p.workflow_family) (
      field "policy_class" (text (class_value p.policy_class)) (
        field "allowed_actions" (list (text_items (map action_value p.allowed_actions))) (
          field "denied_actions" (list (text_items (map action_value p.denied_actions)))
            (field "max_retries" (int (pos p.max_retries)) end)))))

-- What `create_plan` writes to the incident that the planner hands on.
abbrev pub with_plan : ActionGraph × IncidentRecord → IncidentRecord
with_plan done = record (done.1) {
  pending_action_graph = some done.0;
  pending_approval_action_id = first_action (done.0).actions;
  pending_plan_step_id = keep_unless (first_step (done.0).plan_steps) (done.1).pending_plan_step_id;
  state = waiting_approval;
}

module _ (env : Environ) (agents : Agents) where
  -- `execute_route`
  unfoldable pub execute_route : IncidentRecord → Action IncidentRecord
  execute_route incident = with_budget env (
      if env_flag env "ROUTER_DECISION_LOOP_ENABLED" "false"
      then run_decision_loop_route env agents incident
      else run_linear_route env agents incident)

  -- The body of the `try`.
  unfoldable pub route_found : String → IncidentRecord → Action IncidentRecord
  route_found incident_id incident = do
    updated ← execute_route incident
    plan ← or_raise updated.response_plan (http 500 "response plan missing after routing")
    append_audit env "incident_routed"
        (about incident_id (field "response_plan" (dict (plan_fields plan)) end))
    pure updated

  -- What `route_incident` does behind its lock.
  unfoldable pub route_locked : String → String → Option IncidentRecord → Action IncidentRecord
  route_locked incident_id token none =
      modify (release (lock_key incident_id) token) >> raise (http 404 "incident not found")
  route_locked incident_id token (some incident) =
      finally (route_found incident_id incident) (release (lock_key incident_id) token)

  -- `route_incident`
  unfoldable pub route_incident : String → Action IncidentRecord
  route_incident incident_id = do
    token ← fresh_id env "token_" 32
    taken ← acquire (lock_key incident_id) token
    raise_if (not taken) (http 423 "incident is currently being routed")
    found ← get incident_id
    route_locked incident_id token found

  -- The part of `create_plan` behind the guard.
  unfoldable pub plan_found : String → IncidentRecord → Action ActionGraph
  plan_found incident_id incident = do
    done ← with_budget env (run env agents.planner_llm incident)
    upsert env (with_plan done)
    append_audit env "remediation_plan_created" (about incident_id end)
    pure done.0

  -- `create_plan`
  unfoldable pub create_plan : String → Action ActionGraph
  create_plan incident_id = do
    found ← get incident_id
    incident ← or_raise found (http 404 "incident not found")
    plan_found incident_id incident
