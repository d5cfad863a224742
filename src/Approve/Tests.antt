-- ===== src/Approve/Tests.antt =====
-- An approval that is granted.
use ai_assisted_aws_incident.Approve.{
  false, [], IncidentApprovalPayload, approve_incident, execute_incident, new_approval, awaiting,
  ApprovalPayload, record_approval,
}
use ai_assisted_aws_incident.Prelude.{
  ap, lower, lower_char, ◌≡◌, ◌∷◌, [], arith, refl, true, none, some,
}
use ai_assisted_aws_incident.Value.{pos}
use ai_assisted_aws_incident.Contracts.{
  IncidentRecord, ApprovalRecord, waiting_approval, IncidentState-discrete,
}
use ai_assisted_aws_incident.Dict.{lookup}
use ai_assisted_aws_incident.World.{World, ok, fresh_id, utcnow, append_audit}
use ai_assisted_aws_incident.Store.{get, upsert, is_invalid, may_follow}
use ai_assisted_aws_incident.Approve.Laws.{Recorded, record_approval-Recorded}
use ai_assisted_aws_incident.Approve.Recovery.{Fits}
use ai_assisted_aws_incident.Approve.Calls.{
  Waits, filled, run_pending, request_of, execute_incident-Recovered,
}
use ai_assisted_aws_incident.Execute.Recovery.{Recovered, sent}
use ai_assisted_aws_incident.Execute.Rollback.{Rollback}
use ai_assisted_aws_incident.Execute.Admitted.{stamp}
use ai_assisted_aws_incident.Execute.{effective_dry_run}
use ai_assisted_aws_incident.Adapters.{are_valid_parameters}
use ai_assisted_aws_incident.Policy.{evaluate, checks, target_allowed}
use ai_assisted_aws_incident.Contracts.{ActionType-discrete, ActionResult}
use ai_assisted_aws_incident.Plans.{checkout_plan}
use ai_assisted_aws_incident.Value.{end}
use ai_assisted_aws_incident.Contracts.{ActionGraph, ActionRequest, investigating}
use ai_assisted_aws_incident.World.{with_budget, raise, structured_llm_error}
use ai_assisted_aws_incident.Workflow.{Agents}
use ai_assisted_aws_incident.Workflow.Routes.{create_plan, plan_found}
use ai_assisted_aws_incident.Planner.{
  run, plan_under, stub_graph, stub_actions, propose, build_plan_steps, plan_step,
}
use ai_assisted_aws_incident.Store.{bump}
use ai_assisted_aws_incident.Dict.{insert}
use ai_assisted_aws_incident.Approve.Planned.{Planned, create_plan-Planned}
use ai_assisted_aws_incident.Approve.Remediation.{create_plan-Recovered}
use ai_assisted_aws_incident.Prelude.{List, Option, subst}
use ai_assisted_aws_incident.World.Workload.{verify_recovery}
use ai_assisted_aws_incident.Contracts.{PolicyDecision, resolved}
use ai_assisted_aws_incident.Execute.{context_of}
use ai_assisted_aws_incident.Samples.{
  action, graph, engine, ecs, on_time, decision, incident, env, world, approval, value_or,
}

abbrev request : ApprovalPayload
request = record {
  approver = "ops";
  action_id = "act_1";
  approved = true;
  reason = none;
  ttl_seconds = pos 900;
  plan_step_id = none;
  approval_scope = "action";
  expected_incident_version = none;
}

abbrev recorded : ApprovalRecord
recorded = value_or (record_approval env "inc_1" request (world waiting_approval)).0 approval

record_approval-Recorded_example :
    Recorded env "inc_1" request
      (world waiting_approval)
      recorded
      (record_approval env "inc_1" request (world waiting_approval)).1
unfolding record_approval awaiting get lookup IncidentState-discrete new_approval fresh_id utcnow
    upsert is_invalid may_follow append_audit
record_approval-Recorded_example =
    record_approval-Recorded env "inc_1" request (world waiting_approval) refl

abbrev call : IncidentApprovalPayload
call = record {
  approver = "ops";
  approved = true;
  reason = none;
  ttl_seconds = pos 900;
  action_id = none;
  plan_step_id = none;
}

-- What the call has recorded, and the world behind it.
abbrev answered : ApprovalRecord
answered = value_or (approve_incident env "inc_1" call (world waiting_approval)).0 approval

abbrev approved : World
approved = (approve_incident env "inc_1" call (world waiting_approval)).1

waits : Waits (incident waiting_approval) action
waits = record { graph = graph; rest = []; pending = refl; actions = refl; asked = refl }

fits :
    Fits
      (incident waiting_approval)
      (filled call action (incident waiting_approval))
      answered
      checkout_plan
unfolding approve_incident record_approval awaiting get lookup IncidentState-discrete new_approval
    fresh_id utcnow upsert is_invalid may_follow append_audit
fits = record {
  granted = refl;
  own_version = refl;
  own_step = refl;
  new_id = (refl, tt);
  has_plan = refl;
  free = refl;
}

request-Rollback : Rollback env on_time (sent env (request_of action answered 2))
unfolding effective_dry_run are_valid_parameters lower lower_char
request-Rollback = record {
  local = refl;
  up = refl;
  kind = refl;
  target = refl;
  valid = refl;
  wet = refl;
  on_time = refl;
}

execute_incident-Recovered_example :
    (row : IncidentRecord) × (result : ActionResult) × (v : World) × (execute_incident env engine
        ecs on_time "inc_1" run_pending approved
      ≡ (ok (decision (stamp env approved), result), v))
    × Recovered env engine ecs on_time "inc_1" (request_of action answered 2) row result approved v
unfolding approve_incident record_approval awaiting get lookup IncidentState-discrete new_approval
    fresh_id utcnow upsert is_invalid may_follow append_audit evaluate checks target_allowed
    ActionType-discrete lower lower_char
execute_incident-Recovered_example =
    execute_incident-Recovered env engine ecs on_time "inc_1" call action (world waiting_approval)
      {before = incident waiting_approval} {r = answered} {w' = approved} {plan = checkout_plan}
      {decision = decision (stamp env approved)} refl refl waits refl refl refl fits (omega arith)
      refl refl request-Rollback refl

abbrev nobody : Agents
nobody = record {
  triage = λ _. raise structured_llm_error;
  evidence = λ _. raise structured_llm_error;
  change = λ _. raise structured_llm_error;
  rca = λ _. raise structured_llm_error;
  router_llm = λ _ _ _. raise structured_llm_error;
  planner_llm = λ _ _. raise structured_llm_error;
  checkpoint = end;
}

-- The incident before its plan.
abbrev made : ActionGraph
made = value_or (create_plan env nobody "inc_1" (world investigating)).0 graph

abbrev planned_world : World
planned_world = (create_plan env nobody "inc_1" (world investigating)).1

create_plan-Planned_example : Planned "inc_1" (incident investigating) made planned_world
unfolding create_plan plan_found get lookup upsert is_invalid may_follow with_budget run plan_under
    stub_graph stub_actions propose fresh_id build_plan_steps plan_step utcnow append_audit bump
    lower lower_char ActionType-discrete IncidentState-discrete insert
create_plan-Planned_example =
    create_plan-Planned env nobody "inc_1" (incident investigating) (world investigating) refl refl
      refl

first_or : ActionRequest → List ActionRequest → ActionRequest
first_or d [] = d
first_or d (a ∷ _) = a

row_or : IncidentRecord → Option IncidentRecord → IncidentRecord
row_or d none = d
row_or d (some row) = row

abbrev planned_row : IncidentRecord
planned_row = row_or (incident investigating) (lookup "inc_1" planned_world.incidents)

-- The approval of the plan, and the world behind it.
abbrev agreed : ApprovalRecord
agreed = value_or (approve_incident env "inc_1" call planned_world).0 approval

abbrev agreed_world : World
agreed_world = (approve_incident env "inc_1" call planned_world).1

abbrev Allowed : ActionRequest → IncidentRecord → Type 0
Allowed a row =
    (d : PolicyDecision) × (evaluate env engine (stamp env agreed_world) checkout_plan
        (record a { dry_run = false }) false (context_of row)
      ≡ some d)
    × (d.allowed ≡ true)

made-allowed : Allowed (first_or action made.actions) planned_row
unfolding create_plan plan_found get lookup upsert is_invalid may_follow with_budget run plan_under
    stub_graph stub_actions propose fresh_id build_plan_steps plan_step utcnow append_audit bump
    lower lower_char ActionType-discrete IncidentState-discrete insert approve_incident
    record_approval awaiting new_approval evaluate checks target_allowed first_or row_or
made-allowed = (decision (stamp env agreed_world), refl, refl)

allowed :
    (a : ActionRequest) (row : IncidentRecord)
    → made.actions ≡ a ∷ []
    → lookup "inc_1" planned_world.incidents ≡ some row
    → Allowed a row
unfolding first_or row_or
allowed a row one there =
    subst (λ x. Allowed x row) (ap (first_or action) one)
      (subst (Allowed (first_or action made.actions)) (ap (row_or (incident investigating)) there)
        made-allowed)

create_plan-Recovered_example :
    (row : IncidentRecord) × (d : PolicyDecision) × (result : ActionResult) × (v : World)
    × (execute_incident env engine ecs on_time "inc_1" run_pending agreed_world
        ≡ (ok (d, result), v))
    × (result.success ≡ true)
    × (verify_recovery v.workload ≡ true)
    × (lookup "inc_1" v.incidents ≡ some row)
    × (row.state ≡ resolved)
unfolding create_plan plan_found get lookup upsert is_invalid may_follow with_budget run plan_under
    stub_graph stub_actions propose fresh_id build_plan_steps plan_step utcnow append_audit bump
    lower lower_char ActionType-discrete IncidentState-discrete insert approve_incident
    record_approval awaiting new_approval
create_plan-Recovered_example =
    create_plan-Recovered env engine ecs on_time nobody "inc_1" call (incident investigating)
      (world investigating) {graph = made} {u = planned_world} {r = agreed} {w' = agreed_world}
      {plan = checkout_plan} refl refl refl refl refl refl refl refl refl refl (λ s. refl) refl refl
      refl refl refl (refl, tt) (omega arith) refl allowed
