-- ===== src/Execute/Tests.antt =====
-- Requests to execute a rollback.
use ai_assisted_aws_incident.Execute.{
  conclude, verify_action_recovery, post_verify, settle, run_authorised, Grant, trace_entry,
  effective_dry_run, check_approval, approval_of, require_approval, refuse_denied,
  refuse_investigate_only, act, ExecutePayload, execute_action, authorise,
}
use ai_assisted_aws_incident.Prelude.{arith, lower_char, lower, ◌≡◌, refl, true, false, none, some}
use ai_assisted_aws_incident.Contracts.{
  ActionResult, IncidentRecord, investigating, waiting_approval, resolved, ActionType-discrete,
}
use ai_assisted_aws_incident.World.{
  World, http, value_error, ok, err, fresh_id, utcnow, append_audit,
}
use ai_assisted_aws_incident.Policy.{evaluate, checks, target_allowed}
use ai_assisted_aws_incident.Store.{get}
use ai_assisted_aws_incident.Dict.{lookup, insert}
use ai_assisted_aws_incident.Executor.{
  run_agent, execute, claim, perform, run_with_retries, attempts,
}
use ai_assisted_aws_incident.Adapters.{run, can_access_target, are_valid_parameters}
use ai_assisted_aws_incident.Execute.Authorised.{IsAuthorised, authorise-IsAuthorised}
use ai_assisted_aws_incident.Execute.Outcome.{
  Untouched, execute_action-refused, act-dry_run, run_authorised-waiting,
}
use ai_assisted_aws_incident.Execute.Admitted.{Opens, Admits, authorise-Admits, behind}
use ai_assisted_aws_incident.Samples.{
  approval, env, engine, ecs, on_time, payload, grant, world, incident, action, value_or,
}

abbrev authorised_world : World
authorised_world = record (world investigating) { clock_reads = 2; uuids = 1 }

authorised :
    authorise env engine "inc_1" payload (world investigating) ≡ (ok grant, authorised_world)
unfolding authorise get lookup refuse_investigate_only fresh_id utcnow evaluate checks
    target_allowed refuse_denied require_approval approval_of check_approval ActionType-discrete
    lower lower_char
authorised = refl

authorise-IsAuthorised_example : IsAuthorised env engine "inc_1" payload (world investigating) grant
authorise-IsAuthorised_example =
    authorise-IsAuthorised env engine "inc_1" payload (world investigating) authorised

abbrev supervised : ExecutePayload
supervised = record payload { autonomous = true }

refused :
    authorise env engine "inc_1" supervised (world investigating)
    ≡ (err (http 423 "autonomous mode is disabled by kill switch"), world investigating)
unfolding authorise get lookup refuse_investigate_only lower lower_char
refused = refl

execute_action-refused_example :
    (execute_action env engine ecs on_time "inc_1" supervised (world investigating)
      ≡ (err (http 423 "autonomous mode is disabled by kill switch"), world investigating))
    × Untouched (world investigating) (world investigating)
execute_action-refused_example =
    execute_action-refused env engine ecs on_time "inc_1" supervised (world investigating) refused

abbrev no_result : ActionResult
no_result = record {
  action_id = "";
  success = false;
  status_message = "";
  started_at = 0;
  finished_at = 0;
  rollback_action = none;
}

abbrev acted : ActionResult × IncidentRecord
acted =
    value_or
      (act env engine ecs on_time "inc_1" action (incident investigating) (world investigating)).0
      (no_result, incident investigating)

act-dry_run_example :
    ((acted.1).state ≡ resolved)
    × ((acted.1).final_resolution
        ≡ some "Dry-run completed; incident remains open until a verified execution runs.")
unfolding act lookup trace_entry fresh_id utcnow run_agent execute claim perform run_with_retries
    attempts run can_access_target are_valid_parameters append_audit settle post_verify
    verify_action_recovery conclude insert lower lower_char ActionType-discrete
act-dry_run_example =
    act-dry_run env engine ecs on_time "inc_1" action (incident investigating) (world investigating)
      refl refl refl

abbrev waiting_grant : Grant
waiting_grant = record grant { incident = incident waiting_approval }

abbrev acted_waiting : ActionResult × IncidentRecord
acted_waiting =
    value_or
      (act env engine ecs on_time "inc_1" action (incident waiting_approval)
        (world waiting_approval)).0
      (no_result, incident waiting_approval)

abbrev world_behind : World
world_behind =
    (act env engine ecs on_time "inc_1" action (incident waiting_approval)
      (world waiting_approval)).1

run_authorised-waiting_example :
    (run_authorised env engine ecs on_time "inc_1" payload waiting_grant (world waiting_approval)
      ≡ (err value_error, world_behind))
    × (world_behind.incidents ≡ (world waiting_approval).incidents)
unfolding act effective_dry_run lookup trace_entry fresh_id utcnow run_agent execute claim perform
    run_with_retries attempts run can_access_target are_valid_parameters append_audit settle
    post_verify verify_action_recovery conclude insert lower lower_char ActionType-discrete
run_authorised-waiting_example =
    run_authorised-waiting env engine ecs on_time "inc_1" payload waiting_grant
      (world waiting_approval) {done = acted_waiting} {row = incident waiting_approval} refl refl
      refl refl refl

opens : Opens (incident investigating) payload 1 approval
opens = record {
  named = refl;
  first = refl;
  approved = refl;
  token = refl;
  alive = omega arith;
  granted = 1;
  versioned = refl;
  recent = omega arith;
  same_action = refl;
  same_step = refl;
}

admits : Admits env engine "inc_1" payload (world investigating) grant
unfolding lookup evaluate checks target_allowed ActionType-discrete lower lower_char
admits = record {
  found = refl;
  has_plan = refl;
  current = refl;
  free = refl;
  supervised = refl;
  decided = refl;
  allowed = refl;
  opened = λ _. (approval, opens);
}

authorise-Admits_example :
    authorise env engine "inc_1" payload (world investigating)
    ≡ (ok grant, behind true (world investigating))
authorise-Admits_example =
    authorise-Admits env engine "inc_1" payload (world investigating) grant admits
