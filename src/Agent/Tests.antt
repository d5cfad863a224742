-- ===== src/Agent/Tests.antt =====
-- The decision loop of the program's agents, and the plan of an incident of the checkout service.
use ai_assisted_aws_incident.Execute.{trace_entry}
use ai_assisted_aws_incident.Store.{upsert, bump, is_invalid, may_follow, get}
use ai_assisted_aws_incident.Router.{
  compute_router_decision, deterministic_next_step, normalize_evidence_intents, decision_of, choose,
  triage_of, merge_router_allowed_with_plan,
}
use ai_assisted_aws_incident.HotState.{set_text}
use ai_assisted_aws_incident.Dict.{lookup, insert}
use ai_assisted_aws_incident.Prelude.{
  lower, lower_char, strip, strip_left, strip_right, is_space, ◌≡◌, refl, some, none,
}
use ai_assisted_aws_incident.Value.{end, pos}
use ai_assisted_aws_incident.Contracts.{
  IncidentState-discrete, ActionType-discrete, IncidentRecord, opened, investigating,
}
use ai_assisted_aws_incident.Plans.{match_response_plan}
use ai_assisted_aws_incident.Environ.{Environ}
use ai_assisted_aws_incident.Llm.{Chat}
use ai_assisted_aws_incident.Telemetry.Aws.{AwsClients}
use ai_assisted_aws_incident.Adapters.{answered}
use ai_assisted_aws_incident.World.{Result, ok, fresh_id, utcnow, append_audit, World}
use ai_assisted_aws_incident.Workflow.{max_iterations, write_checkpoint, triage_step, Agents}
use ai_assisted_aws_incident.Workflow.Loop.{
  dispatch, and_store, and_leave, hold_back, index_incident_snippet, note, persist_decision, follow,
  decide, round, rounds, run_decision_loop_route,
}
use ai_assisted_aws_incident.Workflow.Laws.{Grown}
use ai_assisted_aws_incident.Agent.{run_triage, stub_triage, Schemas}
use ai_assisted_aws_incident.Agent.Program.{program_agents}
use ai_assisted_aws_incident.Agent.Laws.{run_decision_loop_route-Grown}
use ai_assisted_aws_incident.Samples.{env, incident, world, value_or}

-- Nothing answers: the language model is off, and the collectors are the local ones.
abbrev schemas : Schemas
schemas = record {
  triage_output = λ _. none;
  evidence_output = λ _. none;
  change_output = λ _. none;
  rca_output = λ _. none;
  planner_output = λ _. none;
  router_output = λ _. none;
}

abbrev silent : Chat
silent = record { answer = λ _ _. none }

abbrev clients : AwsClients
clients = record {
  get_metric_data = λ _. answered end;
  filter_log_events = λ _. answered end;
  describe_services = λ _ _. answered end;
  show_error = λ _. "";
}

abbrev short : Environ
short = record env { int_of = λ _. some (pos 1) }

abbrev short_agents : Agents
short_agents = program_agents short clients silent schemas

abbrev route : Result IncidentRecord × World
route = run_decision_loop_route short short_agents (incident investigating) (world investigating)

abbrev looped : IncidentRecord
looped = value_or route.0 (incident opened)

one_round : (u : World) → max_iterations short u ≡ (ok 1, u)
unfolding max_iterations
one_round u = refl

run_decision_loop_route-Grown_example :
    Grown
      (match_response_plan "sev3" "checkout deployment errors")
      1
      (incident investigating)
      looped
unfolding rounds round decide follow compute_router_decision deterministic_next_step
    normalize_evidence_intents triage_of decision_of fresh_id utcnow lower persist_decision
    append_audit note trace_entry index_incident_snippet strip hold_back
    merge_router_allowed_with_plan choose ActionType-discrete IncidentState-discrete insert lookup
    set_text is_space lower_char strip_left strip_right is_invalid may_follow bump get upsert
    and_leave and_store dispatch write_checkpoint triage_step match_response_plan
    run_decision_loop_route max_iterations run_triage stub_triage
run_decision_loop_route-Grown_example =
    run_decision_loop_route-Grown short clients silent schemas (incident investigating)
      (world investigating) {n = 1} {j = looped} {v = route.1} one_round refl
