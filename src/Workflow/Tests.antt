-- ===== src/Workflow/Tests.antt =====
-- Routes of the incident with agents that find nothing.
use ai_assisted_aws_incident.Workflow.Loop.{
  dispatch, and_store, and_leave, hold_back, index_incident_snippet, note, persist_decision, follow,
  decide, round, rounds,
}
use ai_assisted_aws_incident.Prelude.{
  inl, ◌≡◌, refl, true, false, none, [], ◌∷◌, arith, lower, lower_char, strip, strip_left,
  strip_right, is_space,
}
use ai_assisted_aws_incident.Value.{end}
use ai_assisted_aws_incident.Contracts.{
  ActionGraph, EvidenceEntry, IncidentRecord, IncidentState-discrete, ActionType-discrete,
  investigating, opened,
}
use ai_assisted_aws_incident.Plans.{checkout_plan}
use ai_assisted_aws_incident.Dict.{lookup, insert}
use ai_assisted_aws_incident.HotState.{is_token, active, set_text}
use ai_assisted_aws_incident.Planner.{
  run, plan_under, stub_graph, stub_actions, propose, build_plan_steps, plan_step,
}
use ai_assisted_aws_incident.Router.{
  compute_router_decision, deterministic_next_step, normalize_evidence_intents, decision_of, choose,
  triage_of, merge_router_allowed_with_plan,
}
use ai_assisted_aws_incident.Store.{upsert, bump, is_invalid, may_follow, get}
use ai_assisted_aws_incident.Execute.{trace_entry}
use ai_assisted_aws_incident.World.{
  with_budget, World, value_error, structured_llm_error, err, pure, raise, fresh_id, utcnow,
  append_audit,
}
use ai_assisted_aws_incident.Workflow.{Agents, write_checkpoint, triage_step}
use ai_assisted_aws_incident.Workflow.Routes.{route_incident, create_plan, lock_key}
use ai_assisted_aws_incident.Workflow.Keeps.{KeepsRecords}
use ai_assisted_aws_incident.Workflow.Laws.{Grown, rounds-Grown}
use ai_assisted_aws_incident.Workflow.Locking.{
  token_of, route_incident-releases, create_plan-refused,
}
use ai_assisted_aws_incident.Samples.{env, world, incident, graph, value_or}

abbrev entry : EvidenceEntry
entry = record {
  evidence_id = "ev_1";
  source = "change-correlation";
  kind = "change";
  confidence = 9000;
  summary = "";
  reference = none;
  created_at = 0;
}

abbrev agents : Agents
agents = record {
  triage = λ _. pure end;
  evidence = λ i. pure ([], i);
  change = λ _. pure entry;
  rca = λ _. pure [];
  router_llm = λ _ _ _. raise structured_llm_error;
  planner_llm = λ _ _. raise structured_llm_error;
  checkpoint = end;
}

agents-KeepsRecords : KeepsRecords agents
agents-KeepsRecords = record { records = λ i w h. ground arith }

abbrev here : World
here = world investigating

-- The incident behind one round of the loop.
abbrev looped : IncidentRecord
looped =
    value_or (rounds env agents checkout_plan 1 (incident investigating) here).0 (incident opened)

rounds-Grown_example : Grown checkout_plan 1 (incident investigating) looped
unfolding rounds round decide follow compute_router_decision deterministic_next_step
    normalize_evidence_intents triage_of decision_of fresh_id utcnow lower persist_decision
    append_audit note trace_entry index_incident_snippet strip hold_back
    merge_router_allowed_with_plan choose ActionType-discrete IncidentState-discrete insert lookup
    set_text is_space lower_char strip_left strip_right is_invalid may_follow bump get upsert
    and_leave and_store dispatch write_checkpoint triage_step
rounds-Grown_example =
    rounds-Grown env agents agents-KeepsRecords checkout_plan 1 (incident investigating) here refl

-- The world in which a route of the incident goes on.
abbrev routed : World
routed = record here {
  hot = record {
    up = true;
    seconds = 0;
    remote = ("incident_lock:inc_1", "token_0") ∷ [];
    deadlines = ("incident_lock:inc_1", 30) ∷ [];
    fallback = [];
  };
}

route_incident-releases_example :
    is_token
      (lookup (lock_key "inc_1") (active (route_incident env agents "inc_1" here).1.hot))
      (token_of env here)
    ≡ false
unfolding lookup
route_incident-releases_example = route_incident-releases env agents "inc_1" here refl

abbrev planned : ActionGraph × IncidentRecord
planned =
    value_or (with_budget env (run env agents.planner_llm (incident opened)) (world opened)).0
      (graph, incident opened)

create_plan-refused_example : create_plan env agents "inc_1" (world opened) ≡ (
  err value_error,
  (with_budget env (run env agents.planner_llm (incident opened)) (world opened)).1,
)
unfolding with_budget lookup run plan_under stub_graph stub_actions propose fresh_id
    build_plan_steps plan_step lower lower_char
create_plan-refused_example =
    create_plan-refused env agents "inc_1" (world opened) {found = incident opened} {done = planned}
      {row = incident opened} refl refl refl (inl refl)
