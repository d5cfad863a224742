-- ===== src/Planner/Tests.antt =====
-- Plans of the rollback.
use ai_assisted_aws_incident.Planner.{
  ask_llm, propose, or_stub, plan_under, plan_step, stub_actions, clamp_action, PlannerOutput,
  clamp_actions, run, stub_graph, build_plan_steps,
}
use ai_assisted_aws_incident.Prelude.{
  ◌≡◌, refl, true, false, String, List, [], ◌∷◌, All, contains, is_empty,
}
use ai_assisted_aws_incident.Contracts.{
  ActionGraph, ActionRequest, ActionType, ActionType-discrete, IncidentRecord, PlanStep,
  investigating,
}
use ai_assisted_aws_incident.Plans.{checkout_plan, generic_plan}
use ai_assisted_aws_incident.Environ.{Environ}
use ai_assisted_aws_incident.World.{World, Action, pure, fresh_id}
use ai_assisted_aws_incident.Planner.Laws.{Follows, run-strict, stub_graph-disallowed}
use ai_assisted_aws_incident.Samples.{
  env, environ_with, agent_settings, envelope, world, incident, graph, action, value_or,
}

abbrev here : World
here = world investigating

abbrev steps : List PlanStep
steps = value_or (build_plan_steps env 0 (action ∷ []) here).0 []

-- A name that the plan allows, one that it denies, and one that is no action.
abbrev asked : List String
asked = "RollbackDeployment" ∷ "RunShell" ∷ "Reboot" ∷ []

abbrev clamped : List ActionRequest
clamped =
    value_or (clamp_actions env (incident investigating) asked checkout_plan.allowed_actions here).0
      []

-- The language model switched on, without the fallback.
abbrev strict_env : Environ
strict_env = environ_with (agent_settings true false)

abbrev llm : IncidentRecord → List ActionType → Action PlannerOutput
llm _ _ = pure (record {
  objective = "restore";
  prerequisites = [];
  safety_checks = [];
  rollback_plan = [];
  blast_radius = "single service";
  success_signal = "";
  action_type_names = asked;
  planner_confidence = 9000;
})

abbrev planned : ActionGraph × IncidentRecord
planned =
    value_or (run strict_env llm (incident investigating) here).0 (graph, incident investigating)

run-strict_example :
    (is_empty planned.0.actions ≡ false)
    × All
        (λ a. contains ActionType-discrete a.action_type checkout_plan.allowed_actions ≡ true)
        planned.0.actions
    × Follows 0 planned.0.actions planned.0.plan_steps
unfolding run plan_under or_stub ask_llm clamp_actions clamp_action propose fresh_id
    build_plan_steps plan_step ActionType-discrete
run-strict_example =
    run-strict strict_env llm (incident investigating) checkout_plan here refl refl refl refl

-- An incident of another service.
abbrev other_incident : IncidentRecord
other_incident = record (incident investigating) {
  metadata = record envelope { service = "billing" };
}

abbrev stubbed : ActionGraph × IncidentRecord
stubbed = value_or (stub_graph env other_incident here).0 (graph, other_incident)

stub_graph-disallowed_example :
    (is_empty stubbed.0.actions ≡ false)
    × All
        (λ a. contains ActionType-discrete a.action_type generic_plan.allowed_actions ≡ false)
        stubbed.0.actions
unfolding stub_graph stub_actions propose fresh_id build_plan_steps plan_step
stub_graph-disallowed_example = stub_graph-disallowed env other_incident here refl refl
