-- ===== src/Planner.antt =====
-- `RemediationPlannerAgent` of src/agents/planner/agent.py. The answer of the language model is a
-- parameter; the text of the prompt is left out.
pub mod Laws
pub mod Keeps
pub mod Tests
use ai_assisted_aws_incident.Prelude.{
  ◌++◌, ℕ, zero, suc, Bool, true, false, not, ◌&&◌, ◌||◌, String, Option, none, some, List, [], ◌∷◌,
  ◌==◌, is_empty, or_list, or_text, contains, has_part, lower, concat, if◌then◌else◌,
}
use ai_assisted_aws_incident.Value.{Fields, end, field, text, int, pos}
use ai_assisted_aws_incident.Contracts.{
  ActionGraph, ActionRequest, ActionType, ActionType-discrete, IncidentRecord, PlanStep,
  ResponsePlan, action_of_value, action_value, rollback_deployment, drain_node, run_ansible_job,
  restart_service, scale_workload,
}
use ai_assisted_aws_incident.Environ.{Environ, env_flag}
use ai_assisted_aws_incident.World.{
  World, Action, Failure, Result, ok, err, structured_llm_error, http_error, timed_out, raise, pure,
  fresh_id, ◌>>=◌, ◌>>◌,
}

-- `PlannerLLMOutput` of src/agents/planner/schemas.py
pub record PlannerOutput : Type 0 where
  pub objective : String
  pub prerequisites : List String
  pub safety_checks : List String
  pub rollback_plan : List String
  pub blast_radius : String
  pub success_signal : String
  pub action_type_names : List String
  pub planner_confidence : ℕ

-- `except (StructuredLLMError, OSError, httpx.HTTPError, httpx.RequestError)`
abbrev pub is_caught : Failure → Bool
is_caught structured_llm_error = true
is_caught http_error = true
is_caught timed_out = true
is_caught _ = false

abbrev pub high_risk : List ActionType
high_risk = rollback_deployment ∷ drain_node ∷ run_ansible_job ∷ []

module _ (env : Environ) where
  -- `ActionRequest(…)` with its fresh id; the timeout is the default.
  unfoldable pub propose : ActionType → String → Fields → String → Action ActionRequest
  propose kind target parameters key = do
    id ← fresh_id env "act_" 8
    pure (record {
      action_id = id;
      action_type = kind;
      target = target;
      parameters = parameters;
      idempotency_key = key;
      dry_run = env_flag env "PLANNER_DEFAULT_DRY_RUN" "true";
      timeout_seconds = 120;
    })

  -- One step of the plan.
  unfoldable pub plan_step : ℕ → ActionRequest → Action PlanStep
  plan_step order a = do
    let risky = contains ActionType-discrete a.action_type high_risk
    id ← fresh_id env "ps_" 8
    pure (record {
      step_id = id;
      order = order;
      action_ref_id = some a.action_id;
      preconditions = [];
      verification_signal = "metrics_stable";
      rollback_hint = if risky then some "rollback_plan" else none;
      execute_intent = "execute";
      risk_tier = if risky then "high" else "medium";
    })

  -- `_build_plan_steps`, with the number of the first step
  unfoldable pub build_plan_steps : ℕ → List ActionRequest → Action (List PlanStep)
  build_plan_steps order [] = pure []
  build_plan_steps order (a ∷ rest) = do
    s ← plan_step order a
    steps ← build_plan_steps (suc order) rest
    pure (s ∷ steps)

  -- The parameters `{"service": incident.metadata.service}`
  abbrev pub service_only : IncidentRecord → Fields
  service_only incident = field "service" (text incident.metadata.service) end

  -- One round of `_clamp_actions`: an unknown name and an action that is not allowed are dropped.
  unfoldable pub clamp_action :
      IncidentRecord → List ActionType → String → Action (List ActionRequest)
  clamp_action incident allowed raw = elim (action_of_value raw) [
    | none ↦ pure []
    | some kind ↦
        if contains ActionType-discrete kind allowed
        then (do
          a ←
              propose kind incident.metadata.resource (service_only incident)
                (concat (incident.incident_id ∷ ":" ∷ action_value kind ∷ []))
          pure (a ∷ []))
        else pure []
  ]

  -- `_clamp_actions`
  unfoldable pub clamp_actions :
      IncidentRecord → List String → List ActionType → Action (List ActionRequest)
  clamp_actions incident [] allowed = pure []
  clamp_actions incident (raw ∷ rest) allowed = do
    first ← clamp_action incident allowed raw
    more ← clamp_actions incident rest allowed
    pure (first ++ more)

  -- The candidates of `_stub_graph`.
  unfoldable pub stub_actions : IncidentRecord → Action (List ActionRequest)
  stub_actions incident =
      let service = text incident.metadata.service in
      if incident.metadata.service == "checkout-service"
        && has_part "deployment" (lower incident.metadata.symptom)
      then (do
        a ←
            propose rollback_deployment incident.metadata.resource
              (field "service" service (
                field "deployment" (text "checkout-service")
                  (field "to_revision" (text "checkout-r42") end)))
              (concat (incident.incident_id ∷ ":rollback:checkout-r42" ∷ []))
        pure (a ∷ []))
      else do
        a ←
            propose restart_service incident.metadata.resource (service_only incident)
              (concat (incident.incident_id ∷ ":restart" ∷ []))
        b ←
            propose scale_workload incident.metadata.resource
              (field "service" service (field "maxReplicas" (int (pos 5)) end))
              (concat (incident.incident_id ∷ ":scale" ∷ []))
        pure (a ∷ b ∷ [])

  -- `_stub_graph`, with the incident that it writes to
  unfoldable pub stub_graph : IncidentRecord → Action (ActionGraph × IncidentRecord)
  stub_graph incident = do
    actions ← stub_actions incident
    steps ← build_plan_steps 0 actions
    pure (
      record {
        objective = "Restore service stability while minimizing blast radius";
        prerequisites = "Recent backup validated" ∷ "Operator channel notified" ∷ [];
        safety_checks = "Confirm target allowlist" ∷ "Confirm error rate threshold" ∷ [];
        rollback_plan = "Roll back deployment" ∷ "Scale down to prior size" ∷ "Page human" ∷ [];
        blast_radius = "single service";
        success_signal = "Error rate and CPU return below threshold for 10 minutes";
        actions = actions;
        plan_steps = steps;
        graph_version = "v1";
      },
      record incident { last_planner_confidence = 9200 },
    )

  -- The graph of the model's answer.
  abbrev pub graph_of : PlannerOutput → List ActionRequest → List PlanStep → ActionGraph
  graph_of out actions steps = record {
    objective = or_text out.objective "Restore service stability while minimizing blast radius";
    prerequisites = or_list out.prerequisites ("Recent backup validated" ∷ []);
    safety_checks = or_list out.safety_checks ("Confirm target allowlist" ∷ []);
    rollback_plan = or_list out.rollback_plan ("Roll back deployment" ∷ "Page human" ∷ []);
    blast_radius = out.blast_radius;
    success_signal = or_text out.success_signal "Error rate and CPU return below threshold";
    actions = actions;
    plan_steps = steps;
    graph_version = "v1";
  }

  module _ (llm : IncidentRecord → List ActionType → Action PlannerOutput) where
    -- The body of the `try`.
    unfoldable pub ask_llm :
        IncidentRecord → List ActionType → Action (ActionGraph × IncidentRecord)
    ask_llm incident allowed = do
      out ← llm incident allowed
      let marked = record incident { last_planner_confidence = out.planner_confidence }
      actions ← clamp_actions marked out.action_type_names allowed
      if is_empty actions
          then (if env.agent.agentic_stub_fallback
              then stub_graph marked
              else raise structured_llm_error)
          else do steps ← build_plan_steps 0 actions; pure (graph_of out actions steps, marked)

    -- What the `except` clause makes of the end of the `try`.
    unfoldable pub or_stub :
        IncidentRecord
        → Result (ActionGraph × IncidentRecord) × World
        → Result (ActionGraph × IncidentRecord) × World
    or_stub incident (ok done, w) = (ok done, w)
    or_stub incident (err e, w) =
        if is_caught e && env.agent.agentic_stub_fallback then stub_graph incident w else (err e, w)

    -- `run` under a response plan
    unfoldable pub plan_under :
        IncidentRecord → ResponsePlan → Action (ActionGraph × IncidentRecord)
    plan_under incident plan w =
        if env.agent.agentic_enabled
        then or_stub incident (ask_llm incident plan.allowed_actions w)
        else stub_graph incident w

    -- `run`
    unfoldable pub run : IncidentRecord → Action (ActionGraph × IncidentRecord)
    run incident = elim incident.response_plan [
      | none ↦
          if env.agent.agentic_enabled && not env.agent.agentic_stub_fallback
          then raise structured_llm_error
          else stub_graph incident
      | some plan ↦ plan_under incident plan
    ]
