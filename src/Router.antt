-- ===== src/Router.antt =====
-- apps/api/routers/router/hybrid_router.py: the next step of an investigation, by rules and, where it is
-- switched on, by a language model, whose answer is a parameter.
mod Intents
pub mod Laws
pub mod Tests
unfoldable pub use Intents.*
use ai_assisted_aws_incident.Prelude.{
  ℕ, Bool, true, false, not, ◌&&◌, ◌||◌, String, Option, none, some, List, [], ◌∷◌, ◌++◌, ◌==◌,
  is_empty, is_some, any, select, contains, lower, or_list, or_text, if◌then◌else◌, holds, map,
}
use ai_assisted_aws_incident.Value.{Value, Fields, end, field, text, get, get_or}
use ai_assisted_aws_incident.Contracts.{
  ActionType, ActionType-discrete, EvidenceEntry, IncidentRecord, PolicyClass, ResponsePlan,
  RouterDecision, ToolPlan, ToolPlanItem, query_metrics, query_logs, get_recent_deployments,
  get_topology, read_only,
}
use ai_assisted_aws_incident.Plans.{match_response_plan}
use ai_assisted_aws_incident.Environ.{Environ, env_flag, str_of}
use ai_assisted_aws_incident.Policy.{is_read_only}
use ai_assisted_aws_incident.Planner.{is_caught}
use ai_assisted_aws_incident.World.{
  World, Action, Failure, Result, ok, err, pure, utcnow, fresh_id, ◌>>=◌, ◌>>◌,
}

-- `RouterLLMOutput`
pub record RouterOutput : Type 0 where
  pub next_workflow : String
  pub investigate_only : Bool
  pub decision_confidence : ℕ
  pub stop_reason : Option String

-- An item of a tool plan, and no item for another key.
abbrev pub tool_item : String → String → String → List ToolPlanItem
tool_item resource service key =
    let parameters = field "service" (text service) end in
    if key == "metrics"
    then record {
      tool = query_metrics;
      target = resource;
      parameters = parameters;
      reason = "metrics_intent";
    }
      ∷ []
    else if key == "logs"
    then record {
      tool = query_logs;
      target = resource;
      parameters = parameters;
      reason = "logs_intent";
    }
      ∷ []
    else if key == "recent_changes"
    then record {
      tool = get_recent_deployments;
      target = resource;
      parameters = parameters;
      reason = "deployments_intent";
    }
      ∷ []
    else if key == "topology"
    then record {
      tool = get_topology;
      target = resource;
      parameters = parameters;
      reason = "topology_intent";
    }
      ∷ []
    else []

abbrev pub tool_items : String → String → List String → List ToolPlanItem
tool_items resource service [] = []
tool_items resource service (key ∷ keys) =
    tool_item resource service key ++ tool_items resource service keys

-- Whether a block holds `"hypothesis"` or `"confidence"`.
abbrev pub is_hypothesis : Fields → Bool
is_hypothesis h = is_some (get "hypothesis" h) || is_some (get "confidence" h)

abbrev pub is_change : EvidenceEntry → Bool
is_change e = e.source == "change-correlation"

-- The outcome of the rules: the step, the reason to stop, and the rule that is added.
pub record Choice : Type 0 where
  pub step : String
  pub reason : Option String
  pub rules : List String

-- The branch behind a complete investigation.
unfoldable pub final_choice : Bool → String → String → Choice
final_choice investigate_only incident_type priority =
    if investigate_only || priority == "p3"
    then record {
      step = "stop";
      reason = some "investigate_only_or_read_only";
      rules = "read_only_investigate" ∷ [];
    }
    else if incident_type == "performance" && (priority == "p1" || priority == "p2")
    then record { step = "planner"; reason = none; rules = "performance_escalate_plan" ∷ [] }
    else record { step = "stop"; reason = some "baseline_complete"; rules = [] }

abbrev pub go_to : String → Choice
go_to step = record { step = step; reason = none; rules = [] }

-- The chain of tests of `_deterministic_next_step`.
unfoldable pub choose : IncidentRecord → Bool → String → String → Choice
choose incident investigate_only incident_type priority =
    if is_empty incident.hypotheses
    then go_to "triage"
    else if is_empty incident.evidence
    then go_to "evidence"
    else if not (any is_change incident.evidence)
    then go_to "change"
    else if not (any is_hypothesis incident.hypotheses)
    then go_to "rca"
    else final_choice investigate_only incident_type priority

abbrev pub is_reason : Option String → String → Bool
is_reason none r = false
is_reason (some s) r = s == r

module _ (env : Environ) where
  -- `RouterDecision(…)` with its fresh id and time, and its tool plan with its own.
  unfoldable pub decision_of :
      IncidentRecord → ResponsePlan → Choice → List String → Action RouterDecision
  decision_of incident plan c intents = do
    plan_id ← fresh_id env "tp_" 10
    planned ← utcnow env
    id ← fresh_id env "rd_" 10
    now ← utcnow env
    pure (record {
      decision_id = id;
      next_workflow = c.step;
      allowed_actions = plan.allowed_actions;
      stop_reason = c.reason;
      decision_confidence = if not (c.step == "stop") then 9200 else 7500;
      rule_ids_applied = "deterministic_base" ∷ c.rules;
      investigate_only =
          is_read_only plan.policy_class && is_reason c.reason "investigate_only_or_read_only";
      tool_plan = some (record {
        plan_id = plan_id;
        items = tool_items incident.metadata.resource incident.metadata.service intents;
        created_at = planned;
      });
      created_at = now;
    })

  -- `_deterministic_next_step`
  unfoldable pub deterministic_next_step : IncidentRecord → ResponsePlan → Action RouterDecision
  deterministic_next_step incident plan = do
    let triage = triage_of incident.hypotheses
    let incident_type = lower (str_of env (get_or "incident_type" (text "") triage))
    let priority = lower (str_of env (get_or "priority" (text "p2") triage))
    intents ← normalize_evidence_intents (get "next_required_evidence" triage)
    decision_of incident plan
        (choose incident (is_read_only plan.policy_class) incident_type priority) intents

  -- The rules' decision under the model's answer.
  abbrev pub merge_output : RouterOutput → RouterDecision → RouterDecision
  merge_output out d = record d {
    next_workflow = or_text out.next_workflow d.next_workflow;
    investigate_only = out.investigate_only;
    decision_confidence = out.decision_confidence;
    stop_reason = or_reason out.stop_reason d.stop_reason;
    rule_ids_applied = d.rule_ids_applied ++ "llm_router" ∷ [];
  }

  -- What becomes of the end of the call: its answer, or the rules' decision when a failure is caught.
  unfoldable pub or_rules :
      RouterDecision → Result RouterOutput × World → Result RouterDecision × World
  or_rules d (ok out, w) = (ok (merge_output out d), w)
  or_rules d (err e, w) = if is_caught e then (ok d, w) else (err e, w)

  -- `compute_router_decision`
  unfoldable pub compute_router_decision :
      (IncidentRecord → ResponsePlan → RouterDecision → Action RouterOutput)
      → IncidentRecord
      → ResponsePlan
      → Action RouterDecision
  compute_router_decision llm incident plan = do
    d ← deterministic_next_step incident plan
    if env_flag env "ROUTER_LLM_ENABLED" "false" && env.agent.agentic_enabled
        then (λ w. or_rules d (llm incident plan d w))
        else pure d

-- `merge_router_allowed_with_plan`
unfoldable pub merge_router_allowed_with_plan : RouterDecision → ResponsePlan → RouterDecision
merge_router_allowed_with_plan d plan = record d {
  allowed_actions =
      or_list (select (λ a. contains ActionType-discrete a plan.allowed_actions) d.allowed_actions)
        plan.allowed_actions;
}
