-- ===== src/Agent/Prompts.antt =====
-- The user prompts: `_format_user` of the agents in src/agents, that of `EvidenceAgent.run`, and that of
-- `compute_router_decision` in apps/api/routers/router/hybrid_router.py. Python's `str` of a list and of a dict
-- is that of the environment.
use ai_assisted_aws_incident.Prelude.{
  String, Option, none, some, or_else, List, [], ◌∷◌, map, concat, contains, join_lines,
  if◌then◌else◌,
}
use ai_assisted_aws_incident.Value.{Fields, end, field, text, list, dict, text_items}
use ai_assisted_aws_incident.Contracts.{
  ActionType, ActionType-discrete, EvidenceEntry, IncidentRecord, ResponsePlan, RouterDecision,
  action_value, class_value,
}
use ai_assisted_aws_incident.Environ.{Environ}
use ai_assisted_aws_incident.Memory.{search_incident_memory}
use ai_assisted_aws_incident.Report.Order.{sorted}
use ai_assisted_aws_incident.World.{World}
use ai_assisted_aws_incident.Agent.Common.{Raw}

-- `f"{name}={value}\n"`
abbrev line : String → String → String
line name value = concat (name ∷ "=" ∷ value ∷ "\n" ∷ [])

-- `TriageAgent._format_user`
unfoldable pub triage_user : IncidentRecord → String
triage_user incident =
    let m = incident.metadata in
    concat (
      line "incident_id" incident.incident_id
      ∷ line "severity" m.severity
      ∷ line "service" m.service
      ∷ line "resource" m.resource
      ∷ line "symptom" m.symptom
      ∷ line "source" m.source
      ∷ [])

abbrev evidence_line : EvidenceEntry → String
evidence_line ev =
    concat
      ("evidence_id=" ∷ ev.evidence_id ∷ " source=" ∷ ev.source ∷ " summary=" ∷ ev.summary ∷ [])

-- `RCAAgent._format_user`
unfoldable pub rca_user : IncidentRecord → String
rca_user incident = join_lines (
    concat ("incident_id=" ∷ incident.incident_id ∷ [])
    ∷ concat ("symptom=" ∷ incident.metadata.symptom ∷ [])
    ∷ map evidence_line incident.evidence)

-- `ChangeCorrelationAgent._format_user`
unfoldable pub change_user : IncidentRecord → String → String
change_user incident raw_deployments =
    let m = incident.metadata in
    concat (
      line "incident_id" incident.incident_id
      ∷ line "symptom" m.symptom
      ∷ line "service" m.service
      ∷ line "resource" m.resource
      ∷ line "deployment_text" raw_deployments
      ∷ [])

abbrev item : String → Option String → Fields → Fields
item key none rest = rest
item key (some v) rest = field key (text v) rest

-- `{k: v for k, v in raw.items() if k not in ("metrics", "logs")}`
abbrev other_fields : Raw → Fields
other_fields raw = item "recent_changes" raw.recent_changes (item "topology" raw.topology end)

-- The prompt of `EvidenceAgent.run`
unfoldable pub evidence_user : Environ → IncidentRecord → List String → Raw → String
evidence_user env incident intents raw =
    let m = incident.metadata in
    concat (
      line "service" m.service
      ∷ line "resource" m.resource
      ∷ line "intents" (env.render (list (text_items intents)))
      ∷ line "metrics" (or_else raw.metrics "")
      ∷ line "logs" (or_else raw.logs "")
      ∷ line "other" (env.render (dict (other_fields raw)))
      ∷ [])

-- `set(allowed)`, whose order no one reads
abbrev distinct : List ActionType → List ActionType
distinct [] = []
distinct (a ∷ actions) =
    let rest = distinct actions in if contains ActionType-discrete a rest then rest else a ∷ rest

-- `RemediationPlannerAgent._format_user`, on the memory that it searches
unfoldable pub planner_user : Environ → IncidentRecord → List ActionType → World → String
planner_user env incident allowed w =
    let allowed_names = sorted (λ name. name) (map action_value (distinct allowed)) in
    let mem = search_incident_memory env incident.incident_id incident.metadata.symptom 3 w in
    concat (
      line "incident_id" incident.incident_id
      ∷ line "symptom" incident.metadata.symptom
      ∷ line "allowed_action_types" (env.render (list (text_items allowed_names)))
      ∷ "working_memory=\n"
      ∷ join_lines mem
      ∷ "\n"
      ∷ [])

-- The prompt of `compute_router_decision`
unfoldable pub router_user : IncidentRecord → ResponsePlan → RouterDecision → String
router_user incident base_plan decision = concat (
    line "severity" incident.metadata.severity
    ∷ line "symptom" incident.metadata.symptom
    ∷ line "policy_class" (class_value base_plan.policy_class)
    ∷ line "deterministic_next" decision.next_workflow
    ∷ [])
