-- ===== src/Contracts/Incident.antt =====
-- The incident record of src/domain/contracts/models.py.
use ai_assisted_aws_incident.Prelude.{ℕ, Bool, String, Option, none, List, [], ◌∷◌, ◌++◌}
use ai_assisted_aws_incident.Value.{Fields}
use ai_assisted_aws_incident.Contracts.Kinds.{ActionType, IncidentState, opened}
use ai_assisted_aws_incident.Contracts.Plan.{
  EvidenceEntry, ApprovalRecord, ActionResult, ActionGraph, RouterDecision, ResponsePlan,
}

pub record DecisionRecord : Type 0 where
  pub record_id : String
  pub iteration : ℕ
  pub router_decision : Option RouterDecision
  pub step_executed : Option String
  pub policy_decision_id : Option String
  pub notes : String
  pub created_at : ℕ

pub record ExecutionTraceEntry : Type 0 where
  pub trace_id : String
  pub phase : String
  pub action_id : Option String
  pub success : Option Bool
  pub message : String
  pub replan_requested : Bool
  pub created_at : ℕ

pub record ExecutionTrace : Type 0 where
  pub entries : List ExecutionTraceEntry

pub record HypothesisLink : Type 0 where
  pub hypothesis_id : String
  pub text : String
  pub confidence : ℕ
  pub supporting_evidence_ids : List String
  pub related_action_ids : List String

pub record IncidentEnvelope : Type 0 where
  pub version : String
  pub source : String
  pub severity : String
  pub service : String
  pub resource : String
  pub symptom : String
  pub occurred_at : ℕ
  pub dedupe_key : String
  pub raw_payload_ref : Option String

pub record IncidentRecord : Type 0 where
  pub incident_id : String
  pub metadata : IncidentEnvelope
  pub state : IncidentState
  pub hypotheses : List Fields
  pub evidence : List EvidenceEntry
  pub tools_used : List ActionType
  pub blocked_actions : List ActionType
  pub allowed_actions : List ActionType
  pub response_plan : Option ResponsePlan
  pub agent_path : List String
  pub approvals : List ApprovalRecord
  pub executed_actions : List ActionResult
  pub final_diagnosis : Option String
  pub final_resolution : Option String
  pub lessons_learned : List String
  pub pending_action_graph : Option ActionGraph
  pub pending_approval_action_id : Option String
  pub pending_plan_step_id : Option String
  pub latest_router_decision : Option RouterDecision
  pub decision_records : List DecisionRecord
  pub execution_trace : ExecutionTrace
  pub hypothesis_links : List HypothesisLink
  pub workflow_iteration : ℕ
  pub control_plane_version : String
  pub decision_schema_version : String
  pub last_planner_confidence : ℕ
  pub evidence_coverage_score : ℕ
  pub version : ℕ
  pub created_at : ℕ
  pub updated_at : ℕ

-- `IncidentRecord(incident_id=…, metadata=…)`: every other field has its default. `now` is the
-- time of the two `default_factory` calls.
unfoldable pub new_incident : String → IncidentEnvelope → ℕ → IncidentRecord
new_incident id envelope now = record {
  incident_id = id;
  metadata = envelope;
  state = opened;
  hypotheses = [];
  evidence = [];
  tools_used = [];
  blocked_actions = [];
  allowed_actions = [];
  response_plan = none;
  agent_path = [];
  approvals = [];
  executed_actions = [];
  final_diagnosis = none;
  final_resolution = none;
  lessons_learned = [];
  pending_action_graph = none;
  pending_approval_action_id = none;
  pending_plan_step_id = none;
  latest_router_decision = none;
  decision_records = [];
  execution_trace = record { entries = [] };
  hypothesis_links = [];
  workflow_iteration = 0;
  control_plane_version = "v1";
  decision_schema_version = "v1";
  last_planner_confidence = 0;
  evidence_coverage_score = 0;
  version = 1;
  created_at = now;
  updated_at = now;
}

-- `incident.execution_trace.entries.append(entry)`
abbrev pub add_trace : ExecutionTraceEntry → IncidentRecord → IncidentRecord
add_trace entry incident = record incident {
  execution_trace = record { entries = incident.execution_trace.entries ++ entry ∷ [] };
}
