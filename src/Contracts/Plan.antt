-- ===== src/Contracts/Plan.antt =====
-- Actions, plans, approvals and decisions of src/domain/contracts/models.py.
use ai_assisted_aws_incident.Prelude.{ℕ, Bool, String, Option, List}
use ai_assisted_aws_incident.Value.{Fields}
use ai_assisted_aws_incident.Contracts.Kinds.{ActionType, PolicyClass}

pub record EvidenceEntry : Type 0 where
  pub evidence_id : String
  pub source : String
  pub kind : String
  pub confidence : ℕ
  pub summary : String
  pub reference : Option String
  pub created_at : ℕ

pub record ApprovalRecord : Type 0 where
  pub approval_id : String
  pub action_id : Option String
  pub plan_step_id : Option String
  pub approval_scope : String
  pub expected_incident_version_at_grant : Option ℕ
  pub approver : String
  pub approved : Bool
  pub approval_token : String
  pub expires_at : ℕ
  pub reason : Option String
  pub created_at : ℕ

pub record ActionRequest : Type 0 where
  pub action_id : String
  pub action_type : ActionType
  pub target : String
  pub parameters : Fields
  pub idempotency_key : String
  pub dry_run : Bool
  pub timeout_seconds : ℕ

pub record ActionResult : Type 0 where
  pub action_id : String
  pub success : Bool
  pub status_message : String
  pub started_at : ℕ
  pub finished_at : ℕ
  pub rollback_action : Option ActionRequest

pub record PlanStep : Type 0 where
  pub step_id : String
  pub order : ℕ
  pub action_ref_id : Option String
  pub preconditions : List String
  pub verification_signal : String
  pub rollback_hint : Option String
  pub execute_intent : String
  pub risk_tier : String

pub record ActionGraph : Type 0 where
  pub objective : String
  pub prerequisites : List String
  pub safety_checks : List String
  pub rollback_plan : List String
  pub blast_radius : String
  pub success_signal : String
  pub actions : List ActionRequest
  pub plan_steps : List PlanStep
  pub graph_version : String

pub record ToolPlanItem : Type 0 where
  pub tool : ActionType
  pub target : String
  pub parameters : Fields
  pub reason : String

pub record ToolPlan : Type 0 where
  pub plan_id : String
  pub items : List ToolPlanItem
  pub created_at : ℕ

pub record RouterDecision : Type 0 where
  pub decision_id : String
  pub next_workflow : String
  pub allowed_actions : List ActionType
  pub stop_reason : Option String
  pub decision_confidence : ℕ
  pub rule_ids_applied : List String
  pub investigate_only : Bool
  pub tool_plan : Option ToolPlan
  pub created_at : ℕ

pub record ResponsePlan : Type 0 where
  pub plan_id : String
  pub workflow_family : String
  pub policy_class : PolicyClass
  pub allowed_actions : List ActionType
  pub denied_actions : List ActionType
  pub max_retries : ℕ

pub record PolicyDecision : Type 0 where
  pub decision_id : String
  pub allowed : Bool
  pub policy_class : PolicyClass
  pub reason : String
  pub requires_approval : Bool
  pub policy_version : String
  pub evaluated_at : ℕ
  pub rule_id : Option String
  pub deny_reason_code : Option String
  pub requires_approval_scope : String
