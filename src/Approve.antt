-- ===== src/Approve.antt =====
-- Approvals: `record_approval` of apps/api/routers/approval_api/app.py, and `approve_incident` and
-- `execute_incident` of apps/api/main.py, which fill in what the caller leaves out. Times are in
-- microseconds.
pub mod Laws
pub mod Usable
pub mod Recovery
pub mod Calls
pub mod Planned
pub mod Proposed
pub mod Remediation
pub mod Tests
use ai_assisted_aws_incident.Prelude.{
  ℕ, suc, ◌+◌, ◌-◌, ◌*◌, Bool, true, false, not, ◌&&◌, String, Option, none, some, List, [], ◌∷◌,
  ◌++◌, ◌==◌, holds, or_else, find_first, is_blank, is_empty, if◌then◌else◌, concat, append_new,
}
use ai_assisted_aws_incident.Value.{
  Value, Fields, end, field, text, boolean, int, null, ℤ, pos, negsuc,
}
use ai_assisted_aws_incident.Contracts.{
  ActionGraph, ActionRequest, ActionResult, ApprovalRecord, IncidentRecord, IncidentState,
  IncidentState-discrete, PolicyDecision, planned, waiting_approval,
}
use ai_assisted_aws_incident.Environ.{Environ}
use ai_assisted_aws_incident.Adapters.{Ecs}
use ai_assisted_aws_incident.Executor.{Fate}
use ai_assisted_aws_incident.Execute.{ExecutePayload, text_or_null, execute_action}
use ai_assisted_aws_incident.Policy.{PolicyEngine}
use ai_assisted_aws_incident.World.{
  World, Action, Failure, http, or_raise, raise_if, pure, utcnow, fresh_id, append_audit, about, ok,
  ◌>>=◌, ◌>>◌,
}
use ai_assisted_aws_incident.Store.{get, upsert}

pub record ApprovalPayload : Type 0 where
  pub approver : String
  pub action_id : String
  pub approved : Bool
  pub reason : Option String
  pub ttl_seconds : ℤ
  pub plan_step_id : Option String
  pub approval_scope : String
  pub expected_incident_version : Option ℕ

-- `now + timedelta(seconds=ttl)`
abbrev pub after : ℕ → ℤ → ℕ
after now (pos n) = now + n * 1000000
after now (negsuc n) = now - suc n * 1000000

-- `a or b`
abbrev pub first_text : Option String → Option String → Option String
first_text none b = b
first_text (some a) b = if is_blank a then b else some a

abbrev pub version_or_null : Option ℕ → Value
version_or_null none = null
version_or_null (some n) = int (pos n)

module _ (env : Environ) where
  -- `ApprovalRecord(…)`
  unfoldable pub new_approval : ApprovalPayload → IncidentRecord → Action ApprovalRecord
  new_approval payload incident = do
    id ← fresh_id env "apr_" 10
    token ← fresh_id env "token_" 32
    start ← utcnow env
    now ← utcnow env
    pure (record {
      approval_id = id;
      action_id = some payload.action_id;
      plan_step_id = first_text payload.plan_step_id incident.pending_plan_step_id;
      approval_scope = payload.approval_scope;
      expected_incident_version_at_grant =
          some (or_else payload.expected_incident_version incident.version);
      approver = payload.approver;
      approved = payload.approved;
      approval_token = token;
      expires_at = after start payload.ttl_seconds;
      reason = payload.reason;
      created_at = now;
    })

  -- `incident.approvals.append(record)` and the state behind it
  abbrev pub with_approval : ApprovalRecord → IncidentRecord → IncidentRecord
  with_approval r incident = record incident {
    approvals = incident.approvals ++ r ∷ [];
    state = if r.approved then planned else waiting_approval;
  }

  abbrev pub approval_event : ApprovalRecord → Fields
  approval_event r = field "approval_id" (text r.approval_id) (
      field "action_id" (text_or_null r.action_id) (
        field "plan_step_id" (text_or_null r.plan_step_id) (
          field "approval_scope" (text r.approval_scope) (
            field "expected_incident_version_at_grant"
              (version_or_null r.expected_incident_version_at_grant)
              (field "approved" (boolean r.approved) end)))))

  -- The guards of `record_approval`.
  unfoldable pub awaiting : String → Action IncidentRecord
  awaiting incident_id = do
    found ← get incident_id
    incident ← or_raise found (http 404 "incident not found")
    raise_if (not (holds (IncidentState-discrete incident.state waiting_approval)))
        (http 409 "incident is not waiting for approval")
    or_raise incident.pending_action_graph (http 409 "no pending action graph for approval")
    pure incident

  -- `record_approval`
  unfoldable pub record_approval : String → ApprovalPayload → Action ApprovalRecord
  record_approval incident_id payload = do
    incident ← awaiting incident_id
    r ← new_approval payload incident
    upsert env (with_approval r incident)
    append_audit env "approval_recorded" (about incident_id (approval_event r))
    pure r

pub record IncidentApprovalPayload : Type 0 where
  pub approver : String
  pub approved : Bool
  pub reason : Option String
  pub ttl_seconds : ℤ
  pub action_id : Option String
  pub plan_step_id : Option String

-- `approve_incident`
unfoldable pub approve_incident : Environ → String → IncidentApprovalPayload → Action ApprovalRecord
approve_incident env incident_id payload = do
  found ← get incident_id
  incident ← or_raise found (http 404 "incident not found")
  action_id ←
      or_raise (first_text payload.action_id incident.pending_approval_action_id)
        (http 409 "incident has no pending action to approve")
  record_approval env incident_id (record {
    approver = payload.approver;
    action_id = action_id;
    approved = payload.approved;
    reason = payload.reason;
    ttl_seconds = payload.ttl_seconds;
    plan_step_id = first_text payload.plan_step_id incident.pending_plan_step_id;
    approval_scope = "action";
    expected_incident_version = some incident.version;
  })

pub record IncidentExecutePayload : Type 0 where
  pub action_id : Option String
  pub approval_id : Option String
  pub approval_token : Option String
  pub autonomous : Bool
  pub dry_run : Option Bool

-- The last of a list that passes: `next(… for item in reversed(xs) …)`.
abbrev pub find_last : {A : Type 0} → (A → Bool) → List A → Option A
find_last p [] = none
find_last p (x ∷ xs) =
    let rest = find_last p xs in elim rest [ none ↦ if p x then some x else none | some y ↦ some y ]

abbrev pub is_asked : Option String → String → Bool
is_asked none id = true
is_asked (some asked) id = id == asked

abbrev pub is_for : Option String → String → Bool
is_for none id = false
is_for (some a) id = a == id

-- `incident.pending_action_graph is None or not incident.pending_action_graph.actions`
abbrev pub pending_actions : Option ActionGraph → Option (List ActionRequest)
pending_actions none = none
pending_actions (some g) = if is_empty g.actions then none else some g.actions

abbrev pub with_dry_run : Option Bool → ActionRequest → ActionRequest
with_dry_run none action = action
with_dry_run (some d) action = record action { dry_run = d }

-- The approval id and token: the caller's, or those of the last approval of the action.
abbrev pub credentials :
    IncidentRecord → ActionRequest → IncidentExecutePayload → Option String × Option String
credentials incident action payload = elim payload.approval_id [
  | some id ↦ (some id, payload.approval_token)
  | none ↦
      elim (find_last (λ r. r.approved && is_for r.action_id action.action_id) incident.approvals) [
        | none ↦ (none, payload.approval_token)
        | some r ↦ (some r.approval_id, some r.approval_token)
      ]
]

-- The part of `execute_incident` in front of `execute_action`.
unfoldable pub payload_of : String → IncidentExecutePayload → Action ExecutePayload
payload_of incident_id payload = do
  found ← get incident_id
  incident ← or_raise found (http 404 "incident not found")
  actions ←
      or_raise (pending_actions incident.pending_action_graph)
        (http 409 "incident has no pending action graph")
  chosen ←
      or_raise (find_first (λ a. is_asked payload.action_id a.action_id) actions)
        (http 404 "pending action not found")
  let action = with_dry_run payload.dry_run chosen
  let keys = credentials incident action payload
  pure (record {
    action = action;
    autonomous = payload.autonomous;
    approval_id = keys.0;
    approval_token = keys.1;
    expected_incident_version = some incident.version;
  })

-- `execute_incident`
unfoldable pub execute_incident :
    Environ
    → PolicyEngine
    → Ecs
    → (ℕ → Fate)
    → String
    → IncidentExecutePayload
    → Action (PolicyDecision × ActionResult)
execute_incident env engine ecs fate incident_id payload = do
  filled ← payload_of incident_id payload
  execute_action env engine ecs fate incident_id filled
