-- ===== src/Execute/Gates.antt =====
-- The gates of `execute_action` in apps/api/routers/router/app.py, in their order.
use ai_assisted_aws_incident.Prelude.{
  ℕ, ◌+◌, Bool, true, false, not, ◌&&◌, String, Option, none, some, ◌==◌, eqb, ltb, is_blank,
  find_first, append_new, if◌then◌else◌,
}
use ai_assisted_aws_incident.Value.{Value, end, field, text, null}
use ai_assisted_aws_incident.Contracts.{
  ActionRequest, ActionType-discrete, ApprovalRecord, ActionGraph, IncidentRecord, PolicyDecision,
  ResponsePlan, RouterDecision,
}
use ai_assisted_aws_incident.Environ.{Environ, env_flag}
use ai_assisted_aws_incident.Policy.{PolicyEngine, Context, evaluate, kill_switch}
use ai_assisted_aws_incident.World.{
  Action, http, type_error, pure, raise, raise_if, or_raise, utcnow, fresh_id, append_audit, about,
  ◌>>=◌, ◌>>◌,
}
use ai_assisted_aws_incident.Store.{get, upsert}

pub record ExecutePayload : Type 0 where
  pub action : ActionRequest
  pub autonomous : Bool
  pub approval_id : Option String
  pub approval_token : Option String
  pub expected_incident_version : Option ℕ

-- What the gates hand on.
pub record Grant : Type 0 where
  pub incident : IncidentRecord
  pub plan : ResponsePlan
  pub decision : PolicyDecision

abbrev pub text_or_null : Option String → Value
text_or_null none = null
text_or_null (some s) = text s

-- `payload.expected_incident_version is not None and … != incident.version`
abbrev pub is_stale : Option ℕ → ℕ → Bool
is_stale none version = false
is_stale (some expected) version = not (eqb expected version)

-- The router's decision when it says `investigate_only` and no graph is pending.
abbrev pub holding : Option RouterDecision → Option ActionGraph → Option RouterDecision
holding none graph = none
holding (some d) none = if d.investigate_only then some d else none
holding (some d) (some _) = none

abbrev pub block : ActionRequest → IncidentRecord → IncidentRecord
block action incident = record incident {
  blocked_actions = append_new ActionType-discrete action.action_type incident.blocked_actions;
}

abbrev pub blast_of : Option ActionGraph → String
blast_of none = "single service"
blast_of (some graph) = graph.blast_radius

abbrev pub context_of : IncidentRecord → Context
context_of incident = record {
  planner_confidence = some incident.last_planner_confidence;
  blast_radius = some (blast_of incident.pending_action_graph);
  severity = some incident.metadata.severity;
  evidence_coverage = some incident.evidence_coverage_score;
}

-- `s is None or s != t`
abbrev pub differs : Option String → String → Bool
differs none t = true
differs (some s) t = not (s == t)

-- `a and a != b`
abbrev pub mismatches : Option String → String → Bool
mismatches none b = false
mismatches (some a) b = not (is_blank a) && not (a == b)

-- `a and b and a != b`
abbrev pub both_mismatch : Option String → Option String → Bool
both_mismatch a none = false
both_mismatch none (some b) = false
both_mismatch (some a) (some b) = not (is_blank a) && not (is_blank b) && not (a == b)

abbrev pub is_outdated : ℕ → Option ℕ → Bool
is_outdated version none = false
is_outdated version (some granted) = ltb (granted + 1) version

abbrev pub not_versioned : Option ℕ → Bool
not_versioned none = true
not_versioned (some _) = false

-- The tests of an approval record before the clock is read.
unfoldable pub approval_of : IncidentRecord → ExecutePayload → Action ApprovalRecord
approval_of incident payload = do
  id ← or_raise payload.approval_id (http 412 "approval is required before execution")
  r ←
      or_raise (find_first (λ r. r.approval_id == id) incident.approvals)
        (http 412 "approval record missing or denied")
  raise_if (not r.approved) (http 412 "approval record missing or denied")
  raise_if (differs payload.approval_token r.approval_token)
      (http 412 "approval token is missing or invalid")
  pure r

-- The tests behind it.
unfoldable pub check_approval :
    ℕ → IncidentRecord → ActionRequest → ApprovalRecord → Action (Unit {0})
check_approval now incident action r = do
  raise_if (ltb r.expires_at now) (http 412 "approval has expired")
  raise_if (not_versioned r.expected_incident_version_at_grant)
      (http 412 "approval version is missing")
  raise_if (is_outdated incident.version r.expected_incident_version_at_grant)
      (http 409 "approval was granted for a stale incident version")
  raise_if (mismatches r.action_id action.action_id) (http 412 "approval does not match action")
  raise_if (both_mismatch r.plan_step_id incident.pending_plan_step_id)
      (http 412 "approval does not match plan step")

module _ (env : Environ) (engine : PolicyEngine) where
  unfoldable pub require_approval :
      IncidentRecord → ExecutePayload → PolicyDecision → Action (Unit {0})
  require_approval incident payload decision =
      if decision.requires_approval && not payload.autonomous
      then (do
        r ← approval_of incident payload
        now ← utcnow env
        check_approval now incident payload.action r)
      else pure tt

  unfoldable pub refuse_investigate_only :
      String → ExecutePayload → IncidentRecord → Action (Unit {0})
  refuse_investigate_only incident_id payload incident =
      elim (holding incident.latest_router_decision incident.pending_action_graph) [
        | none ↦ pure tt
        | some d ↦
            if env_flag env "BLOCK_EXECUTE_WHEN_INVESTIGATE_ONLY" "true"
            then (do
              append_audit env "action_blocked" (
                  about incident_id (
                    field "action_id" (text payload.action.action_id) (
                      field "reason" (text "investigate_only")
                        (field "decision_id" (text d.decision_id) end))))
              upsert env (block payload.action incident)
              raise (http 403 "execution blocked: investigate_only mode"))
            else pure tt
      ]

  unfoldable pub refuse_denied :
      String → ExecutePayload → IncidentRecord → PolicyDecision → Action (Unit {0})
  refuse_denied incident_id payload incident decision = if decision.allowed then pure tt else do
    upsert env (block payload.action incident)
    append_audit env "action_blocked" (
        about incident_id (
          field "action_id" (text payload.action.action_id) (
            field "reason" (text decision.reason) (
              field "decision_id" (text decision.decision_id) (
                field "policy_rule_id" (text_or_null decision.rule_id)
                  (field "deny_reason_code" (text_or_null decision.deny_reason_code) end))))))
    raise (http 403 decision.reason)

  -- Everything in front of the run.
  unfoldable pub authorise : String → ExecutePayload → Action Grant
  authorise incident_id payload = do
    found ← get incident_id
    incident ← or_raise found (http 404 "incident or response plan not found")
    plan ← or_raise incident.response_plan (http 404 "incident or response plan not found")
    raise_if (is_stale payload.expected_incident_version incident.version)
        (http 409 "stale incident version")
    refuse_investigate_only incident_id payload incident
    raise_if (payload.autonomous && kill_switch env engine)
        (http 423 "autonomous mode is disabled by kill switch")
    id ← fresh_id env "pd_" 10
    now ← utcnow env
    decision ←
        or_raise
          (evaluate env engine (id, now) plan payload.action payload.autonomous
            (context_of incident))
          type_error
    refuse_denied incident_id payload incident decision
    require_approval incident payload decision
    pure (record { incident = incident; plan = plan; decision = decision })
