-- ===== src/Execute.antt =====
-- `POST /execute/{incident_id}` of apps/api/routers/router/app.py: the gates in front of an action, its
-- run, and what is written afterwards.
mod Gates
pub mod Passed
pub mod Authorised
pub mod Admitted
pub mod Rollback
pub mod Repair
pub mod Recovery
pub mod Outcome
pub mod Tests
unfoldable pub use Gates.*
use ai_assisted_aws_incident.Prelude.{
  ℕ, Bool, true, false, not, ◌&&◌, ◌||◌, String, Option, none, some, List, [], ◌∷◌, ◌++◌, ◌==◌,
  if◌then◌else◌,
}
use ai_assisted_aws_incident.Value.{Fields, end, field, text, boolean, float, int, pos, dict}
use ai_assisted_aws_incident.Contracts.{
  ActionRequest, ActionResult, IncidentRecord, PolicyDecision, ResponsePlan, ExecutionTraceEntry,
  IncidentState, add_trace, executing, resolved, investigating, read_only,
}
use ai_assisted_aws_incident.Environ.{Environ, env_flag}
use ai_assisted_aws_incident.Policy.{PolicyEngine, is_read_only}
use ai_assisted_aws_incident.World.{
  World, Action, Failure, http, http_error, pure, raise, gets, utcnow, fresh_id, append_audit,
  about, ok, err, ◌>>=◌, ◌>>◌,
}
use ai_assisted_aws_incident.World.Workload.{CheckoutState, verify_recovery}
use ai_assisted_aws_incident.Adapters.{Ecs}
use ai_assisted_aws_incident.Executor.{Fate, run_agent}
use ai_assisted_aws_incident.Store.{upsert}

-- `_effective_execute_dry_run`
unfoldable pub effective_dry_run : Environ → ActionRequest → Bool → Bool
effective_dry_run env action autonomous =
    if env.app.execution_mode == "aws" && env_flag env "EXECUTE_ACTION_DRY_RUN" "true"
    then true
    else if autonomous && not (env_flag env "AUTONOMY_KILL_SWITCH" "true")
    then false
    else action.dry_run

-- `asdict(state)`, the answer of `/metrics/business`
abbrev pub metrics_fields : CheckoutState → Fields
metrics_fields s = field "revision" (text s.revision) (
    field "previous_revision" (text s.previous_revision) (
      field "replicas" (int (pos s.replicas)) (
        field "error_rate_percent" (float s.error_rate_percent) (
          field "p95_latency_ms" (float s.p95_latency_ms) (
            field "healthy" (boolean s.healthy)
              (field "failure_injected" (boolean s.failure_injected) end))))))

pub record Verification : Type 0 where
  pub verified : Bool
  pub message : String
  pub details : Fields

abbrev pub recovery_of : CheckoutState → Verification
recovery_of s = record {
  verified = verify_recovery s;
  message =
      if verify_recovery s
      then "checkout recovery verified from business metrics"
      else "checkout recovery verification failed";
  details = metrics_fields s;
}

abbrev pub verification_event : String → ActionRequest → Verification → Fields
verification_event incident_id action v = about incident_id (
    field "action_id" (text action.action_id) (
      field "success" (boolean v.verified)
        (field "message" (text v.message) (field "details" (dict v.details) end))))

-- `_verify_action_recovery`
unfoldable pub verify_action_recovery : Environ → ActionRequest → Action Verification
verify_action_recovery env action w =
    if action.dry_run
    then (
      ok (record {
        verified = true;
        message = "dry_run_verify_no_state_change";
        details = field "dry_run" (boolean true) end;
      }),
      w,
    )
    else if env.app.execution_mode == "local"
        && (action.target == "checkout-service" || action.target == "checkout/api")
    then (if env.workload_up then (ok (recovery_of w.workload), w) else (err http_error, w))
    else (
      ok (record {
        verified = false;
        message = "no verification adapter configured for executed action";
        details = end;
      }),
      w,
    )

-- `ExecutionTraceEntry(…)` with its fresh id and time
unfoldable pub trace_entry :
    Environ → String → Option String → Option Bool → String → Bool → Action ExecutionTraceEntry
trace_entry env phase action_id success message replan = do
  id ← fresh_id env "et_" 10
  now ← utcnow env
  pure (record {
    trace_id = id;
    phase = phase;
    action_id = action_id;
    success = success;
    message = message;
    replan_requested = replan;
    created_at = now;
  })

-- The state and the resolution behind a run: `result.success` and `verified`, and whether it was dry.
unfoldable pub conclude : Bool → Bool → Bool → IncidentRecord → IncidentRecord
conclude success verified dry incident = record incident {
  state = if success && verified then resolved else investigating;
  final_resolution =
      if success && verified && not dry
      then some "Checkout service recovered after approved rollback and verification."
      else if success && dry
      then some "Dry-run completed; incident remains open until a verified execution runs."
      else incident.final_resolution;
}

module _ (env : Environ) (engine : PolicyEngine) (ecs : Ecs) (fate : ℕ → Fate) where
  -- The verification step; without it the result's success counts.
  unfoldable pub post_verify :
      String → ActionRequest → ActionResult → IncidentRecord → Action (Bool × IncidentRecord)
  post_verify incident_id action result incident =
      if env_flag env "EXECUTE_POST_VERIFY_ENABLED" "true"
      then (do
        v ← verify_action_recovery env action
        entry ← trace_entry env "verify" (some action.action_id) (some v.verified) v.message false
        append_audit env "post_action_verification" (verification_event incident_id action v)
        pure (v.verified, add_trace entry incident))
      else pure (result.success, incident)

  -- Behind the run: the verification, the state and the resolution.
  unfoldable pub settle :
      String
      → ActionRequest
      → ActionResult
      → IncidentRecord
      → Action (ActionResult × IncidentRecord)
  settle incident_id action result acted = do
    checked ← post_verify incident_id action result acted
    pure (result, conclude result.success checked.0 action.dry_run checked.1)

  -- The act: from `incident.state = EXECUTING` to the incident that is stored.
  unfoldable pub act :
      String → ActionRequest → IncidentRecord → Action (ActionResult × IncidentRecord)
  act incident_id action incident = do
    start ← trace_entry env "act" (some action.action_id) none "execute_start" false
    result ← run_agent env ecs fate action
    seen ←
        trace_entry env "observe" (some action.action_id) (some result.success)
          result.status_message (not result.success)
    settle incident_id action result (
        add_trace seen (record (add_trace start incident) {
          state = executing;
          executed_actions = incident.executed_actions ++ result ∷ [];
        }))

  -- The events behind the write.
  unfoldable pub report :
      String → ExecutePayload → ResponsePlan → PolicyDecision → ActionResult → Action (Unit {0})
  report incident_id payload plan decision result = do
    append_audit env "action_executed" (
        about incident_id (
          field "action_id" (text payload.action.action_id) (
            field "success" (boolean result.success) (
              field "autonomous" (boolean payload.autonomous) (
                field "policy_decision_id" (text decision.decision_id)
                  (field "policy_rule_id" (text_or_null decision.rule_id) end))))))
    if not result.success && not (is_read_only plan.policy_class)
        then append_audit env "execution_escalation_triggered" (
            about incident_id (
              field "action_id" (text payload.action.action_id)
                (field "decision_id" (text decision.decision_id) end)))
        else pure tt

  -- The part of `execute_action` behind the gates.
  unfoldable pub run_authorised :
      String → ExecutePayload → Grant → Action (PolicyDecision × ActionResult)
  run_authorised incident_id payload grant = do
    let action = record payload.action {
      dry_run = effective_dry_run env payload.action payload.autonomous;
    }
    done ← act incident_id action grant.incident
    upsert env done.1
    report incident_id payload grant.plan grant.decision done.0
    pure (grant.decision, done.0)

  -- `execute_action`
  unfoldable pub execute_action : String → ExecutePayload → Action (PolicyDecision × ActionResult)
  execute_action incident_id payload = do
    grant ← authorise env engine incident_id payload
    run_authorised incident_id payload grant
