-- ===== src/Approve/Recovery.antt =====
-- An approved rollback from the approval to the recovered workload: `record_approval` of
-- apps/api/routers/approval_api/app.py, then `execute_action` of apps/api/routers/router/app.py.
use ai_assisted_aws_incident.Prelude.{
  if◌then◌else◌, suc, ◌+◌, ◌≤◌, ◌∙◌, ap, sym, ℕ, ◌≡◌, refl, true, false, ◌&&◌, String, none, some,
  ◌==◌, arith, All,
}
use ai_assisted_aws_incident.Contracts.{
  ActionResult, ApprovalRecord, IncidentRecord, PolicyDecision, ResponsePlan, resolved, planned,
}
use ai_assisted_aws_incident.Environ.{Environ}
use ai_assisted_aws_incident.Dict.{lookup}
use ai_assisted_aws_incident.Policy.{kill_switch, PolicyEngine, evaluate}
use ai_assisted_aws_incident.Adapters.{Ecs}
use ai_assisted_aws_incident.Executor.{Fate}
use ai_assisted_aws_incident.World.{World, ok}
use ai_assisted_aws_incident.Store.{may_follow}
use ai_assisted_aws_incident.Execute.{
  ExecutePayload, Grant, execute_action, is_stale, holding, context_of,
}
use ai_assisted_aws_incident.Execute.Admitted.{Admits, Opens, stamp}
use ai_assisted_aws_incident.Execute.Rollback.{Rollback}
use ai_assisted_aws_incident.Execute.Recovery.{Recovered, sent, execute_action-Recovered}
use ai_assisted_aws_incident.Approve.{
  waiting_approval, or_else, first_text, ApprovalPayload, record_approval, with_approval,
}
use ai_assisted_aws_incident.Approve.Laws.{record_approval-Recorded}
use ai_assisted_aws_incident.Approve.Usable.{find_first-append, mismatches_self, both_mismatch_self}

-- A request that names the approval that was recorded.
pub record Names (payload : ApprovalPayload) (before : IncidentRecord) (r : ApprovalRecord)
    (request : ExecutePayload) : Type 0 where
  pub approval_id : request.approval_id ≡ some r.approval_id
  pub token : request.approval_token ≡ some r.approval_token
  pub action : request.action.action_id ≡ payload.action_id
  pub version : is_stale request.expected_incident_version (before.version + 1) ≡ false
  pub supervised : request.autonomous ≡ false

-- An approval that fits what is pending.
pub record Fits (before : IncidentRecord) (payload : ApprovalPayload) (r : ApprovalRecord)
    (plan : ResponsePlan) : Type 0 where
  pub granted : payload.approved ≡ true
  pub own_version : or_else payload.expected_incident_version before.version ≡ before.version
  pub own_step :
      first_text payload.plan_step_id before.pending_plan_step_id ≡ before.pending_plan_step_id
  pub new_id : All (λ a. (a.approval_id == r.approval_id) ≡ false) before.approvals
  pub has_plan : before.response_plan ≡ some plan
  pub free : holding before.latest_router_decision before.pending_action_graph ≡ none

module _ (env : Environ) (id : String) (payload : ApprovalPayload) (w : World) where
  -- The row behind an approval.
  abbrev pub row_of : ApprovalRecord → IncidentRecord → ℕ → IncidentRecord
  row_of r before now = record (with_approval env r before) {
    updated_at = now;
    version = before.version + 1;
  }

  pub record_approval-row :
      {before : IncidentRecord} {r : ApprovalRecord} {w' : World}
      → lookup id w.incidents ≡ some before
      → before.incident_id ≡ id
      → record_approval env id payload w ≡ (ok r, w')
      → (now : ℕ) × (lookup id w'.incidents ≡ some (row_of r before now))
        × (r.approved ≡ payload.approved)
        × (r.action_id ≡ some payload.action_id)
        × (r.plan_step_id ≡ first_text payload.plan_step_id before.pending_plan_step_id)
        × (r.expected_incident_version_at_grant
            ≡ some (or_else payload.expected_incident_version before.version))
  record_approval-row {before} {r} {w'} found own h =
      let c = record_approval-Recorded env id payload w h in
      let same : c.before ≡ before = cc (c.was, found) in
      let key : (c.before).incident_id ≡ id = ap (λ x. x.incident_id) same ∙ own in
      let version : (c.row).version ≡ before.version + 1 =
        c.version (c.before) (ap (λ k. lookup k w.incidents) key ∙ c.was)
        ∙ ap (λ x. x.version + 1) same in
      let now = (c.row).updated_at in
      (
        now,
        ap (λ k. lookup k w'.incidents) (sym key)
            ∙ c.is
            ∙ ap some (
                c.only
                ∙ ap
                    (λ x. record (with_approval env r x) {
                      updated_at = now;
                      version = (c.row).version;
                    })
                    same
                ∙ ap (λ n. record (with_approval env r before) { updated_at = now; version = n })
                    version),
        c.answer,
        c.action,
        c.step ∙ ap (λ x. first_text payload.plan_step_id x.pending_plan_step_id) same,
        c.scoped ∙ ap (λ x. some (or_else payload.expected_incident_version x.version)) same,
      )

  row-Opens :
      (request : ExecutePayload) (plan : ResponsePlan) (now at : ℕ) {before : IncidentRecord}
      {r : ApprovalRecord}
      → Fits before payload r plan
      → Names payload before r request
      → r.approved ≡ payload.approved
      → r.action_id ≡ some payload.action_id
      → r.plan_step_id ≡ first_text payload.plan_step_id before.pending_plan_step_id
      → r.expected_incident_version_at_grant
        ≡ some (or_else payload.expected_incident_version before.version)
      → at ≤ r.expires_at
      → Opens (row_of r before now) request at r
  row-Opens request plan now at {before} {r} fits names answer action step scoped alive = record {
    named = names.approval_id;
    first = find_first-append r.approval_id before.approvals r refl fits.new_id;
    approved = answer ∙ fits.granted;
    token = names.token;
    alive = alive;
    granted = before.version;
    versioned = scoped ∙ ap some fits.own_version;
    recent = omega arith;
    same_action =
        mismatches_self r.action_id request.action.action_id (action ∙ ap some (sym names.action));
    same_step =
        both_mismatch_self r.plan_step_id before.pending_plan_step_id (step ∙ fits.own_step);
  }

planned-resolved : may_follow planned resolved ≡ true
unfolding may_follow
planned-resolved = refl

-- A granted approval, recorded at the version and the step of an incident that is stored under its id,
-- carries a request that names it and is not autonomous, at the version that the approval has left,
-- under a plan and a decision that allow the action, if the approval is alive at the second time
-- that the request reads: a rollback of the checkout service, which answers, not dry, with an
-- unclaimed key and a first attempt in time, is executed, the workload passes the recovery check,
-- and the row is resolved with the result.
pub record_approval-Recovered :
    (env : Environ) (engine : PolicyEngine) (ecs : Ecs) (fate : ℕ → Fate) (id : String)
    (payload : ApprovalPayload) (request : ExecutePayload) (w : World) {before : IncidentRecord}
    {r : ApprovalRecord} {w' : World} {plan : ResponsePlan} {decision : PolicyDecision}
    → lookup id w.incidents ≡ some before
    → before.incident_id ≡ id
    → record_approval env id payload w ≡ (ok r, w')
    → Fits before payload r plan
    → Names payload before r request
    → env.clock (suc w'.clock_reads) ≤ r.expires_at
    → evaluate env engine (stamp env w') plan request.action false (context_of before)
      ≡ some decision
    → decision.allowed ≡ true
    → Rollback env fate (sent env request)
    → lookup request.action.idempotency_key w'.claims ≡ none
    → (row : IncidentRecord) × (result : ActionResult) × (v : World) × (lookup id w'.incidents
        ≡ some row)
      × (execute_action env engine ecs fate id request w' ≡ (ok (decision, result), v))
      × Recovered env engine ecs fate id request row result w' v
record_approval-Recovered env engine ecs fate id payload request w {before} {r} {w'} {plan}
      {decision} found own recorded fits names alive decided allowed rollback unclaimed =
    let (now, stored, answer, action, step, scoped) =
      record_approval-row env id payload w found own recorded in
    let row = row_of env id payload w r before now in
    let grant : Grant = record { incident = row; plan = plan; decision = decision } in
    let admits : Admits env engine id request w' grant = record {
      found = stored;
      has_plan = fits.has_plan;
      current = names.version;
      free = fits.free;
      supervised = ap (λ a. a && kill_switch env engine) names.supervised;
      decided =
          ap (λ a. evaluate env engine (stamp env w') plan request.action a (context_of before))
            names.supervised
          ∙ decided;
      allowed = allowed;
      opened = λ asked. (
        r,
        row-Opens env id payload w request plan now (env.clock (suc w'.clock_reads)) fits names
            answer action step scoped alive,
      );
    } in
    let legal : may_follow row.state resolved ≡ true =
      ap (λ b. may_follow (if b then planned else waiting_approval) resolved)
        (answer ∙ fits.granted)
      ∙ planned-resolved in
    let (result, v, done, recovered) =
      execute_action-Recovered env engine ecs fate id request w' grant admits rollback unclaimed own
        legal in
    (row, result, v, stored, done, recovered)
