-- ===== src/Approve/Calls.antt =====
-- The two calls that end an incident: `approve_incident`, then `execute_incident` of apps/api/main.py.
use ai_assisted_aws_incident.Prelude.{
  suc, ◌+◌, ◌≤◌, ◌∙◌, ap, sym, ℕ, ◌≡◌, refl, Bool, true, false, ◌&&◌, String, Option, none, some,
  List, [], ◌∷◌, ◌++◌, arith, eqb_iff, is_empty, if◌then◌else◌, eq_refl,
}
use ai_assisted_aws_incident.Contracts.{
  ActionGraph, ActionRequest, ActionResult, ApprovalRecord, IncidentRecord, PolicyDecision,
  ResponsePlan,
}
use ai_assisted_aws_incident.Environ.{Environ}
use ai_assisted_aws_incident.Dict.{lookup}
use ai_assisted_aws_incident.Policy.{PolicyEngine, evaluate}
use ai_assisted_aws_incident.Adapters.{Ecs}
use ai_assisted_aws_incident.Executor.{Fate}
use ai_assisted_aws_incident.World.{World, ok, >>=-ok}
use ai_assisted_aws_incident.Store.{get}
use ai_assisted_aws_incident.Execute.{ExecutePayload, execute_action, context_of}
use ai_assisted_aws_incident.Execute.Admitted.{stamp}
use ai_assisted_aws_incident.Execute.Rollback.{Rollback}
use ai_assisted_aws_incident.Execute.Recovery.{Recovered, sent}
use ai_assisted_aws_incident.Approve.{
  ApprovalPayload, IncidentApprovalPayload, IncidentExecutePayload, record_approval,
  approve_incident, payload_of, execute_incident, first_text, find_last, is_for, credentials,
  pending_actions,
}
use ai_assisted_aws_incident.Approve.Recovery.{
  Fits, Names, record_approval-row, record_approval-Recovered,
}

find_last-append :
    {A : Type 0} (p : A → Bool) (xs : List A) (x : A)
    → p x ≡ true
    → find_last p (xs ++ x ∷ []) ≡ some x
find_last-append p [] x h = ground (arith, h)
find_last-append p (y ∷ ys) x h = rw (find_last-append p ys x h) refl

-- What waits for an approval: the first action of the pending graph.
pub record Waits (before : IncidentRecord) (action : ActionRequest) : Type 0 where
  pub graph : ActionGraph
  pub rest : List ActionRequest
  pub pending : before.pending_action_graph ≡ some graph
  pub actions : graph.actions ≡ action ∷ rest
  pub asked : before.pending_approval_action_id ≡ some action.action_id

-- The approval of `approve_incident`, for a caller who names neither action nor step.
abbrev pub filled : IncidentApprovalPayload → ActionRequest → IncidentRecord → ApprovalPayload
filled payload action before = record {
  approver = payload.approver;
  action_id = action.action_id;
  approved = payload.approved;
  reason = payload.reason;
  ttl_seconds = payload.ttl_seconds;
  plan_step_id = before.pending_plan_step_id;
  approval_scope = "action";
  expected_incident_version = some before.version;
}

-- A call of `execute_incident` that leaves everything but the dry run to the incident.
abbrev pub run_pending : IncidentExecutePayload
run_pending = record {
  action_id = none;
  approval_id = none;
  approval_token = none;
  autonomous = false;
  dry_run = some false;
}

-- The request that it is filled in to.
abbrev pub request_of : ActionRequest → ApprovalRecord → ℕ → ExecutePayload
request_of action r version = record {
  action = record action { dry_run = false };
  autonomous = false;
  approval_id = some r.approval_id;
  approval_token = some r.approval_token;
  expected_incident_version = some version;
}

pub first_text_self : (a : Option String) → first_text a a ≡ a
first_text_self none = refl
first_text_self (some a) = ground arith

-- The id and token of an approval that was looked up.
abbrev key_pair : Option String → Option ApprovalRecord → Option String × Option String
key_pair token none = (none, token)
key_pair token (some r) = (some r.approval_id, some r.approval_token)

approve_incident-filled :
    (env : Environ) (id : String) (payload : IncidentApprovalPayload) (w : World)
    {before : IncidentRecord} {action : ActionRequest}
    → lookup id w.incidents ≡ some before
    → Waits before action
    → payload.action_id ≡ none
    → payload.plan_step_id ≡ none
    → approve_incident env id payload w ≡ record_approval env id (filled payload action before) w
unfolding approve_incident get
approve_incident-filled env id payload w found waits no_action no_step =
    simp (found, no_action, waits.asked, no_step)

payload_of-request :
    (id : String) (w : World) {row before : IncidentRecord} (r : ApprovalRecord)
    {action : ActionRequest}
    → lookup id w.incidents ≡ some row
    → Waits before action
    → row.pending_action_graph ≡ before.pending_action_graph
    → row.approvals ≡ before.approvals ++ r ∷ []
    → r.approved ≡ true
    → r.action_id ≡ some action.action_id
    → payload_of id run_pending w ≡ (ok (request_of action r row.version), w)
unfolding payload_of get
payload_of-request id w {row} {before} r {action} found waits graph grown granted named =
    let chosen : pending_actions row.pending_action_graph ≡ some (action ∷ waits.rest) =
      ap pending_actions (graph ∙ waits.pending)
      ∙ ap (λ xs. if is_empty xs then none else some xs) waits.actions in
    let fits : (r.approved && is_for r.action_id action.action_id) ≡ true =
      ap (λ b. b && is_for r.action_id action.action_id) granted
      ∙ ap (λ o. is_for o action.action_id) named
      ∙ eq_refl action.action_id in
    let last : find_last (λ x. x.approved && is_for x.action_id action.action_id) row.approvals
        ≡ some r =
      ap (find_last (λ x. x.approved && is_for x.action_id action.action_id)) grown
      ∙ find_last-append (λ x. x.approved && is_for x.action_id action.action_id) before.approvals r
          fits in
    let keys : credentials row (record action { dry_run = false }) run_pending
        ≡ (some r.approval_id, some r.approval_token) =
      ap (key_pair none) last in
    simp (found, chosen, keys)

-- `POST /incidents/{id}/approve`, granted and naming neither action nor step, on an incident that is stored under
-- its id with a pending graph, and then `POST /incidents/{id}/execute` with nothing but a dry run of
-- false: where a plan and a decision allow the graph's first action, the approval has a new id and
-- is alive at the second time that the request reads, and the action is a rollback of the
-- checkout service, which answers, with an unclaimed key and a first attempt in time, the action is
-- executed, the workload passes the recovery check, and the row is resolved with the result.
pub execute_incident-Recovered :
    (env : Environ) (engine : PolicyEngine) (ecs : Ecs) (fate : ℕ → Fate) (id : String)
    (payload : IncidentApprovalPayload) (action : ActionRequest) (w : World)
    {before : IncidentRecord} {r : ApprovalRecord} {w' : World} {plan : ResponsePlan}
    {decision : PolicyDecision}
    → lookup id w.incidents ≡ some before
    → before.incident_id ≡ id
    → Waits before action
    → payload.action_id ≡ none
    → payload.plan_step_id ≡ none
    → approve_incident env id payload w ≡ (ok r, w')
    → Fits before (filled payload action before) r plan
    → env.clock (suc w'.clock_reads) ≤ r.expires_at
    → evaluate env engine
        (stamp env w')
        plan
        (record action { dry_run = false })
        false
        (context_of before)
      ≡ some decision
    → decision.allowed ≡ true
    → Rollback env fate (sent env (request_of action r (before.version + 1)))
    → lookup action.idempotency_key w'.claims ≡ none
    → (row : IncidentRecord) × (result : ActionResult) × (v : World) × (execute_incident env engine
          ecs fate id run_pending w'
        ≡ (ok (decision, result), v))
      × Recovered env engine ecs fate id (request_of action r (before.version + 1)) row result w' v
unfolding execute_incident
execute_incident-Recovered env engine ecs fate id payload action w {before} {r} {w'} found own waits
      no_action no_step approved fits alive decided allowed rollback unclaimed =
    let request = request_of action r (before.version + 1) in
    let sends = filled payload action before in
    let recorded : record_approval env id sends w ≡ (ok r, w') =
      sym (approve_incident-filled env id payload w found waits no_action no_step) ∙ approved in
    let (now, stored, answer, named, _, _) =
      record_approval-row env id sends w found own recorded in
    let asked = payload_of-request id w' r stored waits refl refl (answer ∙ fits.granted) named in
    let names : Names sends before r request = record {
      approval_id = refl;
      token = refl;
      action = refl;
      version = ground (arith, (eqb_iff (before.version + 1) (before.version + 1)).1 refl);
      supervised = refl;
    } in
    let (row, result, v, _, done, recovered) =
      record_approval-Recovered env engine ecs fate id sends request w found own recorded fits names
        alive decided allowed rollback unclaimed in
    (
      row,
      result,
      v,
      >>=-ok (payload_of id run_pending) (execute_action env engine ecs fate id) asked ∙ done,
      recovered,
    )
