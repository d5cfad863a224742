-- ===== src/Approve/Remediation.antt =====
-- The remediation of a broken deployment in three calls: `create_plan` of apps/api/routers/router/app.py, then
-- `approve_incident` and `execute_incident` of apps/api/main.py.
use ai_assisted_aws_incident.Prelude.{
  suc, ◌+◌, ◌≤◌, ◌≡◌, refl, ap, sym, subst, ◌∙◌, ℕ, true, false, String, Option, none, some, [],
  ◌∷◌, has_part, lower, ◌==◌, All, arith, concat,
}
use ai_assisted_aws_incident.Value.{text}
use ai_assisted_aws_incident.Contracts.{
  ActionGraph, ActionRequest, ActionResult, ApprovalRecord, IncidentRecord, PolicyDecision,
  ResponsePlan, RouterDecision, resolved,
}
use ai_assisted_aws_incident.Environ.{Environ}
use ai_assisted_aws_incident.Dict.{lookup}
use ai_assisted_aws_incident.Policy.{PolicyEngine, evaluate}
use ai_assisted_aws_incident.Adapters.{Ecs}
use ai_assisted_aws_incident.Executor.{Fate, in_time}
use ai_assisted_aws_incident.World.{World, ok}
use ai_assisted_aws_incident.World.Workload.{verify_recovery}
use ai_assisted_aws_incident.Workflow.{Agents}
use ai_assisted_aws_incident.Workflow.Routes.{create_plan}
use ai_assisted_aws_incident.Execute.{effective_dry_run, holding, context_of}
use ai_assisted_aws_incident.Execute.Admitted.{stamp}
use ai_assisted_aws_incident.Execute.Rollback.{Rollback}
use ai_assisted_aws_incident.Execute.Recovery.{sent}
use ai_assisted_aws_incident.Approve.{IncidentApprovalPayload, approve_incident, execute_incident}
use ai_assisted_aws_incident.Approve.Recovery.{Fits}
use ai_assisted_aws_incident.Approve.Calls.{
  filled, run_pending, request_of, first_text_self, execute_incident-Recovered,
}
use ai_assisted_aws_incident.Approve.Proposed.{create_plan-Rollback}

holding_pending : (d : Option RouterDecision) (graph : ActionGraph) → holding d (some graph) ≡ none
holding_pending none graph = refl
holding_pending (some d) graph = refl

-- In the local mode a request that is not autonomous runs as it asks.
sent-Rollback :
    (env : Environ) (fate : ℕ → Fate) (action : ActionRequest) (r : ApprovalRecord) (version : ℕ)
    → Rollback env fate (record action { dry_run = false })
    → Rollback env fate (sent env (request_of action r version))
unfolding effective_dry_run
sent-Rollback env fate action r version b =
    let aws : (env.app.execution_mode == "aws") ≡ false = ap (λ m. m == "aws") b.local in
    record {
      local = b.local;
      up = b.up;
      kind = b.kind;
      target = b.target;
      valid = b.valid;
      wet = ground (arith, aws);
      on_time = b.on_time;
    }

-- Without the language model and in the local mode, with a checkout service that answers and a
-- first attempt in time: a plan that is made of an incident of the checkout service, stored under
-- its id, with a response plan and a symptom that speaks of a deployment, then its approval,
-- granted and naming neither action nor step, and an execution whose payload only sets dry_run to
-- false repair the service, if the policy allows the plan's one action, not dry, on the incident
-- that waits, the approval has a new id and is alive at the second time that the execution reads,
-- the key of the rollback is unclaimed, and a text reads as itself: the result is a success, the
-- workload passes the recovery check, and the stored incident is resolved.
pub create_plan-Recovered :
    (env : Environ) (engine : PolicyEngine) (ecs : Ecs) (fate : ℕ → Fate) (agents : Agents)
    (id : String) (payload : IncidentApprovalPayload) (found : IncidentRecord) (w : World)
    {graph : ActionGraph} {u : World} {r : ApprovalRecord} {w' : World} {plan : ResponsePlan}
    → lookup id w.incidents ≡ some found
    → found.incident_id ≡ id
    → found.metadata.service ≡ "checkout-service"
    → found.metadata.resource ≡ "checkout-service"
    → has_part "deployment" (lower found.metadata.symptom) ≡ true
    → found.response_plan ≡ some plan
    → env.agent.agentic_enabled ≡ false
    → env.app.execution_mode ≡ "local"
    → env.workload_up ≡ true
    → fate 2 ≡ in_time
    → ((s : String) → env.as_str (text s) ≡ some s)
    → create_plan env agents id w ≡ (ok graph, u)
    → payload.approved ≡ true
    → payload.action_id ≡ none
    → payload.plan_step_id ≡ none
    → approve_incident env id payload u ≡ (ok r, w')
    → All (λ a. (a.approval_id == r.approval_id) ≡ false) found.approvals
    → env.clock (suc w'.clock_reads) ≤ r.expires_at
    → lookup (concat (found.incident_id ∷ ":rollback:checkout-r42" ∷ [])) w'.claims ≡ none
    → ((action : ActionRequest) (row : IncidentRecord)
        → graph.actions ≡ action ∷ []
        → lookup id u.incidents ≡ some row
        → (decision : PolicyDecision) × (evaluate env engine
              (stamp env w')
              plan
              (record action { dry_run = false })
              false
              (context_of row)
            ≡ some decision)
          × (decision.allowed ≡ true))
    → (row : IncidentRecord) × (decision : PolicyDecision) × (result : ActionResult) × (v : World)
      × (execute_incident env engine ecs fate id run_pending w' ≡ (ok (decision, result), v))
      × (result.success ≡ true)
      × (verify_recovery v.workload ≡ true)
      × (lookup id v.incidents ≡ some row)
      × (row.state ≡ resolved)
create_plan-Recovered env engine ecs fate agents id payload found w {graph} {u} {r} {w'} {plan}
      stored own service resource symptom has_plan off local up on_time reads made granted no_action
      no_step approved new_id alive unclaimed allows =
    let (action, planned, one, key, waits, runs) =
      create_plan-Rollback env agents id fate found w stored own service resource symptom off local
        up on_time reads made in
    let before = planned.row in
    let fits : Fits before (filled payload action before) r plan = record {
      granted = granted;
      own_version = refl;
      own_step = first_text_self before.pending_plan_step_id;
      new_id =
          subst (All (λ a. (a.approval_id == r.approval_id) ≡ false)) (sym planned.approvals)
            new_id;
      has_plan = planned.response_plan ∙ has_plan;
      free =
          ap (holding before.latest_router_decision) planned.pending
          ∙ holding_pending before.latest_router_decision graph;
    } in
    let (decision, decided, allowed) = allows action before one planned.stored in
    let (_, result, v, done, recovered) =
      execute_incident-Recovered env engine ecs fate id payload action u planned.stored planned.own
        waits no_action no_step approved fits alive decided allowed
        (sent-Rollback env fate action r (before.version + 1) runs)
        (ap (λ k. lookup k w'.claims) key ∙ unclaimed) in
    (
      recovered.row, decision, result, v, done, recovered.success, recovered.recovered,
      recovered.stored, recovered.state,
    )
