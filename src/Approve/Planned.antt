-- ===== src/Approve/Planned.antt =====
-- What `create_plan` of apps/api/routers/router/app.py leaves for an approval.
use ai_assisted_aws_incident.Prelude.{◌≡◌, ap, sym, subst, ◌∙◌, String, some, List, ◌∷◌, arith}
use ai_assisted_aws_incident.Contracts.{
  ActionGraph, ActionRequest, IncidentRecord, waiting_approval,
}
use ai_assisted_aws_incident.Value.{Fields, end}
use ai_assisted_aws_incident.Environ.{Environ}
use ai_assisted_aws_incident.Dict.{lookup}
use ai_assisted_aws_incident.Planner.{run}
use ai_assisted_aws_incident.Planner.Keeps.{run-kept}
use ai_assisted_aws_incident.Store.{get, upsert}
use ai_assisted_aws_incident.Store.Laws.{Stored, upsert-Stored}
use ai_assisted_aws_incident.Workflow.{Agents}
use ai_assisted_aws_incident.Workflow.Loop.{first_action}
use ai_assisted_aws_incident.Workflow.Routes.{create_plan, plan_found, with_plan}
use ai_assisted_aws_incident.World.{
  World, ok, pure, append_audit, about, with_budget, with_budget-ok, >>=-eq-ok, ◌>>◌,
}
use ai_assisted_aws_incident.Approve.Calls.{Waits}

-- A stored incident that waits for the approval of an action; its plan and approvals are as they were.
pub record Planned (id : String) (found : IncidentRecord) (graph : ActionGraph) (v : World)
    : Type 0 where
  pub row : IncidentRecord
  pub stored : lookup id v.incidents ≡ some row
  pub own : row.incident_id ≡ id
  pub state : row.state ≡ waiting_approval
  pub pending : row.pending_action_graph ≡ some graph
  pub asked : row.pending_approval_action_id ≡ first_action graph.actions
  pub response_plan : row.response_plan ≡ found.response_plan
  pub approvals : row.approvals ≡ found.approvals
  pub waits :
      (action : ActionRequest) (rest : List ActionRequest)
      → graph.actions ≡ action ∷ rest
      → Waits row action

module _ (env : Environ) (agents : Agents) (id : String) where
  pub told :
      (event : String) (payload : Fields) (made : ActionGraph) (u : World) {graph : ActionGraph}
      {v : World}
      → (append_audit env event payload >> pure made) u ≡ (ok graph, v)
      → (made ≡ graph) × (u.incidents ≡ v.incidents)
  unfolding append_audit
  told event payload made u h = ground arith

  assemble :
      (found : IncidentRecord) (made : ActionGraph × IncidentRecord) (kept : IncidentRecord)
      (v₁ v₂ : World) {graph : ActionGraph} {v : World}
      → found.incident_id ≡ id
      → made.1 ≡ record found { last_planner_confidence = (made.1).last_planner_confidence }
      → Stored env (with_plan made) v₁ kept v₂
      → made.0 ≡ graph
      → v₂.incidents ≡ v.incidents
      → Planned id found graph v
  assemble found made kept v₁ v₂ {graph} {v} own only s same table =
      let key : (with_plan made).incident_id ≡ id = ap (λ x. x.incident_id) only ∙ own in
      let pending : kept.pending_action_graph ≡ some graph =
        ap (λ x. x.pending_action_graph) s.only ∙ ap some same in
      let asked : kept.pending_approval_action_id ≡ first_action graph.actions =
        ap (λ x. x.pending_approval_action_id) s.only ∙ ap (λ g. first_action g.actions) same in
      record {
        row = kept;
        stored =
            ap (lookup id) (sym table)
            ∙ subst (λ k. lookup k v₂.incidents ≡ some kept) key s.reads_back;
        own = ap (λ x. x.incident_id) s.only ∙ key;
        state = s.same_state;
        pending = pending;
        asked = asked;
        response_plan = ap (λ x. x.response_plan) s.only ∙ ap (λ x. x.response_plan) only;
        approvals = ap (λ x. x.approvals) s.only ∙ ap (λ x. x.approvals) only;
        waits = λ action rest e. record {
          graph = graph;
          rest = rest;
          pending = pending;
          actions = e;
          asked = asked ∙ ap first_action e;
        };
      }

  plan_found-Planned :
      (found : IncidentRecord) (w : World) {graph : ActionGraph} {v : World}
      → found.incident_id ≡ id
      → plan_found env agents id found w ≡ (ok graph, v)
      → Planned id found graph v
  unfolding plan_found
  plan_found-Planned found w {graph} {v} own h =
      let (made, v₁, h₁, n₁) =
        >>=-eq-ok (with_budget env (run env agents.planner_llm found)) _ w h in
      let (u, t, ran, _) = with_budget-ok env (run env agents.planner_llm found) w h₁ in
      let only = run-kept env agents.planner_llm found u ran in
      let (kept, v₂, h₂, n₂) = >>=-eq-ok (upsert env (with_plan made)) _ v₁ n₁ in
      let (same, table) = told "remediation_plan_created" (about id end) made.0 v₂ n₂ in
      let s = upsert-Stored env (with_plan made) v₁ h₂ in
      assemble found made kept v₁ v₂ own only s same table

  -- A plan that is made of an incident that is stored under its id leaves the incident stored there: it waits for
  -- an approval of the graph's first action, if there is one, with its response plan and its
  -- approvals as they were.
  pub create_plan-Planned :
      (found : IncidentRecord) (w : World) {graph : ActionGraph} {v : World}
      → lookup id w.incidents ≡ some found
      → found.incident_id ≡ id
      → create_plan env agents id w ≡ (ok graph, v)
      → Planned id found graph v
  unfolding create_plan get
  create_plan-Planned found w {graph} {v} stored own h =
      let chosen : plan_found env agents id found w ≡ (ok graph, v) = ground (arith, stored, h) in
      plan_found-Planned found w own chosen
