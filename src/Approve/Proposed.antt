-- ===== src/Approve/Proposed.antt =====
-- The plan that the planner makes without the language model for the checkout service: `_stub_graph` of
-- src/agents/planner/agent.py behind `create_plan` of apps/api/routers/router/app.py.
use Prim.Native.String.{slice}
use ai_assisted_aws_incident.Prelude.{
  ℕ, Bool, true, false, has_part, lower, concat, ◌==◌, Option-cases, inl, inr, ◌≡◌, refl, ap, sym,
  ◌∙◌, String, some, List, [], ◌∷◌, arith,
}
use ai_assisted_aws_incident.Contracts.{
  rollback_deployment, ActionGraph, ActionRequest, IncidentRecord,
}
use ai_assisted_aws_incident.Value.{end, field, text}
use ai_assisted_aws_incident.Environ.{Environ, env_flag}
use ai_assisted_aws_incident.Dict.{lookup}
use ai_assisted_aws_incident.Planner.{
  run, plan_under, stub_graph, stub_actions, propose, build_plan_steps,
}
use ai_assisted_aws_incident.Store.{get, upsert}
use ai_assisted_aws_incident.Workflow.{Agents}
use ai_assisted_aws_incident.Workflow.Routes.{create_plan, plan_found, with_plan}
use ai_assisted_aws_incident.World.{
  fresh_id, World, ok, about, with_budget, with_budget-ok, >>=-eq-ok,
}
use ai_assisted_aws_incident.Adapters.{are_valid_parameters}
use ai_assisted_aws_incident.Executor.{Fate, in_time}
use ai_assisted_aws_incident.Execute.Rollback.{Rollback}
use ai_assisted_aws_incident.Approve.Calls.{Waits}
use ai_assisted_aws_incident.Approve.Planned.{Planned, create_plan-Planned, told}

module _ (env : Environ) (agents : Agents) (id : String) where
  -- The rollback that the planner proposes without the language model.
  abbrev proposed : IncidentRecord → String → Bool → ActionRequest
  proposed found action_id dry = record {
    action_id = action_id;
    action_type = rollback_deployment;
    target = found.metadata.resource;
    parameters = field "service" (text found.metadata.service) (
        field "deployment" (text "checkout-service")
          (field "to_revision" (text "checkout-r42") end));
    idempotency_key = concat (found.incident_id ∷ ":rollback:checkout-r42" ∷ []);
    dry_run = dry;
    timeout_seconds = 120;
  }

  proposed-valid :
      (found : IncidentRecord) (action_id : String) (dry : Bool)
      → ((s : String) → env.as_str (text s) ≡ some s)
      → are_valid_parameters env rollback_deployment (proposed found action_id dry).parameters
        ≡ true
  unfolding are_valid_parameters
  proposed-valid found action_id dry reads = simp (reads "checkout-service", reads "checkout-r42")

  stub_actions-proposed :
      (found : IncidentRecord) (w : World) {actions : List ActionRequest} {v : World}
      → found.metadata.service ≡ "checkout-service"
      → has_part "deployment" (lower found.metadata.symptom) ≡ true
      → stub_actions env found w ≡ (ok actions, v)
      → (action_id : String) × (dry : Bool) × (actions ≡ proposed found action_id dry ∷ [])
  unfolding stub_actions propose fresh_id
  stub_actions-proposed found w service symptom h =
      let checkout : (found.metadata.service == "checkout-service") ≡ true =
        ap (λ s. s == "checkout-service") service in
      (
        concat ("act_" ∷ slice (env.uuid_hex w.uuids) 0 8 ∷ []),
        env_flag env "PLANNER_DEFAULT_DRY_RUN" "true",
        ground (arith, checkout, symptom, h),
      )

  run-proposed :
      (found : IncidentRecord) (w : World) {done : ActionGraph × IncidentRecord} {v : World}
      → env.agent.agentic_enabled ≡ false
      → found.metadata.service ≡ "checkout-service"
      → has_part "deployment" (lower found.metadata.symptom) ≡ true
      → run env agents.planner_llm found w ≡ (ok done, v)
      → (action_id : String) × (dry : Bool) × ((done.0).actions ≡ proposed found action_id dry ∷ [])
  unfolding run plan_under stub_graph
  run-proposed found w {done} {v} off service symptom h =
      let chosen : stub_graph env found w ≡ (ok done, v) = elim (Option-cases found.response_plan) [
        | inl missing ↦ ground (arith, missing, off, h)
        | inr (plan, there) ↦ ground (arith, there, off, h)
      ] in
      let (actions, v₁, h₁, n₁) = >>=-eq-ok (stub_actions env found) _ w chosen in
      let (steps, v₂, h₂, n₂) = >>=-eq-ok (build_plan_steps env 0 actions) _ v₁ n₁ in
      let (action_id, dry, e) = stub_actions-proposed found w service symptom h₁ in
      let same : (done.0).actions ≡ actions = ground (arith, n₂) in (action_id, dry, same ∙ e)

  plan_found-proposed :
      (found : IncidentRecord) (w : World) {graph : ActionGraph} {v : World}
      → env.agent.agentic_enabled ≡ false
      → found.metadata.service ≡ "checkout-service"
      → has_part "deployment" (lower found.metadata.symptom) ≡ true
      → plan_found env agents id found w ≡ (ok graph, v)
      → (action_id : String) × (dry : Bool) × (graph.actions ≡ proposed found action_id dry ∷ [])
  unfolding plan_found
  plan_found-proposed found w off service symptom h =
      let (made, v₁, h₁, n₁) =
        >>=-eq-ok (with_budget env (run env agents.planner_llm found)) _ w h in
      let (u, t, ran, _) = with_budget-ok env (run env agents.planner_llm found) w h₁ in
      let (kept, v₂, h₂, n₂) = >>=-eq-ok (upsert env (with_plan made)) _ v₁ n₁ in
      let (same, _) = told env agents id "remediation_plan_created" (about id end) made.0 v₂ n₂ in
      let (action_id, dry, e) = run-proposed found u off service symptom ran in
      (action_id, dry, ap (λ g. g.actions) (sym same) ∙ e)

  -- Without the language model, a plan that is made of a stored incident of the checkout service whose symptom
  -- speaks of a deployment has one action, for whose approval the stored incident then waits; not
  -- dry, it is a rollback that the local adapter runs, if the service is the resource too and
  -- answers, and the first attempt ends in time.
  pub create_plan-Rollback :
      (fate : ℕ → Fate) (found : IncidentRecord) (w : World) {graph : ActionGraph} {v : World}
      → lookup id w.incidents ≡ some found
      → found.incident_id ≡ id
      → found.metadata.service ≡ "checkout-service"
      → found.metadata.resource ≡ "checkout-service"
      → has_part "deployment" (lower found.metadata.symptom) ≡ true
      → env.agent.agentic_enabled ≡ false
      → env.app.execution_mode ≡ "local"
      → env.workload_up ≡ true
      → fate 2 ≡ in_time
      → ((s : String) → env.as_str (text s) ≡ some s)
      → create_plan env agents id w ≡ (ok graph, v)
      → (action : ActionRequest) × (planned : Planned id found graph v) × (graph.actions
          ≡ action ∷ [])
        × (action.idempotency_key ≡ concat (found.incident_id ∷ ":rollback:checkout-r42" ∷ []))
        × Waits planned.row action
        × Rollback env fate (record action { dry_run = false })
  unfolding create_plan get
  create_plan-Rollback fate found w {graph} {v} stored own service resource symptom off local up
        on_time reads h =
      let chosen : plan_found env agents id found w ≡ (ok graph, v) = ground (arith, stored, h) in
      let (action_id, dry, e) = plan_found-proposed found w off service symptom chosen in
      let planned = create_plan-Planned env agents id found w stored own h in
      (
        proposed found action_id dry,
        planned,
        e,
        refl,
        planned.waits (proposed found action_id dry) [] e,
        record {
          local = local;
          up = up;
          kind = refl;
          target = resource;
          valid = proposed-valid found action_id dry reads;
          wet = refl;
          on_time = on_time;
        },
      )
