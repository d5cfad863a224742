-- ===== src/Scenario/Laws.antt =====
-- What the demo leaves behind.
use ai_assisted_aws_incident.Prelude.{
  subst, sym, Option-cases, inl, inr, if◌then◌else◌, ◌&&◌, ℕ, ◌≡◌, ap, ◌∙◌, Bool, true, false,
  String, Option, none, some, arith,
}
use ai_assisted_aws_incident.Contracts.{
  ActionRequest, ActionResult, add_trace, ApprovalRecord, IncidentRecord, ExecutionTraceEntry,
  resolved, investigating,
}
use ai_assisted_aws_incident.Environ.{Environ}
use ai_assisted_aws_incident.Adapters.{Ecs}
use ai_assisted_aws_incident.Executor.{Fate, run_agent}
use ai_assisted_aws_incident.Execute.{trace_entry}
use ai_assisted_aws_incident.Store.{upsert, get, bump}
use ai_assisted_aws_incident.Dict.{lookup, lookup-insert_self}
use ai_assisted_aws_incident.Workflow.{Agents}
use ai_assisted_aws_incident.World.{
  ◌>>◌, World, ok, fresh_id, utcnow, append_audit, >>=-eq-ok, pure,
}
use ai_assisted_aws_incident.World.Workload.{CheckoutState, verify_recovery}
use ai_assisted_aws_incident.Scenario.{
  Fields, finish, record_verification, with_outcome, ScenarioResult, verify, break_checkout,
  plan_repair, approve_repair, repair, run_checkout_deployment_failure,
}

-- The outcome of a demo: its incident is stored, it is resolved only when the workload's own numbers
-- show the recovery, and its answer has those numbers.
pub record Repaired (v : World) (metrics : CheckoutState) (j : IncidentRecord) : Type 0 where
  pub stored : lookup j.incident_id v.incidents ≡ some j
  pub measured : v.workload ≡ metrics
  pub recovered : j.state ≡ resolved → verify_recovery metrics ≡ true

module _ (env : Environ) (ecs : Ecs) (fate : ℕ → Fate) where
  upsert-stored :
      (i : IncidentRecord) (w : World) {j : IncidentRecord} {v : World}
      → upsert env i w ≡ (ok j, v)
      → (lookup j.incident_id v.incidents ≡ some j)
        × (v.workload ≡ w.workload)
        × (j.state ≡ i.state)
  unfolding upsert bump utcnow get
  upsert-stored i w h = elim (Option-cases (lookup i.incident_id w.incidents)) [
    | inl e ↦ grind (arith, lookup-insert_self)
    | inr (r, e) ↦ grind (arith, lookup-insert_self)
  ]

  trace_entry-workload :
      (phase : String) (action_id : Option String) (success : Option Bool) (message : String)
      (replan : Bool) (w : World) {e : ExecutionTraceEntry} {v : World}
      → trace_entry env phase action_id success message replan w ≡ (ok e, v)
      → v.workload ≡ w.workload
  unfolding trace_entry fresh_id utcnow
  trace_entry-workload phase action_id success message replan w h = ground arith

  verify-measures :
      (w : World) {b : Bool} {m : CheckoutState} {v : World}
      → verify env w ≡ (ok (b, m), v)
      → (b ≡ verify_recovery m) × (m ≡ w.workload) × (v ≡ w)
  unfolding verify
  verify-measures w h = ground arith

  resolved-both : (a b : Bool) → (if a && b then resolved else investigating) ≡ resolved → b ≡ true
  resolved-both a b h = ground arith

  -- The event behind the write leaves what was written.
  told-Repaired :
      (event : String) (payload : Fields) (metrics : CheckoutState) (kept : IncidentRecord)
      (u : World) {m : CheckoutState} {j : IncidentRecord} {v : World}
      → Repaired u metrics kept
      → (append_audit env event payload
            >> pure {A = CheckoutState × IncidentRecord} (metrics, kept))
          u
        ≡ (ok (m, j), v)
      → Repaired v m j
  unfolding append_audit
  told-Repaired event payload metrics kept u {m} {j} {v} there h =
      let e : (kept ≡ j) × (metrics ≡ m) × (u.workload ≡ v.workload) × (u.incidents ≡ v.incidents) =
        ground arith in
      record {
        stored =
            subst (λ x. lookup x.incident_id v.incidents ≡ some x) e.0
              (subst (λ d. lookup kept.incident_id d ≡ some kept) e.3 there.stored);
        measured = sym e.2 ∙ there.measured ∙ e.1;
        recovered =
            λ done. ap verify_recovery (sym e.1) ∙ there.recovered (ap (λ x. x.state) e.0 ∙ done);
      }

  finish-Repaired :
      (result : ActionResult) (checked : Bool × CheckoutState) (i : IncidentRecord) (w : World)
      {m : CheckoutState} {j : IncidentRecord} {v : World}
      → checked.0 ≡ verify_recovery checked.1
      → checked.1 ≡ w.workload
      → finish env result checked i w ≡ (ok (m, j), v)
      → Repaired v m j
  unfolding finish append_audit
  finish-Repaired result checked i w {m} {j} {v} same measured h =
      let (kept, v₁, h₁, n₁) = >>=-eq-ok (upsert env (with_outcome env result checked.0 i)) _ w h in
      let (stored, workload, state) = upsert-stored (with_outcome env result checked.0 i) w h₁ in
      told-Repaired "scenario_completed" _ checked.1 kept v₁
        (record {
          stored = stored;
          measured = workload ∙ sym measured;
          recovered = λ done. sym same ∙ resolved-both result.success checked.0 (sym state ∙ done);
        })
        n₁

  record_verification-Repaired :
      (action : ActionRequest) (result : ActionResult) (i : IncidentRecord)
      (checked : Bool × CheckoutState) (w : World) {m : CheckoutState} {j : IncidentRecord}
      {v : World}
      → checked.0 ≡ verify_recovery checked.1
      → checked.1 ≡ w.workload
      → record_verification env action result i checked w ≡ (ok (m, j), v)
      → Repaired v m j
  unfolding record_verification
  record_verification-Repaired action result i checked w same measured h =
      let (seen, v₁, h₁, n₁) =
        >>=-eq-ok
          (trace_entry env "verify" (some action.action_id) (some checked.0) "checkout_metrics"
            false)
          (λ seen. finish env result checked (add_trace seen i)) w h in
      let kept =
        trace_entry-workload "verify" (some action.action_id) (some checked.0) "checkout_metrics"
          false w h₁ in
      finish-Repaired result checked (add_trace seen i) v₁ same (measured ∙ sym kept) n₁

  -- A repair of the demo that ends well has stored its incident, answers with the numbers that the checkout
  -- service has then, and has resolved the incident only when these show the recovery.
  pub repair-Repaired :
      (action : ActionRequest) (i : IncidentRecord) (w : World) {m : CheckoutState}
      {j : IncidentRecord} {v : World}
      → repair env ecs fate action i w ≡ (ok (m, j), v)
      → Repaired v m j
  unfolding repair
  repair-Repaired action i w h =
      let (act, v₁, h₁, n₁) =
        >>=-eq-ok (trace_entry env "act" (some action.action_id) none "" false) _ w h in
      let (result, v₂, h₂, n₂) = >>=-eq-ok (run_agent env ecs fate action) _ v₁ n₁ in
      let (checked, v₃, h₃, n₃) = >>=-eq-ok (verify env) _ v₂ n₂ in
      let (same, measured, here) = verify-measures v₂ h₃ in
      record_verification-Repaired action result _ checked v₃ same
        (measured ∙ ap (λ u. u.workload) (sym here)) n₃

  answer-Repaired :
      (approval : ApprovalRecord) (metrics : CheckoutState) (kept : IncidentRecord) (u : World)
      {r : ScenarioResult} {v : World}
      → Repaired u metrics kept
      → pure {A = ScenarioResult}
          (record { incident = kept; approval = approval; metrics = metrics })
          u
        ≡ (ok r, v)
      → Repaired v r.metrics r.incident
  answer-Repaired approval metrics kept u {r} {v} there h =
      let here : u ≡ v = ground arith in
      let answer : record { incident = kept; approval = approval; metrics = metrics } ≡ r =
        ground arith in
      subst (λ x. Repaired v x.metrics x.incident) answer
        (subst (λ x. Repaired x metrics kept) here there)

  -- A demo that ends well has stored its incident, answers with the numbers that the checkout service has
  -- then, and has resolved the incident only when these show the recovery.
  pub run_checkout_deployment_failure-Repaired :
      (agents : Agents) (w : World) {r : ScenarioResult} {v : World}
      → run_checkout_deployment_failure env agents ecs fate w ≡ (ok r, v)
      → Repaired v r.metrics r.incident
  unfolding run_checkout_deployment_failure
  run_checkout_deployment_failure-Repaired agents w {r} {v} h =
      let (incident, v₁, h₁, n₁) = >>=-eq-ok (break_checkout env) _ w h in
      let (plan, v₂, h₂, n₂) = >>=-eq-ok (plan_repair env agents incident) _ v₁ n₁ in
      let (approved, v₃, h₃, n₃) = >>=-eq-ok (approve_repair env plan.0 plan.1) _ v₂ n₂ in
      let (done, v₄, h₄, n₄) = >>=-eq-ok (repair env ecs fate plan.0 approved.1) _ v₃ n₃ in
      answer-Repaired approved.0 done.0 done.1 v₄ (repair-Repaired plan.0 approved.1 v₃ h₄) n₄
