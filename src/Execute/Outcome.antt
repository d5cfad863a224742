-- ===== src/Execute/Outcome.antt =====
-- What `execute_action` leaves behind: nothing executed when it is refused, the state behind a dry
-- run, and the write that the life cycle refuses.
use ai_assisted_aws_incident.Execute.{
  effective_dry_run, Grant, settle, conclude, trace_entry, run_authorised, execute_action,
  post_verify, act, verify_action_recovery, check_approval, ExecutePayload, approval_of,
  refuse_denied, require_approval, authorise, refuse_investigate_only,
}
use ai_assisted_aws_incident.Prelude.{
  subst, ℕ, ◌≡◌, refl, Bool, true, false, not, String, none, some, arith, ap, ◌∙◌,
}
use ai_assisted_aws_incident.Contracts.{
  ActionRequest, ActionResult, IncidentRecord, resolved, waiting_approval,
}
use ai_assisted_aws_incident.Environ.{Environ}
use ai_assisted_aws_incident.Dict.{lookup}
use ai_assisted_aws_incident.Policy.{PolicyEngine}
use ai_assisted_aws_incident.World.{
  >>=-ok, >>=-eq-ok, World, ok, err, Failure, value_error, utcnow, fresh_id, append_audit, >>=-err,
}
use ai_assisted_aws_incident.Adapters.{Ecs}
use ai_assisted_aws_incident.Executor.{Fate, run_agent}
use ai_assisted_aws_incident.Executor.Keeps.{run_agent-incidents}
use ai_assisted_aws_incident.Store.Laws.{upsert-refused}
use ai_assisted_aws_incident.Store.{may_follow, get, upsert}

-- The keys that were claimed and the workload stand as they stood.
pub record Untouched (v w : World) : Type 0 where
  pub claims : w.claims ≡ v.claims
  pub workload : w.workload ≡ v.workload

upsert-Untouched : (env : Environ) (r : IncidentRecord) (w : World) → Untouched w (upsert env r w).1
unfolding upsert utcnow get
upsert-Untouched env r w = ground arith

module _ (env : Environ) (engine : PolicyEngine) where
  hold-Untouched :
      (id : String) (payload : ExecutePayload) (r : IncidentRecord) (w : World)
      → Untouched w (refuse_investigate_only env engine id payload r w).1
  unfolding refuse_investigate_only append_audit
  hold-Untouched id payload r w = grind (arith, upsert-Untouched)

  deny-Untouched :
      (id : String) (payload : ExecutePayload) (r : IncidentRecord) (d : _) (w : World)
      → Untouched w (refuse_denied env engine id payload r d w).1
  unfolding refuse_denied append_audit
  deny-Untouched id payload r d w = grind (arith, upsert-Untouched)

  require-Untouched :
      (payload : ExecutePayload) (r : IncidentRecord) (d : _) (w : World)
      → Untouched w (require_approval env engine r payload d w).1
  unfolding require_approval approval_of check_approval utcnow
  require-Untouched payload r d w = ground arith

  authorise-Untouched :
      (id : String) (payload : ExecutePayload) (w : World)
      → Untouched w (authorise env engine id payload w).1
  unfolding authorise get fresh_id utcnow
  authorise-Untouched id payload w =
      grind (arith, hold-Untouched, deny-Untouched, require-Untouched)

module _ (env : Environ) (engine : PolicyEngine) (ecs : Ecs) (fate : ℕ → Fate) where
  -- A request that a gate refuses ends with that gate's error, with no idempotency key claimed and
  -- the workload as it was.
  pub execute_action-refused :
      (id : String) (payload : ExecutePayload) (w : World) {e : Failure} {v : World}
      → authorise env engine id payload w ≡ (err e, v)
      → (execute_action env engine ecs fate id payload w ≡ (err e, v)) × Untouched w v
  unfolding execute_action
  execute_action-refused id payload w {e} {v} h = (
    >>=-err (authorise env engine id payload) (run_authorised env engine ecs fate id payload) h,
    subst (λ o. Untouched w o.1) h (authorise-Untouched env engine id payload w),
  )

  verify-incidents :
      (action : ActionRequest) (w : World)
      → (verify_action_recovery env action w).1.incidents ≡ w.incidents
  unfolding verify_action_recovery
  verify-incidents action w = ground arith

  post_verify-incidents :
      (id : String) (action : ActionRequest) (result : ActionResult) (r : IncidentRecord)
      (w : World)
      → (post_verify env engine ecs fate id action result r w).1.incidents ≡ w.incidents
  unfolding post_verify append_audit trace_entry fresh_id utcnow
  post_verify-incidents id action result r w = ground (arith, verify-incidents action w)

  act-incidents :
      (id : String) (action : ActionRequest) (r : IncidentRecord) (w : World)
      → (act env engine ecs fate id action r w).1.incidents ≡ w.incidents
  unfolding act settle trace_entry fresh_id utcnow
  act-incidents id action r w = grind (arith, run_agent-incidents, post_verify-incidents)

  post_verify-dry :
      (id : String) (action : ActionRequest) (result : ActionResult) (r : IncidentRecord)
      (w : World) {c : Bool × IncidentRecord} {v : World}
      → action.dry_run ≡ true
      → result.success ≡ true
      → post_verify env engine ecs fate id action result r w ≡ (ok c, v)
      → c.0 ≡ true
  unfolding post_verify append_audit trace_entry fresh_id utcnow verify_action_recovery
  post_verify-dry id action result r w d s h = ground arith

  settle-dry :
      (id : String) (action : ActionRequest) (result : ActionResult) (r : IncidentRecord)
      (w : World) {done : ActionResult × IncidentRecord} {v : World}
      → action.dry_run ≡ true
      → settle env engine ecs fate id action result r w ≡ (ok done, v)
      → done.0.success ≡ true
      → (done.1.state ≡ resolved)
        × (done.1.final_resolution
            ≡ some "Dry-run completed; incident remains open until a verified execution runs.")
  unfolding settle conclude
  settle-dry id action result r w d h s =
      let (checked, v, verified, e) =
        >>=-eq-ok (post_verify env engine ecs fate id action result r) _ w h in
      let won : result.success ≡ true = ground arith in
      let ok_checked = post_verify-dry id action result r w d won verified in ground arith

  -- A dry run that succeeds leaves the incident resolved, with the text that it remains open.
  pub act-dry_run :
      (id : String) (action : ActionRequest) (r : IncidentRecord) (w : World)
      {done : ActionResult × IncidentRecord} {v : World}
      → action.dry_run ≡ true
      → act env engine ecs fate id action r w ≡ (ok done, v)
      → done.0.success ≡ true
      → (done.1.state ≡ resolved)
        × (done.1.final_resolution
            ≡ some "Dry-run completed; incident remains open until a verified execution runs.")
  unfolding act
  act-dry_run id action r w d h s =
      let (start, v₁, _, h₁) =
        >>=-eq-ok (trace_entry env "act" (some action.action_id) none "execute_start" false) _ w
          h in
      let (result, v₂, _, h₂) = >>=-eq-ok (run_agent env ecs fate action) _ v₁ h₁ in
      let (seen, v₃, _, h₃) =
        >>=-eq-ok
          (trace_entry env "observe" (some action.action_id) (some result.success)
            result.status_message (not result.success))
          _ v₂ h₂ in
      settle-dry id action result _ v₃ d h₃ s

  waiting-resolved : may_follow waiting_approval resolved ≡ false
  unfolding may_follow
  waiting-resolved = refl

  -- The life cycle has no edge from `waiting_approval` to `resolved`, and the run comes before the write:
  -- where no approval was asked for, a stored incident that waits for one and an action that
  -- succeeds end in a ValueError behind the run, with the row as it was.
  pub run_authorised-waiting :
      (id : String) (payload : ExecutePayload) (g : Grant) (w : World)
      {done : ActionResult × IncidentRecord} {v : World} {row : IncidentRecord}
      → lookup id w.incidents ≡ some row
      → row.state ≡ waiting_approval
      → done.1.incident_id ≡ id
      → act env engine ecs fate id
          (record payload.action {
            dry_run = effective_dry_run env payload.action payload.autonomous;
          })
          g.incident
          w
        ≡ (ok done, v)
      → done.1.state ≡ resolved
      → (run_authorised env engine ecs fate id payload g w ≡ (err value_error, v))
        × (v.incidents ≡ w.incidents)
  unfolding run_authorised
  run_authorised-waiting id payload g w {done} {v} {row} stored waiting same acted won =
      let action = record payload.action {
        dry_run = effective_dry_run env payload.action payload.autonomous;
      } in
      let kept : v.incidents ≡ w.incidents =
        subst (λ o. o.1.incidents ≡ w.incidents) acted (act-incidents id action g.incident w) in
      let refused : may_follow row.state done.1.state ≡ false =
        ap (λ s. may_follow s done.1.state) waiting
        ∙ ap (may_follow waiting_approval) won
        ∙ waiting-resolved in
      (
        >>=-ok (act env engine ecs fate id action g.incident) _ acted
            ∙ >>=-err (upsert env done.1) _ (
                upsert-refused env done.1 v row
                  (ap (λ i. lookup i v.incidents) same ∙ ap (lookup id) kept ∙ stored) refused),
        kept,
      )
