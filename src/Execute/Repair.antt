-- ===== src/Execute/Repair.antt =====
-- A rollback that `execute_action` runs in the local mode, from the gates to the stored incident.
use Prim.Native.String.{slice}
use ai_assisted_aws_incident.Prelude.{
  concat, suc, ◌∙◌, ap, ℕ, ◌≡◌, refl, Bool, true, false, String, Option, none, some, [], ◌∷◌, ◌++◌,
  arith, inl, inr, Bool-cases, ◌==◌,
}
use ai_assisted_aws_incident.Contracts.{
  ActionRequest, ActionResult, ExecutionTraceEntry, IncidentRecord, add_trace, executing, resolved,
}
use ai_assisted_aws_incident.Environ.{Environ, env_flag}
use ai_assisted_aws_incident.Dict.{insert, lookup}
use ai_assisted_aws_incident.Policy.{PolicyEngine}
use ai_assisted_aws_incident.Adapters.{Ecs}
use ai_assisted_aws_incident.Executor.{Fate, run_agent}
use ai_assisted_aws_incident.World.{>>=-ok, fresh_id, utcnow, append_audit, World, ok}
use ai_assisted_aws_incident.World.Workload.{CheckoutState, rollback, verify_recovery}
use ai_assisted_aws_incident.Execute.{
  metrics_fields, verification_event, Fields, act, conclude, post_verify, settle, trace_entry,
  verify_action_recovery,
}
use ai_assisted_aws_incident.Execute.Rollback.{Rollback, Ran, run_agent-Ran, result_at, revision_of}

-- Nothing but the events, the clock and the ids has moved.
pub record Same (w v : World) : Type 0 where
  pub workload : v.workload ≡ w.workload
  pub claims : v.claims ≡ w.claims
  pub incidents : v.incidents ≡ w.incidents

pub rollback-recovers : (to : String) (s : CheckoutState) → verify_recovery (rollback to s) ≡ true
unfolding rollback verify_recovery
rollback-recovers to s = refl

module _ (env : Environ) (engine : PolicyEngine) (ecs : Ecs) (fate : ℕ → Fate)
    (action : ActionRequest) where
  verify-recovers :
      (w : World)
      → Rollback env fate action
      → verify_recovery w.workload ≡ true
      → (m : String) × (d : Fields) × (verify_action_recovery env action w
          ≡ (ok (record { verified = true; message = m; details = d }), w))
  unfolding verify_action_recovery
  verify-recovers w r good =
      let mode : (env.app.execution_mode == "local") ≡ true = ap (λ m. m == "local") r.local in
      let place : (action.target == "checkout-service") ≡ true =
        ap (λ t. t == "checkout-service") r.target in
      (
        "checkout recovery verified from business metrics",
        metrics_fields w.workload,
        simp (r.wet, mode, place, r.up, good),
      )

  trace_entry-Same :
      (phase : String) (id : Option String) (success : Option Bool) (message : String)
      (replan : Bool) (w : World)
      → (e : ExecutionTraceEntry) × (v : World) × (trace_entry env phase id success message replan w
          ≡ (ok e, v))
        × Same w v
  unfolding trace_entry fresh_id utcnow
  trace_entry-Same phase id success message replan w = (
    record {
      trace_id = concat ("et_" ∷ slice (env.uuid_hex w.uuids) 0 10 ∷ []);
      phase = phase;
      action_id = id;
      success = success;
      message = message;
      replan_requested = replan;
      created_at = env.clock w.clock_reads;
    },
    record w { uuids = suc w.uuids; clock_reads = suc w.clock_reads },
    refl,
    record { workload = refl; claims = refl; incidents = refl },
  )

  post_verify-recovers :
      (id : String) (result : ActionResult) (incident : IncidentRecord) (w : World)
      → Rollback env fate action
      → result.success ≡ true
      → verify_recovery w.workload ≡ true
      → (j : IncidentRecord) × (v : World) × (post_verify env engine ecs fate id action result
            incident w
          ≡ (ok (true, j), v))
        × (j.incident_id ≡ incident.incident_id)
        × (j.executed_actions ≡ incident.executed_actions)
        × Same w v
  unfolding post_verify append_audit
  post_verify-recovers id result incident w r won good =
      elim (Bool-cases (env_flag env "EXECUTE_POST_VERIFY_ENABLED" "true")) [
        | inr skipped ↦ (
          incident,
          w,
          rw (skipped, won) refl,
          refl,
          refl,
          record { workload = refl; claims = refl; incidents = refl },
        )
        | inl asked ↦
            let (m, d, verified) = verify-recovers w r good in
            let (e, v, traced, same) =
              trace_entry-Same "verify" (some action.action_id) (some true) m false w in
            (
              add_trace e incident,
              (append_audit env "post_action_verification"
                  (verification_event id action
                    (record { verified = true; message = m; details = d }))
                  v).1,
              rw asked (
                  >>=-ok (verify_action_recovery env action) _ verified
                  ∙ >>=-ok (trace_entry env "verify" (some action.action_id) (some true) m false) _
                      traced),
              refl,
              refl,
              record { workload = same.workload; claims = same.claims; incidents = same.incidents },
            )
      ]

  -- The incident behind a repair.
  pub record Fixed (before : IncidentRecord) (result : ActionResult) (j : IncidentRecord)
      : Type 0 where
    pub same_id : j.incident_id ≡ before.incident_id
    pub state : j.state ≡ resolved
    pub resolution :
        j.final_resolution
        ≡ some "Checkout service recovered after approved rollback and verification."
    pub executed : j.executed_actions ≡ before.executed_actions ++ result ∷ []

  settle-Fixed :
      (id : String) (result : ActionResult) (incident : IncidentRecord) (w : World)
      → Rollback env fate action
      → result.success ≡ true
      → verify_recovery w.workload ≡ true
      → (j : IncidentRecord) × (v : World) × (settle env engine ecs fate id action result incident w
          ≡ (ok (result, j), v))
        × (j.incident_id ≡ incident.incident_id)
        × (j.state ≡ resolved)
        × (j.final_resolution
            ≡ some "Checkout service recovered after approved rollback and verification.")
        × (j.executed_actions ≡ incident.executed_actions)
        × Same w v
  unfolding settle conclude
  settle-Fixed id result incident w r won good =
      let (i, v, checked, same_id, executed, same) =
        post_verify-recovers id result incident w r won good in
      (
        conclude result.success true action.dry_run i,
        v,
        >>=-ok (post_verify env engine ecs fate id action result incident) _ checked,
        same_id,
        ground (arith, won),
        ground (arith, won, r.wet),
        executed,
        same,
      )

  -- What the act has changed.
  pub record Acted (before : IncidentRecord) (w v : World) (done : ActionResult × IncidentRecord)
      : Type 0 where
    pub success : done.0.success ≡ true
    pub fixed : Fixed before done.0 done.1
    pub ran : Ran env ecs fate action w v

  pub act-Acted :
      (id : String) (incident : IncidentRecord) (w : World)
      → Rollback env fate action
      → lookup action.idempotency_key w.claims ≡ none
      → (done : ActionResult × IncidentRecord) × (v : World) × (act env engine ecs fate id action
            incident w
          ≡ (ok done, v))
        × Acted incident w v done
  unfolding act
  act-Acted id incident w r free =
      let (e₁, w₁, h₁, s₁) =
        trace_entry-Same "act" (some action.action_id) none "execute_start" false w in
      let (s, f, w₂, h₂, ran) =
        run_agent-Ran env ecs fate action w₁ r
          (ap (lookup action.idempotency_key) s₁.claims ∙ free) in
      let result = result_at env ecs fate action s f in
      let (e₃, w₃, h₃, s₃) =
        trace_entry-Same "observe" (some action.action_id) (some true)
          "Rolled back checkout deployment" false w₂ in
      let moved : w₃.workload ≡ rollback (revision_of env action) w.workload =
        s₃.workload ∙ ran.workload ∙ ap (rollback (revision_of env action)) s₁.workload in
      let good : verify_recovery w₃.workload ≡ true =
        ap verify_recovery moved ∙ rollback-recovers (revision_of env action) w.workload in
      let (j, v, settled, same_id, state, resolution, executed, s₄) =
        settle-Fixed id result
          (add_trace e₃ (record (add_trace e₁ incident) {
            state = executing;
            executed_actions = incident.executed_actions ++ result ∷ [];
          }))
          w₃ r refl good in
      (
        (result, j),
        v,
        >>=-ok (trace_entry env "act" (some action.action_id) none "execute_start" false) _ h₁
            ∙ >>=-ok (run_agent env ecs fate action) _ h₂
            ∙ >>=-ok
                (trace_entry env "observe" (some action.action_id) (some true)
                  "Rolled back checkout deployment" false)
                _ h₃
            ∙ settled,
        record {
          success = refl;
          fixed = record {
            same_id = same_id;
            state = state;
            resolution = resolution;
            executed = executed;
          };
          ran = record {
            workload = s₄.workload ∙ moved;
            claimed =
                s₄.claims
                ∙ s₃.claims
                ∙ ran.claimed
                ∙ ap (insert action.idempotency_key action.action_id) s₁.claims;
            incidents = s₄.incidents ∙ s₃.incidents ∙ ran.incidents ∙ s₁.incidents;
          };
        },
      )
