-- ===== src/Execute/Recovery.antt =====
-- A rollback that `execute_action` runs in the local mode, from the request to the stored incident.
use ai_assisted_aws_incident.Prelude.{
  ◌+◌, ◌∙◌, ap, sym, ℕ, ◌≡◌, refl, Bool, true, false, String, none, some, [], ◌∷◌, ◌++◌, arith,
}
use ai_assisted_aws_incident.Contracts.{
  ActionRequest, ActionResult, IncidentRecord, PolicyDecision, ResponsePlan, resolved,
}
use ai_assisted_aws_incident.Environ.{Environ}
use ai_assisted_aws_incident.Dict.{lookup, lookup-insert_self}
use ai_assisted_aws_incident.Policy.{PolicyEngine}
use ai_assisted_aws_incident.Adapters.{Ecs}
use ai_assisted_aws_incident.Executor.{Fate}
use ai_assisted_aws_incident.World.{>>=-ok, append_audit, World, ok}
use ai_assisted_aws_incident.World.Workload.{rollback, verify_recovery}
use ai_assisted_aws_incident.Store.{upsert, bump, may_follow}
use ai_assisted_aws_incident.Store.Laws.{upsert-accepted}
use ai_assisted_aws_incident.Execute.{
  ExecutePayload, Grant, act, authorise, effective_dry_run, execute_action, report, run_authorised,
}
use ai_assisted_aws_incident.Execute.Admitted.{Admits, authorise-Admits, asks, behind}
use ai_assisted_aws_incident.Execute.Rollback.{Rollback, revision_of}
use ai_assisted_aws_incident.Execute.Repair.{Same, act-Acted, rollback-recovers}

-- The action that is run: the request's, under the effective dry run.
abbrev pub sent : Environ → ExecutePayload → ActionRequest
sent env payload = record payload.action {
  dry_run = effective_dry_run env payload.action payload.autonomous;
}

module _ (env : Environ) (engine : PolicyEngine) (ecs : Ecs) (fate : ℕ → Fate) where
  report-ends :
      (id : String) (payload : ExecutePayload) (plan : ResponsePlan) (decision : PolicyDecision)
      (result : ActionResult) (w : World)
      → (v : World) × (report env engine ecs fate id payload plan decision result w ≡ (ok tt, v))
        × (v.incidents ≡ w.incidents)
        × (v.workload ≡ w.workload)
        × (v.claims ≡ w.claims)
  unfolding report append_audit
  report-ends id payload plan decision result w =
      let v = (report env engine ecs fate id payload plan decision result w).1 in
      (v, ground arith, ground arith, ground arith, ground arith)

  behind-Same : (asked : Bool) (w : World) → Same w (behind asked w)
  behind-Same false w = record { workload = refl; claims = refl; incidents = refl }
  behind-Same true w = record { workload = refl; claims = refl; incidents = refl }

  -- What a repair leaves: the recovered workload, the key of the action taken, and the row of the incident,
  -- resolved, with the result.
  pub record Recovered (id : String) (payload : ExecutePayload) (before : IncidentRecord)
      (result : ActionResult) (w v : World) : Type 0 where
    pub success : result.success ≡ true
    pub rolled_back : v.workload ≡ rollback (revision_of env payload.action) w.workload
    pub recovered : verify_recovery v.workload ≡ true
    pub claimed : lookup payload.action.idempotency_key v.claims ≡ some payload.action.action_id
    pub row : IncidentRecord
    pub stored : lookup id v.incidents ≡ some row
    pub state : row.state ≡ resolved
    pub resolution :
        row.final_resolution
        ≡ some "Checkout service recovered after approved rollback and verification."
    pub executed : row.executed_actions ≡ before.executed_actions ++ result ∷ []
    pub version : row.version ≡ before.version + 1

  Recovered-from :
      {id : String} {payload : ExecutePayload} {before : IncidentRecord} {result : ActionResult}
      {u v w : World}
      → u.workload ≡ w.workload
      → Recovered id payload before result u v
      → Recovered id payload before result w v
  Recovered-from {payload} e r = record {
    success = r.success;
    rolled_back = r.rolled_back ∙ ap (rollback (revision_of env payload.action)) e;
    recovered = r.recovered;
    claimed = r.claimed;
    row = r.row;
    stored = r.stored;
    state = r.state;
    resolution = r.resolution;
    executed = r.executed;
    version = r.version;
  }

  run_authorised-Recovered :
      (id : String) (payload : ExecutePayload) (g : Grant) (w : World)
      → Rollback env fate (sent env payload)
      → lookup payload.action.idempotency_key w.claims ≡ none
      → g.incident.incident_id ≡ id
      → lookup id w.incidents ≡ some g.incident
      → may_follow g.incident.state resolved ≡ true
      → (result : ActionResult) × (v : World) × (run_authorised env engine ecs fate id payload g w
          ≡ (ok (g.decision, result), v))
        × Recovered id payload g.incident result w v
  unfolding run_authorised bump
  run_authorised-Recovered id payload g w r free own stored open_state =
      let action = sent env payload in
      let (done, w₁, acted, a) = act-Acted env engine ecs fate action id g.incident w r free in
      let same_id : done.1.incident_id ≡ id = a.fixed.same_id ∙ own in
      let here : lookup done.1.incident_id w₁.incidents ≡ some g.incident =
        ap (λ i. lookup i w₁.incidents) same_id ∙ ap (lookup id) a.ran.incidents ∙ stored in
      let legal : may_follow g.incident.state done.1.state ≡ true =
        ap (may_follow g.incident.state) a.fixed.state ∙ open_state in
      let (w₂, kept, reads, workload, claims) =
        upsert-accepted env done.1 w₁ g.incident here legal in
      let (v, reported, incidents, workload₂, claims₂) =
        report-ends id payload g.plan g.decision done.0 w₂ in
      let moved : v.workload ≡ rollback (revision_of env payload.action) w.workload =
        workload₂ ∙ workload ∙ a.ran.workload in
      (
        done.0,
        v,
        >>=-ok (act env engine ecs fate id action g.incident) _ acted
            ∙ >>=-ok (upsert env done.1) _ kept
            ∙ >>=-ok (report env engine ecs fate id payload g.plan g.decision done.0) _ reported,
        record {
          success = a.success;
          rolled_back = moved;
          recovered = ap verify_recovery moved ∙ rollback-recovers _ _;
          claimed =
              ap (lookup payload.action.idempotency_key) (claims₂ ∙ claims ∙ a.ran.claimed)
              ∙ lookup-insert_self payload.action.idempotency_key payload.action.action_id w.claims;
          row = bump (some g.incident) (env.clock w₁.clock_reads) done.1;
          stored = ap (lookup id) incidents ∙ ap (λ i. lookup i w₂.incidents) (sym same_id) ∙ reads;
          state = a.fixed.state;
          resolution = a.fixed.resolution;
          executed = a.fixed.executed;
          version = refl;
        },
      )

  -- A request that the gates admit, for a rollback of the checkout service that answers, not dry, with an unclaimed
  -- key and a first attempt in time, on an incident that is stored under its id in a state that may
  -- become resolved, ends well: the workload is rolled back to the asked revision and passes the
  -- recovery check, the key is taken, and the row is resolved with the result, one version on.
  pub execute_action-Recovered :
      (id : String) (payload : ExecutePayload) (w : World) (g : Grant)
      → Admits env engine id payload w g
      → Rollback env fate (sent env payload)
      → lookup payload.action.idempotency_key w.claims ≡ none
      → g.incident.incident_id ≡ id
      → may_follow g.incident.state resolved ≡ true
      → (result : ActionResult) × (v : World) × (execute_action env engine ecs fate id payload w
          ≡ (ok (g.decision, result), v))
        × Recovered id payload g.incident result w v
  unfolding execute_action
  execute_action-Recovered id payload w g a r free own open_state =
      let here = behind (asks g.decision payload) w in
      let same = behind-Same (asks g.decision payload) w in
      let (result, v, done, found) =
        run_authorised-Recovered id payload g here r
          (ap (lookup payload.action.idempotency_key) same.claims ∙ free) own
          (ap (lookup id) same.incidents ∙ a.found) open_state in
      (
        result,
        v,
        >>=-ok (authorise env engine id payload) _ (authorise-Admits env engine id payload w g a)
            ∙ done,
        Recovered-from same.workload found,
      )
