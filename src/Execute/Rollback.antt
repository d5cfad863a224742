-- ===== src/Execute/Rollback.antt =====
-- The rollback that `execute_action` runs in the local mode, from the adapter to the stored incident.
use ai_assisted_aws_incident.Prelude.{
  is_some, contains, eq_refl, suc, ◌∙◌, ap, ℕ, ◌≡◌, refl, Bool, true, false, String, none, [], ◌∷◌,
  arith, ◌==◌,
}
use ai_assisted_aws_incident.Value.{text, get_or}
use ai_assisted_aws_incident.Contracts.{
  ActionType, ActionType-discrete, ActionRequest, ActionResult, rollback_deployment,
}
use ai_assisted_aws_incident.Environ.{Environ, str_of}
use ai_assisted_aws_incident.Dict.{insert, lookup}
use ai_assisted_aws_incident.Adapters.{
  supported_actions, Ecs, run, run_local, can_access_target, are_valid_parameters,
}
use ai_assisted_aws_incident.Executor.{
  execution_event, Fate, in_time, claim, perform, execute, run_agent, run_with_retries, attempts,
}
use ai_assisted_aws_incident.World.{>>=-ok, utcnow, append_audit, World, ok}
use ai_assisted_aws_incident.World.Workload.{rollback}

-- `str(action.parameters.get("to_revision", "checkout-r42"))`
abbrev pub revision_of : Environ → ActionRequest → String
revision_of env action = str_of env (get_or "to_revision" (text "checkout-r42") action.parameters)

-- A rollback of the checkout service that runs: its service answers, and the first attempt
-- ends in time.
pub record Rollback (env : Environ) (fate : ℕ → Fate) (action : ActionRequest) : Type 0 where
  pub local : env.app.execution_mode ≡ "local"
  pub up : env.workload_up ≡ true
  pub kind : action.action_type ≡ rollback_deployment
  pub target : action.target ≡ "checkout-service"
  pub valid : are_valid_parameters env rollback_deployment action.parameters ≡ true
  pub wet : action.dry_run ≡ false
  pub on_time : fate 2 ≡ in_time

module _ (env : Environ) (ecs : Ecs) (fate : ℕ → Fate) (action : ActionRequest) where
  abbrev repaired : World → World
  unfolding rollback
  repaired w = record w { workload = rollback (revision_of env action) w.workload }

  supported :
      (t : ActionType)
      → t ≡ rollback_deployment
      → contains ActionType-discrete t supported_actions ≡ true
  unfolding ActionType-discrete
  supported t e = ap (λ x. contains ActionType-discrete x supported_actions) e

  accessible : can_access_target (action.target ∷ "k8s-*" ∷ "arc-*" ∷ []) action.target ≡ true
  unfolding can_access_target
  accessible = ground (arith, eq_refl action.target)

  run_local-rolls_back :
      (w : World)
      → env.workload_up ≡ true
      → run_local env action rollback_deployment w
        ≡ (ok (record { success = true; message = "Rolled back checkout deployment" }), repaired w)
  unfolding run_local rollback
  run_local-rolls_back w up = ground (arith, up)

  run-rolls_back :
      (w : World)
      → Rollback env fate action
      → run env ecs action (action.target ∷ "k8s-*" ∷ "arc-*" ∷ []) w
        ≡ (ok (record { success = true; message = "Rolled back checkout deployment" }), repaired w)
  unfolding run
  run-rolls_back w r =
      let known = supported action.action_type r.kind in
      let aws : (env.app.execution_mode == "aws") ≡ false = ap (λ m. m == "aws") r.local in
      let mode : (env.app.execution_mode == "local") ≡ true = ap (λ m. m == "local") r.local in
      let local = run_local-rolls_back w r.up in
      let valid : are_valid_parameters env action.action_type action.parameters ≡ true =
        ap (λ t. are_valid_parameters env t action.parameters) r.kind ∙ r.valid in
      simp (
        known,
        accessible,
        valid,
        aws,
        r.wet,
        mode,
        ap (λ t. run_local env action t w) r.kind,
        local,
      )

  abbrev outcome : Bool × String
  outcome = (true, "Rolled back checkout deployment")

  run_with_retries-rolls_back :
      (w : World)
      → Rollback env fate action
      → run_with_retries env ecs fate action (action.target ∷ "k8s-*" ∷ "arc-*" ∷ []) w
        ≡ (ok outcome, repaired w)
  unfolding run_with_retries attempts
  run_with_retries-rolls_back w r = simp (r.on_time, run-rolls_back w r)

  -- What the run of the rollback has changed.
  pub record Ran (w v : World) : Type 0 where
    pub workload : v.workload ≡ rollback (revision_of env action) w.workload
    pub claimed : v.claims ≡ insert action.idempotency_key action.action_id w.claims
    pub incidents : v.incidents ≡ w.incidents

  perform-Ran :
      (w : World)
      → Rollback env fate action
      → (v : World) × (perform env ecs fate action w ≡ (ok outcome, v))
        × (v.workload ≡ rollback (revision_of env action) w.workload)
        × (v.claims ≡ w.claims)
        × (v.incidents ≡ w.incidents)
  unfolding perform append_audit rollback
  perform-Ran w r = (
    (append_audit env "adapter_execution" (execution_event env ecs fate action outcome.0 outcome.1)
        (repaired w)).1,
    >>=-ok (run_with_retries env ecs fate action (action.target ∷ "k8s-*" ∷ "arc-*" ∷ [])) _
        (run_with_retries-rolls_back w r),
    refl,
    refl,
    refl,
  )

  execute-Ran :
      (w : World)
      → Rollback env fate action
      → lookup action.idempotency_key w.claims ≡ none
      → (v : World) × (execute env ecs fate action w ≡ (ok outcome, v)) × Ran w v
  unfolding execute claim rollback
  execute-Ran w r free =
      let here = record w { claims = insert action.idempotency_key action.action_id w.claims } in
      let (v, done, workload, claims, incidents) = perform-Ran here r in
      let taken : is_some (lookup action.idempotency_key w.claims) ≡ false = ap is_some free in
      (v, rw taken done, record { workload = workload; claimed = claims; incidents = incidents })

  -- The answer of the agent, from the two times that it reads.
  abbrev pub result_at : ℕ → ℕ → ActionResult
  result_at started finished = record {
    action_id = action.action_id;
    success = true;
    status_message = "Rolled back checkout deployment";
    started_at = started;
    finished_at = finished;
    rollback_action = none;
  }

  pub run_agent-Ran :
      (w : World)
      → Rollback env fate action
      → lookup action.idempotency_key w.claims ≡ none
      → (s f : ℕ) × (v : World) × (run_agent env ecs fate action w ≡ (ok (result_at s f), v))
        × Ran w v
  unfolding run_agent utcnow
  run_agent-Ran w r free =
      let here = record w { clock_reads = suc w.clock_reads } in
      let (v, done, ran) = execute-Ran here r free in
      (
        env.clock w.clock_reads,
        env.clock v.clock_reads,
        record v { clock_reads = suc v.clock_reads },
        >>=-ok (execute env ecs fate action) _ done,
        record { workload = ran.workload; claimed = ran.claimed; incidents = ran.incidents },
      )
