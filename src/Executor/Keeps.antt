-- ===== src/Executor/Keeps.antt =====
-- Running an action leaves the incidents and the claimed keys alone.
use ai_assisted_aws_incident.Prelude.{ℕ, zero, suc, ◌≡◌, refl, String, List, [], ◌∷◌, arith}
use ai_assisted_aws_incident.Contracts.{ActionRequest}
use ai_assisted_aws_incident.Environ.{Environ}
use ai_assisted_aws_incident.World.{World, Action, utcnow, append_audit}
use ai_assisted_aws_incident.Adapters.{AdapterResult, Ecs, run, run_local, aws_run}
use ai_assisted_aws_incident.Executor.{
  Fate, in_time, cut_before, cut_after, wait_for, attempts, run_with_retries, perform, execute,
  claim, run_agent,
}

-- The incidents and the keys that were claimed stand as they stood.
pub record Kept (v w : World) : Type 0 where
  pub incidents : w.incidents ≡ v.incidents
  pub claims : w.claims ≡ v.claims

module _ (env : Environ) (ecs : Ecs) where
  run_local-Kept :
      (action : ActionRequest) (t : _) (w : World) → Kept w (run_local env action t w).1
  unfolding run_local
  run_local-Kept action t w = ground arith

  aws_run-Kept : (action : ActionRequest) (w : World) → Kept w (aws_run env ecs action w).1
  unfolding aws_run
  aws_run-Kept action w = ground arith

  run-Kept :
      (action : ActionRequest) (targets : List String) (w : World)
      → Kept w (run env ecs action targets w).1
  unfolding run
  run-Kept action targets w =
      ground (arith, run_local-Kept action action.action_type w, aws_run-Kept action w)

module _ (fate : ℕ → Fate) (m : Action AdapterResult) (keeps : (w : World) → Kept w (m w).1) where
  wait_for-Kept : (f : Fate) (w : World) → Kept w (wait_for f m w).1
  wait_for-Kept in_time w = ground (arith, keeps w)
  wait_for-Kept cut_before w = record { incidents = refl; claims = refl }
  wait_for-Kept cut_after w = keeps w

  attempts-Kept : (n : ℕ) (w : World) → Kept w (attempts fate m n w).1
  unfolding attempts
  attempts-Kept zero w = record { incidents = refl; claims = refl }
  attempts-Kept (suc zero) w = ground (arith, wait_for-Kept (fate 0) w)
  attempts-Kept (suc (suc n)) w =
      ground (
        arith,
        wait_for-Kept (fate (suc n)) w,
        attempts-Kept (suc n) (wait_for (fate (suc n)) m w).1,
      )

module _ (env : Environ) (ecs : Ecs) (fate : ℕ → Fate) where
  pub perform-Kept : (action : ActionRequest) (w : World) → Kept w (perform env ecs fate action w).1
  unfolding perform run_with_retries append_audit
  perform-Kept action w = ground (
    arith,
    attempts-Kept fate (run env ecs action (action.target ∷ "k8s-*" ∷ "arc-*" ∷ []))
        (run-Kept env ecs action _) 3 w,
  )

  pub run_agent-incidents :
      (action : ActionRequest) (w : World)
      → (run_agent env ecs fate action w).1.incidents ≡ w.incidents
  unfolding run_agent execute utcnow claim
  run_agent-incidents action w = grind (arith, perform-Kept)
