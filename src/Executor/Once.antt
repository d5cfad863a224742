-- ===== src/Executor/Once.antt =====
-- An idempotency key lets at most one execution through.
use ai_assisted_aws_incident.Prelude.{
  ap, ◌∙◌, concat, [], ◌∷◌, ◌≡◌, true, false, String, arith, is_some, if◌then◌else◌, ℕ,
}
use ai_assisted_aws_incident.Contracts.{ActionRequest}
use ai_assisted_aws_incident.Environ.{Environ}
use ai_assisted_aws_incident.Dict.{lookup, lookup-insert_self}
use ai_assisted_aws_incident.World.{run_rest, World, ok}
use ai_assisted_aws_incident.Adapters.{Ecs}
use ai_assisted_aws_incident.Executor.Keeps.{perform-Kept}
use ai_assisted_aws_incident.Executor.{pure, perform, Fate, claim, execute, skipped}

-- Behind a claim the key is taken.
pub claim-taken :
    (key id : String) (w : World) → is_some (lookup key (claim key id w).1.claims) ≡ true
unfolding claim
claim-taken key id w = ground (arith, lookup-insert_self key id w.claims)

claim-refused :
    (key id : String) (w : World)
    → is_some (lookup key w.claims) ≡ true
    → claim key id w ≡ (ok false, w)
unfolding claim
claim-refused key id w h = ground arith

module _ (env : Environ) (ecs : Ecs) (fate : ℕ → Fate) where
  -- A key that is taken: the action is reported as a success, and nothing happens.
  execute-taken :
      (action : ActionRequest) (w : World)
      → is_some (lookup action.idempotency_key w.claims) ≡ true
      → execute env ecs fate action w ≡ (ok (skipped env ecs fate action), w)
  unfolding execute
  execute-taken action w h =
      ap
        (run_rest (λ granted.
          if granted then perform env ecs fate action else pure (skipped env ecs fate action)))
        (claim-refused action.idempotency_key action.action_id w h)

  -- Behind an execution its key is taken, however it ended.
  execute-claims :
      (action : ActionRequest) (w : World)
      → is_some (lookup action.idempotency_key (execute env ecs fate action w).1.claims) ≡ true
  unfolding execute claim
  execute-claims action w = grind (arith, perform-Kept, lookup-insert_self)

  -- An action is run at most once under a key: behind any execution, be it dry, failed or timed out, another
  -- one with the same key does nothing and is reported as a success.
  pub execute-once :
      (first second : ActionRequest) (w : World)
      → second.idempotency_key ≡ first.idempotency_key
      → execute env ecs fate second (execute env ecs fate first w).1 ≡ (
        ok (true, concat ("Skipped duplicate idempotency key " ∷ second.idempotency_key ∷ [])),
        (execute env ecs fate first w).1,
      )
  execute-once first second w same = execute-taken second (execute env ecs fate first w).1 (
      ap (λ k. is_some (lookup k (execute env ecs fate first w).1.claims)) same
      ∙ execute-claims first w)
