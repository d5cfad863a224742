-- ===== src/Adapters/Laws.antt =====
-- What the checks of an adapter let through.
use ai_assisted_aws_incident.Adapters.{client, run, Ecs, can_access_target}
use ai_assisted_aws_incident.Prelude.{
  Option-cases, inl, inr, ◌≡◌, true, false, String, List, [], ◌∷◌, ◌==◌, eq_refl, arith,
}
use ai_assisted_aws_incident.Contracts.{ActionRequest}
use ai_assisted_aws_incident.Environ.{Environ}
use ai_assisted_aws_incident.Dict.{Dict, lookup, lookup-insert_self}
use ai_assisted_aws_incident.World.{World}

-- The allowlist that the executor gives an action holds the action's own target, so that the check
-- of the target passes for every action.
pub can_access_target_self :
    (action : ActionRequest)
    → can_access_target (action.target ∷ "k8s-*" ∷ "arc-*" ∷ []) action.target ≡ true
unfolding can_access_target
can_access_target_self action = ground (arith, eq_refl action.target)

module _ (env : Environ) (ecs : Ecs) (action : ActionRequest) (targets : List String)
    (w : World) where
  -- Outside AWS a dry run changes nothing, whatever it answers.
  pub run-dry :
      action.dry_run ≡ true
      → (env.app.execution_mode == "aws") ≡ false
      → (run env ecs action targets w).1 ≡ w
  unfolding run
  run-dry dry local = ground arith

-- A service's client is made once: behind a call, another one gives the same client, whatever would be made.
client-kept :
    {C : Type 0} (make other : String → C) (service : String) (clients : Dict C)
    → client other service (client make service clients).1 ≡ client make service clients
unfolding client
client-kept make other service clients = elim (Option-cases (lookup service clients)) [
  | inl missing ↦
      let stored = lookup-insert_self service (make service) clients in
      ground (arith, missing, stored)
  | inr (c, found) ↦ ground (arith, found)
]
