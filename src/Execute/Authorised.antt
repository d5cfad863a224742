-- ===== src/Execute/Authorised.antt =====
-- What a request that the gates of `execute_action` let through has shown.
use ai_assisted_aws_incident.Prelude.{◌⊎◌, suc, ◌≡◌, true, false, String, none, some}
use ai_assisted_aws_incident.Contracts.{ApprovalRecord}
use ai_assisted_aws_incident.Environ.{env_flag, Environ}
use ai_assisted_aws_incident.Dict.{lookup}
use ai_assisted_aws_incident.Policy.Laws.{Permitted, evaluate-Permitted}
use ai_assisted_aws_incident.Policy.{PolicyEngine, evaluate}
use ai_assisted_aws_incident.World.{World, ok}
use ai_assisted_aws_incident.Execute.Admitted.{stamp}
use ai_assisted_aws_incident.Execute.Gates.{
  holding, ExecutePayload, Grant, authorise, context_of, is_stale,
}
use ai_assisted_aws_incident.Execute.Passed.{
  Covers, authorise-found, authorise-allowed, authorise-decided, authorise-investigated,
  require_approval-Covers, authorise-required,
}

-- What a request has shown when the gates let it through.
pub record IsAuthorised (env : Environ) (engine : PolicyEngine) (id : String)
    (payload : ExecutePayload) (w : World) (g : Grant) : Type 0 where
  pub found : lookup id w.incidents ≡ some g.incident
  pub has_plan : g.incident.response_plan ≡ some g.plan
  pub current : is_stale payload.expected_incident_version g.incident.version ≡ false
  pub allowed : g.decision.allowed ≡ true
  pub investigated :
      (holding g.incident.latest_router_decision g.incident.pending_action_graph ≡ none)
      ⊎ (env_flag env "BLOCK_EXECUTE_WHEN_INVESTIGATE_ONLY" "true" ≡ false)
  pub decided :
      evaluate env engine
        (stamp env w)
        g.plan
        payload.action
        payload.autonomous
        (context_of g.incident)
      ≡ some g.decision
  pub permitted :
      Permitted env engine g.plan payload.action payload.autonomous (context_of g.incident)
  pub approved :
      g.decision.requires_approval ≡ true
      → payload.autonomous ≡ false
      → (r : ApprovalRecord) × Covers g.incident payload (env.clock (suc w.clock_reads)) r

-- The gates let a request through only for a stored incident with a plan, at the expected version,
-- that no decision to investigate only holds back unless that block is switched off, for an action
-- that the policy, asked about this request at the first time that it reads, permits by every check, and,
-- where that decision asks for an approval and the request is not autonomous, with a recorded
-- approval that covers it: granted, with its id and token, alive at the second time that the request
-- reads, for at most one version before, and for no other action and no other step of the plan.
pub authorise-IsAuthorised :
    (env : Environ) (engine : PolicyEngine) (id : String) (payload : ExecutePayload) (w : World)
    {g : Grant} {w' : World}
    → authorise env engine id payload w ≡ (ok g, w')
    → IsAuthorised env engine id payload w g
authorise-IsAuthorised env engine id payload w {g} h =
    let (found, plan, current) = authorise-found env engine id payload w h in
    let allowed = authorise-allowed env engine id payload w h in
    let decided = authorise-decided env engine id payload w h in
    record {
      found = found;
      has_plan = plan;
      current = current;
      allowed = allowed;
      investigated = authorise-investigated env engine id payload w h;
      decided = decided;
      permitted =
          evaluate-Permitted env engine (stamp env w) payload.action payload.autonomous
            (context_of g.incident) g.plan g.decision decided allowed;
      approved =
          require_approval-Covers env engine payload g.incident g.decision _
            (authorise-required env engine id payload w h);
    }
