-- ===== src/Execute/Admitted.antt =====
-- Which requests the gates of `execute_action` let through.
use Prim.Native.String.{slice}
use ai_assisted_aws_incident.Prelude.{
  suc, concat, ◌∙◌, ℕ, ◌+◌, ◌≤◌, ◌≡◌, refl, Bool, true, false, not, ◌&&◌, String, none, some, [],
  ◌∷◌, arith, find_first, Bool-cases, ◌==◌, inl, inr, eq_refl, ltb,
}
use ai_assisted_aws_incident.Contracts.{ApprovalRecord, IncidentRecord, PolicyDecision}
use ai_assisted_aws_incident.Environ.{Environ}
use ai_assisted_aws_incident.Dict.{lookup}
use ai_assisted_aws_incident.Policy.{PolicyEngine, evaluate, kill_switch}
use ai_assisted_aws_incident.World.{>>=-ok, ◌>>=◌, fresh_id, utcnow, World, ok}
use ai_assisted_aws_incident.Store.{get}
use ai_assisted_aws_incident.Execute.Gates.{
  ExecutePayload, Grant, authorise, refuse_denied, refuse_investigate_only, require_approval,
  approval_of, check_approval, mismatches, both_mismatch, context_of, is_stale, holding,
  is_outdated, not_versioned,
}

-- An approval that opens the gate for a request at a time: the first with the request's id.
pub record Opens (incident : IncidentRecord) (payload : ExecutePayload) (now : ℕ)
    (r : ApprovalRecord) : Type 0 where
  pub named : payload.approval_id ≡ some r.approval_id
  pub first : find_first (λ a. a.approval_id == r.approval_id) incident.approvals ≡ some r
  pub approved : r.approved ≡ true
  pub token : payload.approval_token ≡ some r.approval_token
  pub alive : now ≤ r.expires_at
  pub granted : ℕ
  pub versioned : r.expected_incident_version_at_grant ≡ some granted
  pub recent : incident.version ≤ granted + 1
  pub same_action : mismatches r.action_id payload.action.action_id ≡ false
  pub same_step : both_mismatch r.plan_step_id incident.pending_plan_step_id ≡ false

Opens-found :
    (incident : IncidentRecord) (payload : ExecutePayload) (now : ℕ) (r : ApprovalRecord)
    (w : World)
    → Opens incident payload now r
    → approval_of incident payload w ≡ (ok r, w)
unfolding approval_of
Opens-found incident payload now r w o =
    ground (arith, o.named, o.first, o.approved, o.token, eq_refl r.approval_token)

Opens-checked :
    (incident : IncidentRecord) (payload : ExecutePayload) (now : ℕ) (r : ApprovalRecord)
    (w : World)
    → Opens incident payload now r
    → check_approval now incident payload.action r w ≡ (ok tt, w)
unfolding check_approval
Opens-checked incident payload now r w o =
    let in_time : ltb r.expires_at now ≡ false = ground (arith, o.alive) in
    let versioned : not_versioned r.expected_incident_version_at_grant ≡ false =
      ground (arith, o.versioned) in
    let current : is_outdated incident.version r.expected_incident_version_at_grant ≡ false =
      ground (arith, o.versioned, o.recent) in
    simp (in_time, versioned, current, o.same_action, o.same_step)

-- The decision's id and time.
abbrev pub stamp : Environ → World → String × ℕ
stamp env w = (concat ("pd_" ∷ slice (env.uuid_hex w.uuids) 0 10 ∷ []), env.clock w.clock_reads)

-- The world behind the gates: an id and a time for the decision, and a time where an approval is asked for.
abbrev pub behind : Bool → World → World
behind false w = record w { uuids = suc w.uuids; clock_reads = suc w.clock_reads }
behind true w = record w { uuids = suc w.uuids; clock_reads = suc (suc w.clock_reads) }

abbrev pub asks : PolicyDecision → ExecutePayload → Bool
asks decision payload = decision.requires_approval && not payload.autonomous

-- What a request shows to the gates.
pub record Admits (env : Environ) (engine : PolicyEngine) (id : String) (payload : ExecutePayload)
    (w : World) (g : Grant) : Type 0 where
  pub found : lookup id w.incidents ≡ some g.incident
  pub has_plan : g.incident.response_plan ≡ some g.plan
  pub current : is_stale payload.expected_incident_version g.incident.version ≡ false
  pub free : holding g.incident.latest_router_decision g.incident.pending_action_graph ≡ none
  pub supervised : (payload.autonomous && kill_switch env engine) ≡ false
  pub decided :
      evaluate env engine
        (stamp env w)
        g.plan
        payload.action
        payload.autonomous
        (context_of g.incident)
      ≡ some g.decision
  pub allowed : g.decision.allowed ≡ true
  pub opened :
      asks g.decision payload ≡ true
      → (r : ApprovalRecord) × Opens g.incident payload (env.clock (suc w.clock_reads)) r

module _ (env : Environ) (engine : PolicyEngine) where
  require_approval-Opens :
      (payload : ExecutePayload) (incident : IncidentRecord) (decision : PolicyDecision) (w : World)
      → (asks decision payload ≡ true
          → (r : ApprovalRecord) × Opens incident payload (env.clock (suc w.clock_reads)) r)
      → require_approval env engine incident payload decision (behind false w)
        ≡ (ok tt, behind (asks decision payload) w)
  unfolding require_approval utcnow
  require_approval-Opens payload incident decision w opened =
      elim (Bool-cases (asks decision payload)) [
        | inr unasked ↦ rw unasked refl
        | inl asked ↦
            let (r, o) = opened asked in
            let here = behind false w in
            let now = env.clock (suc w.clock_reads) in
            let found = Opens-found incident payload now r here o in
            let checked = Opens-checked incident payload now r (behind true w) o in
            rw asked (
              >>=-ok (approval_of incident payload)
                (λ r. utcnow env >>= λ now. check_approval now incident payload.action r) found
              ∙ checked)
      ]

  refuse_investigate_only-free :
      (id : String) (payload : ExecutePayload) (incident : IncidentRecord) (w : World)
      → holding incident.latest_router_decision incident.pending_action_graph ≡ none
      → refuse_investigate_only env engine id payload incident w ≡ (ok tt, w)
  unfolding refuse_investigate_only
  refuse_investigate_only-free id payload incident w h = ground (arith, h)

  refuse_denied-allowed :
      (id : String) (payload : ExecutePayload) (incident : IncidentRecord)
      (decision : PolicyDecision) (w : World)
      → decision.allowed ≡ true
      → refuse_denied env engine id payload incident decision w ≡ (ok tt, w)
  unfolding refuse_denied
  refuse_denied-allowed id payload incident decision w h = ground (arith, h)

  -- A request for a stored incident with a plan, at its version, that no `investigate_only` holds and no
  -- kill switch stops, for an action that the policy allows, and, where an approval is asked for,
  -- with the id and token of a recorded one that is granted, alive, recent and for that action
  -- and step, is let through with the incident, the plan and the decision; only the clock and the
  -- ids move.
  pub authorise-Admits :
      (id : String) (payload : ExecutePayload) (w : World) (g : Grant)
      → Admits env engine id payload w g
      → authorise env engine id payload w ≡ (ok g, behind (asks g.decision payload) w)
  unfolding authorise get fresh_id utcnow
  authorise-Admits id payload w g a =
      let free = refuse_investigate_only-free id payload g.incident w a.free in
      let allowed =
        refuse_denied-allowed id payload g.incident g.decision (behind false w) a.allowed in
      let opened = require_approval-Opens payload g.incident g.decision w a.opened in
      simp (a.found, a.has_plan, a.current, free, a.supervised, a.decided, allowed, opened)
