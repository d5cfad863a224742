-- ===== src/Execute/Passed.antt =====
-- What each gate of `execute_action` in apps/api/routers/router/app.py has found when it lets a request pass.
use mathlib.Core.List.{Memᴰ}
use ai_assisted_aws_incident.Prelude.{
  ltb, ◌⊎◌, if◌then◌else◌, suc, ◌∙◌, ap, sym, ℕ, ◌+◌, ◌≤◌, ◌≡◌, refl, Bool, true, false, not, ◌&&◌,
  String, Option, none, some, List, [], ◌∷◌, arith, eq_iff, find_first, Bool-cases, Option-cases,
  sym, ap, ◌∙◌, ◌==◌, inl, inr,
}
use ai_assisted_aws_incident.Contracts.{
  ActionRequest, ApprovalRecord, IncidentRecord, PolicyDecision,
}
use ai_assisted_aws_incident.Environ.{env_flag, Environ}
use ai_assisted_aws_incident.Dict.{lookup}
use ai_assisted_aws_incident.Policy.{PolicyEngine, evaluate}
use ai_assisted_aws_incident.World.{
  Failure, raise_if, ◌>>◌, pure, >>=-eq-ok, ◌>>=◌, fresh_id, utcnow, World, Action, Result, ok,
}
use ai_assisted_aws_incident.Store.{get}
use ai_assisted_aws_incident.Execute.Admitted.{stamp}
use ai_assisted_aws_incident.Execute.Gates.{
  is_outdated, not_versioned, holding, both_mismatch, ExecutePayload, Grant, authorise,
  refuse_denied, refuse_investigate_only, require_approval, approval_of, check_approval, mismatches,
  context_of, is_stale,
}

-- An approval that covers a request at a time.
pub record Covers (incident : IncidentRecord) (payload : ExecutePayload) (now : ℕ)
    (r : ApprovalRecord) : Type 0 where
  pub recorded : Memᴰ r incident.approvals
  pub approved : r.approved ≡ true
  pub named : payload.approval_id ≡ some r.approval_id
  pub token : payload.approval_token ≡ some r.approval_token
  pub alive : now ≤ r.expires_at
  pub versioned :
      (granted : ℕ) × (r.expected_incident_version_at_grant ≡ some granted)
      × (incident.version ≤ granted + 1)
  pub same_action : mismatches r.action_id payload.action.action_id ≡ false
  pub same_step : both_mismatch r.plan_step_id incident.pending_plan_step_id ≡ false

module _ (env : Environ) (engine : PolicyEngine) where
  refuse_denied-ok :
      (id : String) (payload : ExecutePayload) (incident : IncidentRecord)
      (decision : PolicyDecision) (w : World) {u : Unit {0}}
      → (refuse_denied env engine id payload incident decision w).0 ≡ ok u
      → (decision.allowed ≡ true)
        × ((refuse_denied env engine id payload incident decision w).1 ≡ w)
  unfolding refuse_denied
  refuse_denied-ok id payload incident decision w h = ground arith

  refuse_investigate_only-ok :
      (id : String) (payload : ExecutePayload) (incident : IncidentRecord) (w : World)
      {u : Unit {0}}
      → (refuse_investigate_only env engine id payload incident w).0 ≡ ok u
      → (refuse_investigate_only env engine id payload incident w).1 ≡ w
  unfolding refuse_investigate_only
  refuse_investigate_only-ok id payload incident w h = ground arith

  pub authorise-found :
      (id : String) (payload : ExecutePayload) (w : World) {g : Grant} {w' : World}
      → authorise env engine id payload w ≡ (ok g, w')
      → (lookup id w.incidents ≡ some g.incident)
        × (g.incident.response_plan ≡ some g.plan)
        × (is_stale payload.expected_incident_version g.incident.version ≡ false)
  unfolding authorise get
  authorise-found id payload w h = ground arith

  refuse_investigate_only-free :
      (id : String) (payload : ExecutePayload) (incident : IncidentRecord) (w : World)
      {u : Unit {0}}
      → (refuse_investigate_only env engine id payload incident w).0 ≡ ok u
      → (holding incident.latest_router_decision incident.pending_action_graph ≡ none)
        ⊎ (env_flag env "BLOCK_EXECUTE_WHEN_INVESTIGATE_ONLY" "true" ≡ false)
  unfolding refuse_investigate_only
  refuse_investigate_only-free id payload incident w h =
      elim (Bool-cases (env_flag env "BLOCK_EXECUTE_WHEN_INVESTIGATE_ONLY" "true")) [
        | inl on ↦ inl (ground arith)
        | inr off ↦ inr off
      ]

  pub authorise-investigated :
      (id : String) (payload : ExecutePayload) (w : World) {g : Grant} {w' : World}
      → authorise env engine id payload w ≡ (ok g, w')
      → (holding g.incident.latest_router_decision g.incident.pending_action_graph ≡ none)
        ⊎ (env_flag env "BLOCK_EXECUTE_WHEN_INVESTIGATE_ONLY" "true" ≡ false)
  unfolding authorise get
  authorise-investigated id payload w {g} h =
      refuse_investigate_only-free id payload g.incident w {u = tt} (ground arith)

  pub authorise-allowed :
      (id : String) (payload : ExecutePayload) (w : World) {g : Grant} {w' : World}
      → authorise env engine id payload w ≡ (ok g, w')
      → g.decision.allowed ≡ true
  unfolding authorise get
  authorise-allowed id payload w h = grind (arith, refuse_denied-ok)

  pub authorise-decided :
      (id : String) (payload : ExecutePayload) (w : World) {g : Grant} {w' : World}
      → authorise env engine id payload w ≡ (ok g, w')
      → evaluate env engine
          (stamp env w)
          g.plan
          payload.action
          payload.autonomous
          (context_of g.incident)
        ≡ some g.decision
  unfolding authorise get fresh_id utcnow
  authorise-decided id payload w {g} h =
      let (found, planned, fresh) = authorise-found id payload w h in
      let here = refuse_investigate_only-ok id payload g.incident w in
      grind (arith, found, planned, fresh, here, refuse_denied-ok)

find_first-some :
    (id : String) (rs : List ApprovalRecord) (r : ApprovalRecord)
    → find_first (λ a. a.approval_id == id) rs ≡ some r
    → Memᴰ r rs × (r.approval_id ≡ id)
find_first-some id [] r h = cc
find_first-some id (a ∷ rs) r h = elim (Bool-cases (a.approval_id == id)) [
  | inl hit ↦
      let e : a ≡ r = ground arith in
      (Memᴰ.head (sym e), ap (λ x. x.approval_id) (sym e) ∙ (eq_iff _ _).0 hit)
  | inr miss ↦ let (m, e) = find_first-some id rs r (rw miss at h) in (Memᴰ.tail m, e)
]

approval_of-ok :
    (incident : IncidentRecord) (payload : ExecutePayload) (w : World) {r : ApprovalRecord}
    {w' : World}
    → approval_of incident payload w ≡ (ok r, w')
    → (id : String) × (payload.approval_id ≡ some id)
      × (find_first (λ a. a.approval_id == id) incident.approvals ≡ some r)
      × (r.approved ≡ true)
      × (payload.approval_token ≡ some r.approval_token)
      × (w' ≡ w)
unfolding approval_of
approval_of-ok incident payload w {r} h = elim (Option-cases payload.approval_id) [
  | inl missing ↦ absurd (ground arith)
  | inr (id, e) ↦
      (id, e, ground arith, ground arith, token payload.approval_token refl, ground arith)
]
  where
    token :
        (o : Option String)
        → payload.approval_token ≡ o
        → payload.approval_token ≡ some r.approval_token
    token none e = absurd (ground arith)
    token (some t) e = ground (arith, eq_iff t r.approval_token)

raise_if-passed :
    {A : Type 0} (b : Bool) (f : Failure) (m : Action A) (w : World) {a : A} {v : World}
    → (raise_if b f >> m) w ≡ (ok a, v)
    → (b ≡ false) × (m w ≡ (ok a, v))
raise_if-passed true f m w h = absurd (ground arith)
raise_if-passed false f m w h = (refl, h)

raise_if-off :
    (b : Bool) (f : Failure) (w : World) {u : Unit {0}} {v : World}
    → raise_if b f w ≡ (ok u, v)
    → b ≡ false
raise_if-off true f w h = absurd (ground arith)
raise_if-off false f w h = refl

versioned_of :
    (version : ℕ) (o : Option ℕ)
    → not_versioned o ≡ false
    → is_outdated version o ≡ false
    → (granted : ℕ) × (o ≡ some granted) × (version ≤ granted + 1)
versioned_of version none h k = cc
versioned_of version (some granted) h k = (granted, refl, ground arith)

check_approval-ok :
    (now : ℕ) (incident : IncidentRecord) (action : ActionRequest) (r : ApprovalRecord) (w : World)
    {u : Unit {0}} {w' : World}
    → check_approval now incident action r w ≡ (ok u, w')
    → (now ≤ r.expires_at)
      × ((granted : ℕ) × (r.expected_incident_version_at_grant ≡ some granted)
          × (incident.version ≤ granted + 1))
      × (mismatches r.action_id action.action_id ≡ false)
      × (both_mismatch r.plan_step_id incident.pending_plan_step_id ≡ false)
unfolding check_approval
check_approval-ok now incident action r w h =
    let (in_time, h₁) = raise_if-passed (ltb r.expires_at now) _ _ w h in
    let (has, h₂) = raise_if-passed (not_versioned r.expected_incident_version_at_grant) _ _ w h₁ in
    let (recent, h₃) =
      raise_if-passed (is_outdated incident.version r.expected_incident_version_at_grant) _ _ w
        h₂ in
    let (same_action, h₄) = raise_if-passed (mismatches r.action_id action.action_id) _ _ w h₃ in
    (
      ground (arith, in_time),
      versioned_of incident.version r.expected_incident_version_at_grant has recent,
      same_action,
      raise_if-off (both_mismatch r.plan_step_id incident.pending_plan_step_id) _ w h₄,
    )

taken :
    {A : Type 0} (c : Bool) (m k : Action A) {w : World} {o : Result A × World}
    → c ≡ true
    → (if c then m else k) w ≡ o
    → m w ≡ o
taken true m k e h = h
taken false m k e h = cc

module _ (env : Environ) (engine : PolicyEngine) where
  pub require_approval-Covers :
      (payload : ExecutePayload) (incident : IncidentRecord) (decision : PolicyDecision) (w : World)
      {u : Unit {0}} {w' : World}
      → require_approval env engine incident payload decision w ≡ (ok u, w')
      → decision.requires_approval ≡ true
      → payload.autonomous ≡ false
      → (r : ApprovalRecord) × Covers incident payload (env.clock w.clock_reads) r
  unfolding require_approval utcnow
  require_approval-Covers payload incident decision w {u} {w'} h a b =
      let asked : (approval_of incident payload >>= λ r.
      utcnow env >>= λ now. check_approval now incident payload.action r)
            w
          ≡ (ok u, w') =
        taken (decision.requires_approval && not payload.autonomous) _ (pure tt) (ground arith) h in
      let (r, v, found, checked) = >>=-eq-ok (approval_of incident payload) _ w asked in
      let (id, named, first, approved, token, same) = approval_of-ok incident payload w found in
      let (member, id_eq) = find_first-some id incident.approvals r first in
      let (alive, versioned, action, step) =
        check_approval-ok (env.clock v.clock_reads) incident payload.action r _ checked in
      (
        r,
        record {
          recorded = member;
          approved = approved;
          named = rw id_eq named;
          token = token;
          alive = rw (ap (λ (x : World). env.clock x.clock_reads) same) at alive;
          versioned = versioned;
          same_action = action;
          same_step = step;
        },
      )

  pub authorise-required :
      (id : String) (payload : ExecutePayload) (w : World) {g : Grant} {w' : World}
      → authorise env engine id payload w ≡ (ok g, w')
      → require_approval env engine g.incident payload g.decision
          (record w { uuids = suc w.uuids; clock_reads = suc w.clock_reads })
        ≡ (ok tt, w')
  unfolding authorise get fresh_id utcnow
  authorise-required id payload w {g} h =
      let (found, planned, fresh) = authorise-found env engine id payload w h in
      let here = refuse_investigate_only-ok env engine id payload g.incident w in
      grind (arith, found, planned, fresh, here, refuse_denied-ok env engine)
