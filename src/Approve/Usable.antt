-- ===== src/Approve/Usable.antt =====
-- An approval that was recorded lets its action through the approval's gate.
use ai_assisted_aws_incident.Prelude.{
  ltb, ℕ, ◌+◌, ◌≤◌, ◌≡◌, refl, ap, sym, ◌∙◌, subst, true, false, String, Option, none, some, List,
  [], ◌∷◌, ◌++◌, ◌==◌, find_first, arith, All, eq_iff, eq_refl,
}
use ai_assisted_aws_incident.Contracts.{ActionRequest, ApprovalRecord, IncidentRecord}
use ai_assisted_aws_incident.Environ.{Environ}
use ai_assisted_aws_incident.Dict.{lookup}
use ai_assisted_aws_incident.World.{World, ok}
use ai_assisted_aws_incident.Execute.{
  not_versioned, is_outdated, mismatches, both_mismatch, ExecutePayload, approval_of,
  check_approval,
}
use ai_assisted_aws_incident.Approve.{ApprovalPayload, record_approval}
use ai_assisted_aws_incident.Approve.Laws.{record_approval-Recorded}

pub find_first-append :
    (id : String) (rs : List ApprovalRecord) (r : ApprovalRecord)
    → r.approval_id ≡ id
    → All (λ a. (a.approval_id == id) ≡ false) rs
    → find_first (λ a. a.approval_id == id) (rs ++ r ∷ []) ≡ some r
find_first-append id [] r e h = ground (arith, eq_refl id)
find_first-append id (a ∷ rs) r e (h, hs) = ground (arith, find_first-append id rs r e hs)

pub mismatches_self : (a : Option String) (b : String) → a ≡ some b → mismatches a b ≡ false
mismatches_self none b e = cc
mismatches_self (some a) b e = let same : a ≡ b = cc in ground (arith, (eq_iff a b).1 same)

pub both_mismatch_self : (a b : Option String) → a ≡ b → both_mismatch a b ≡ false
both_mismatch_self none none e = refl
both_mismatch_self none (some b) e = cc
both_mismatch_self (some a) none e = refl
both_mismatch_self (some a) (some b) e =
    let same : a ≡ b = cc in ground (arith, (eq_iff a b).1 same)

-- The gate's two parts, on the incident as it is stored behind the approval.
module _ (incident row : IncidentRecord) (request : ExecutePayload) (r : ApprovalRecord) where
  approval_of-found :
      (u : World)
      → row.approvals ≡ incident.approvals ++ r ∷ []
      → All (λ a. (a.approval_id == r.approval_id) ≡ false) incident.approvals
      → request.approval_id ≡ some r.approval_id
      → request.approval_token ≡ some r.approval_token
      → r.approved ≡ true
      → approval_of row request u ≡ (ok r, u)
  unfolding approval_of
  approval_of-found u grown fresh named token approved =
      let found : find_first (λ a. a.approval_id == r.approval_id) row.approvals ≡ some r =
        ap (find_first (λ a. a.approval_id == r.approval_id)) grown
        ∙ find_first-append r.approval_id incident.approvals r refl fresh in
      ground (arith, found, named, token, approved, eq_refl r.approval_token)

  check_approval-passes :
      (now : ℕ) (action : ActionRequest) (u : World)
      → now ≤ r.expires_at
      → r.expected_incident_version_at_grant ≡ some incident.version
      → row.version ≡ incident.version + 1
      → r.action_id ≡ some action.action_id
      → r.plan_step_id ≡ incident.pending_plan_step_id
      → row.pending_plan_step_id ≡ incident.pending_plan_step_id
      → check_approval now row action r u ≡ (ok tt, u)
  unfolding check_approval
  check_approval-passes now action u alive scoped version named step pending =
      let version_ok : is_outdated row.version r.expected_incident_version_at_grant ≡ false =
        ground (arith, scoped, version) in
      let action_ok = mismatches_self r.action_id action.action_id named in
      let step_ok =
        both_mismatch_self r.plan_step_id row.pending_plan_step_id (step ∙ sym pending) in
      let versioned : not_versioned r.expected_incident_version_at_grant ≡ false =
        ground (arith, scoped) in
      let in_time : ltb r.expires_at now ≡ false = ground (arith, alive) in
      simp (in_time, versioned, version_ok, action_ok, step_ok)

-- A granted approval, recorded without a version or a step of the caller's own on an incident that is
-- stored under its id, is accepted until it expires for the action that it names, on the row that the
-- approval has left, by a request with its id and token; the ids of the approvals before it are others.
pub record_approval-usable :
    (env : Environ) (id : String) (payload : ApprovalPayload) (request : ExecutePayload) (now : ℕ)
    (w u : World) {before : IncidentRecord} {r : ApprovalRecord} {w' : World}
    → lookup id w.incidents ≡ some before
    → before.incident_id ≡ id
    → payload.approved ≡ true
    → payload.expected_incident_version ≡ none
    → payload.plan_step_id ≡ none
    → record_approval env id payload w ≡ (ok r, w')
    → All (λ a. (a.approval_id == r.approval_id) ≡ false) before.approvals
    → request.approval_id ≡ some r.approval_id
    → request.approval_token ≡ some r.approval_token
    → request.action.action_id ≡ payload.action_id
    → now ≤ r.expires_at
    → (row : IncidentRecord) × (lookup id w'.incidents ≡ some row)
      × (approval_of row request u ≡ (ok r, u))
      × (check_approval now row request.action r u ≡ (ok tt, u))
record_approval-usable env id payload request now w u {before} {r} {w'} found own granted no_version
      no_step h fresh named token same_action alive =
    let c = record_approval-Recorded env id payload w h in
    let same : c.before ≡ before = cc (c.was, found) in
    let key : (c.before).incident_id ≡ id = ap (λ x. x.incident_id) same ∙ own in
    let stored : lookup (c.before).incident_id w.incidents ≡ some c.before =
      ap (λ k. lookup k w.incidents) key ∙ c.was in
    let step : r.plan_step_id ≡ (c.before).pending_plan_step_id = ground (arith, c.step, no_step) in
    let scoped : r.expected_incident_version_at_grant ≡ some (c.before).version =
      ground (arith, c.scoped, no_version) in
    (
      c.row,
      ap (λ k. lookup k w'.incidents) (sym key) ∙ c.is,
      approval_of-found c.before c.row request r u c.appended
          (subst (λ x. All (λ a. (a.approval_id == r.approval_id) ≡ false) x.approvals) (sym same)
            fresh)
          named token (c.answer ∙ granted),
      check_approval-passes c.before c.row request r now request.action u alive scoped
          (c.version c.before stored) (c.action ∙ ap some (sym same_action)) step c.pending,
    )
