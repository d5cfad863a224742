-- ===== src/Approve/Laws.antt =====
-- What a recorded approval is worth.
use ai_assisted_aws_incident.Approve.{
  first_text, approval_event, with_approval, IncidentState-discrete, new_approval, awaiting,
  record_approval, ApprovalPayload,
}
use mathlib.Core.List.{Memᴰ}
use ai_assisted_aws_incident.Prelude.{
  sym, subst, or_else, if◌then◌else◌, holds, ◌+◌, ◌≡◌, refl, true, String, some, List, [], ◌∷◌,
  ◌++◌, arith, ap, ◌∙◌,
}
use ai_assisted_aws_incident.Contracts.{ApprovalRecord, IncidentRecord, planned, waiting_approval}
use ai_assisted_aws_incident.Environ.{Environ}
use ai_assisted_aws_incident.Dict.{lookup, lookup-insert_self}
use ai_assisted_aws_incident.World.{
  about, pure, ◌>>◌, append_audit, >>=-eq-ok, World, ok, utcnow, fresh_id,
}
use ai_assisted_aws_incident.Store.{get, upsert, is_invalid, bump}

Memᴰ-last : {A : Type 0} (x : A) (xs : List A) → Memᴰ x (xs ++ x ∷ [])
Memᴰ-last x [] = Memᴰ.head refl
Memᴰ-last x (y ∷ ys) = Memᴰ.tail (Memᴰ-last x ys)

holds-yes : {P : Type 0} (d : Dec P) → holds d ≡ true → P
holds-yes (yes p) h = p
holds-yes (no _) h = absurd (ground arith)

module _ (env : Environ) (id : String) (payload : ApprovalPayload) (w : World) where
  -- What a recorded approval has left in the table.
  pub record Recorded (r : ApprovalRecord) (w' : World) : Type 0 where
    pub before : IncidentRecord
    pub was : lookup id w.incidents ≡ some before
    pub waited : before.state ≡ waiting_approval
    pub row : IncidentRecord
    pub is : lookup before.incident_id w'.incidents ≡ some row
    pub only :
        row
        ≡ record (with_approval env r before) { updated_at = row.updated_at; version = row.version }
    pub kept : Memᴰ r row.approvals
    pub appended : row.approvals ≡ before.approvals ++ r ∷ []
    pub step : r.plan_step_id ≡ first_text payload.plan_step_id before.pending_plan_step_id
    pub pending : row.pending_plan_step_id ≡ before.pending_plan_step_id
    pub state : row.state ≡ (if payload.approved then planned else waiting_approval)
    pub version :
        (stored : IncidentRecord)
        → lookup before.incident_id w.incidents ≡ some stored
        → row.version ≡ stored.version + 1
    pub answer : r.approved ≡ payload.approved
    pub action : r.action_id ≡ some payload.action_id
    pub scoped :
        r.expected_incident_version_at_grant
        ≡ some (or_else payload.expected_incident_version before.version)

  awaiting-ok :
      {incident : IncidentRecord} {v : World}
      → awaiting env id w ≡ (ok incident, v)
      → (v ≡ w) × (lookup id w.incidents ≡ some incident) × (incident.state ≡ waiting_approval)
  unfolding awaiting get
  awaiting-ok {incident} h = (
    ground arith,
    ground arith,
    holds-yes (IncidentState-discrete incident.state waiting_approval) (ground arith),
  )

  new_approval-ok :
      (incident : IncidentRecord) (v : World) {r : ApprovalRecord} {w' : World}
      → new_approval env payload incident v ≡ (ok r, w')
      → (w'.incidents ≡ v.incidents)
        × (r.approved ≡ payload.approved)
        × (r.action_id ≡ some payload.action_id)
        × (r.expected_incident_version_at_grant
            ≡ some (or_else payload.expected_incident_version incident.version))
        × (r.plan_step_id ≡ first_text payload.plan_step_id incident.pending_plan_step_id)
  unfolding new_approval fresh_id utcnow
  new_approval-ok incident v h = ground arith

  upsert-written :
      (r : IncidentRecord) (v : World) {kept : IncidentRecord} {w' : World}
      → upsert env r v ≡ (ok kept, w')
      → (lookup r.incident_id w'.incidents ≡ some kept)
        × (kept.state ≡ r.state)
        × (kept.approvals ≡ r.approvals)
        × (kept.pending_plan_step_id ≡ r.pending_plan_step_id)
        × ((row : IncidentRecord)
            → lookup r.incident_id v.incidents ≡ some row
            → kept.version ≡ row.version + 1)
        × (kept ≡ record r { updated_at = kept.updated_at; version = kept.version })
  unfolding upsert get is_invalid bump utcnow
  upsert-written r v h = (
    grind (arith, lookup-insert_self),
    ground arith,
    ground arith,
    ground arith,
    λ row stored. ground arith,
    ground arith,
  )

  assemble :
      (incident : IncidentRecord) (made : ApprovalRecord) (v₁ v₂ : World) {r : ApprovalRecord}
      {w' : World}
      → v₁ ≡ w
      → lookup id w.incidents ≡ some incident
      → incident.state ≡ waiting_approval
      → v₂.incidents ≡ v₁.incidents
      → made.approved ≡ payload.approved
      → made.action_id ≡ some payload.action_id
      → made.expected_incident_version_at_grant
        ≡ some (or_else payload.expected_incident_version incident.version)
      → made.plan_step_id ≡ first_text payload.plan_step_id incident.pending_plan_step_id
      → (upsert env (with_approval env made incident)
            >> (append_audit env "approval_recorded" (about id (approval_event env made))
                >> pure made))
          v₂
        ≡ (ok r, w')
      → Recorded r w'
  unfolding append_audit
  assemble incident made v₁ v₂ {r} {w'} same found waited table granted action scoped step h =
      let (stored, v₃, c, h₃) = >>=-eq-ok (upsert env (with_approval env made incident)) _ v₂ h in
      let (is, state, approvals, pending, version, only) =
        upsert-written (with_approval env made incident) v₂ c in
      let e : r ≡ made = ground arith in
      record {
        before = incident;
        was = found;
        waited = waited;
        row = stored;
        is = ap (lookup incident.incident_id) (ground arith) ∙ is;
        only =
            only
            ∙ ap
                (λ x. record (with_approval env x incident) {
                  updated_at = stored.updated_at;
                  version = stored.version;
                })
                (sym e);
        kept = subst (Memᴰ r) (sym approvals) (
            subst (λ x. Memᴰ x (incident.approvals ++ made ∷ [])) (sym e)
              (Memᴰ-last made incident.approvals));
        appended = approvals ∙ ap (λ x. incident.approvals ++ x ∷ []) (sym e);
        step = ap (λ x. x.plan_step_id) e ∙ step;
        pending = pending;
        state = state ∙ ap (λ b. if b then planned else waiting_approval) granted;
        version = λ row is_row.
            version row (
              ap (λ d. lookup incident.incident_id d) (table ∙ ap (λ x. x.incidents) same)
              ∙ is_row);
        answer = ap (λ x. x.approved) e ∙ granted;
        action = ap (λ x. x.action_id) e ∙ action;
        scoped = ap (λ x. x.expected_incident_version_at_grant) e ∙ scoped;
      }

  -- An approval is recorded only on an incident that waits for one; it is then in the stored row,
  -- for the action named, with the version that was expected or read, and the row is planned when
  -- it was granted and waits on when it was not, at the version behind the stored one.
  pub record_approval-Recorded :
      {r : ApprovalRecord} {w' : World}
      → record_approval env id payload w ≡ (ok r, w')
      → Recorded r w'
  unfolding record_approval
  record_approval-Recorded {r} {w'} h =
      let (incident, v₁, a, h₁) = >>=-eq-ok (awaiting env id) _ w h in
      let (same, found, waited) = awaiting-ok a in
      let (made, v₂, b, h₂) = >>=-eq-ok (new_approval env payload incident) _ v₁ h₁ in
      let (table, granted, action, scoped, step) = new_approval-ok incident v₁ b in
      assemble incident made v₁ v₂ same found waited table granted action scoped step h₂
