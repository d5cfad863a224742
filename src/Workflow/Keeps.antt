-- ===== src/Workflow/Keeps.antt =====
-- What the steps of the decision loop leave as it was: the decisions recorded so far.
use ai_assisted_aws_incident.Workflow.Loop.{
  and_leave, note, and_store, dispatch, with_graph, planner_step, links_of, rca_step,
}
use ai_assisted_aws_incident.Prelude.{
  any, ◌≡◌, ap, ◌∙◌, Bool, true, String, List, [], ◌∷◌, ◌++◌, arith, inl, inr, ◌==◌, if◌then◌else◌,
}
use ai_assisted_aws_incident.Contracts.{EvidenceEntry, IncidentRecord}
use ai_assisted_aws_incident.Environ.{Environ}
use ai_assisted_aws_incident.Planner.{run}
use ai_assisted_aws_incident.Planner.Keeps.{run-records}
use ai_assisted_aws_incident.World.{
  if-cases, append_audit, World, Action, ok, >>=-eq-ok, fresh_id, utcnow, append_audit,
}
use ai_assisted_aws_incident.Store.{upsert, bump, get}
use ai_assisted_aws_incident.Workflow.{
  Fields, trace_entry, Agents, write_checkpoint, triage_step, evidence_step, change_step,
}
use ai_assisted_aws_incident.Execute.{trace_entry}

-- The agent of evidence leaves the decisions of the incident that it is given.
pub record KeepsRecords (agents : Agents) : Type 0 where
  pub records :
      (i : IncidentRecord) (w : World) {found : List EvidenceEntry} {j : IncidentRecord} {v : World}
      → agents.evidence i w ≡ (ok (found, j), v)
      → j.decision_records ≡ i.decision_records

module _ (env : Environ) where
  pub upsert-records :
      (i : IncidentRecord) (w : World) {j : IncidentRecord} {v : World}
      → upsert env i w ≡ (ok j, v)
      → j.decision_records ≡ i.decision_records
  unfolding upsert bump utcnow get
  upsert-records i w h = ground arith

  pub checkpoint-records :
      (extra : Fields) (step : String) (i : IncidentRecord) (w : World) {j : IncidentRecord}
      {v : World}
      → write_checkpoint env extra step i w ≡ (ok j, v)
      → j.decision_records ≡ i.decision_records
  unfolding write_checkpoint append_audit
  checkpoint-records extra step i w {j} h =
      let (stored, v₁, h₀, h₁) =
        >>=-eq-ok
          (upsert env (record i {
            agent_path =
                if any (λ s. s == step) i.agent_path
                then i.agent_path
                else i.agent_path ++ step ∷ [];
          }))
          _ w h in
      let e : j ≡ stored = ground arith in ap (λ x. x.decision_records) e ∙ upsert-records _ w h₀

  module _ (agents : Agents) (keeps : KeepsRecords agents) where
    triage-records :
        (i : IncidentRecord) (w : World) {j : IncidentRecord} {v : World}
        → triage_step env agents i w ≡ (ok j, v)
        → j.decision_records ≡ i.decision_records
    unfolding triage_step
    triage-records i w h =
        let (answer, v₁, h₀, h₁) = >>=-eq-ok (agents.triage i) _ w h in
        checkpoint-records agents.checkpoint "triage" _ v₁ h₁

    change-records :
        (i : IncidentRecord) (w : World) {j : IncidentRecord} {v : World}
        → change_step env agents i w ≡ (ok j, v)
        → j.decision_records ≡ i.decision_records
    unfolding change_step
    change-records i w h =
        let (entry, v₁, h₀, h₁) = >>=-eq-ok (agents.change i) _ w h in
        checkpoint-records agents.checkpoint "change" _ v₁ h₁

    evidence-records :
        (scored : Bool) (i : IncidentRecord) (w : World) {j : IncidentRecord} {v : World}
        → evidence_step env agents scored i w ≡ (ok j, v)
        → j.decision_records ≡ i.decision_records
    unfolding evidence_step
    evidence-records scored i w h =
        let (a, v₁, h₀, h₁) = >>=-eq-ok (agents.evidence i) _ w h in
        checkpoint-records agents.checkpoint "evidence" _ v₁ h₁ ∙ keeps.records i w h₀

    rca-records :
        (i : IncidentRecord) (w : World) {j : IncidentRecord} {v : World}
        → rca_step env agents i w ≡ (ok j, v)
        → j.decision_records ≡ i.decision_records
    unfolding rca_step
    rca-records i w h =
        let (found, v₁, h₀, h₁) = >>=-eq-ok (agents.rca i) _ w h in
        let (links, v₂, h₂, h₃) = >>=-eq-ok (links_of env i.incident_id 0 found) _ v₁ h₁ in
        checkpoint-records agents.checkpoint "rca" _ v₂ h₃

    planner-records :
        (i : IncidentRecord) (w : World) {j : IncidentRecord} {v : World}
        → planner_step env agents i w ≡ (ok j, v)
        → j.decision_records ≡ i.decision_records
    unfolding planner_step trace_entry fresh_id utcnow
    planner-records i w {j} h =
        let (done, v₁, h₀, h₁) = >>=-eq-ok (run env agents.planner_llm i) _ w h in
        let (kept, v₂, h₂, h₃) =
          >>=-eq-ok (write_checkpoint env agents.checkpoint "planned" (with_graph done.0 done.1)) _
            v₁ h₁ in
        let e : j.decision_records ≡ kept.decision_records = ground arith in
        e
        ∙ checkpoint-records agents.checkpoint "planned" _ v₁ h₂
        ∙ run-records env agents.planner_llm i w h₀

    store-records :
        (step : Action IncidentRecord) (i : IncidentRecord) (w : World) {b : Bool}
        {j : IncidentRecord} {v : World}
        → ((k : IncidentRecord) (u : World)
            → step w ≡ (ok k, u)
            → k.decision_records ≡ i.decision_records)
        → and_store env agents step w ≡ (ok (b, j), v)
        → j.decision_records ≡ i.decision_records
    unfolding and_store
    store-records step i w {b} {j} same h =
        let (k, v₁, h₀, h₁) = >>=-eq-ok step _ w h in
        let (stored, v₂, h₂, h₃) = >>=-eq-ok (upsert env k) _ v₁ h₁ in
        let e : j ≡ stored = ground arith in
        ap (λ x. x.decision_records) e ∙ upsert-records k v₁ h₂ ∙ same k v₁ h₀

    pub leave-records :
        (step : Action IncidentRecord) (i : IncidentRecord) (w : World) {b : Bool}
        {j : IncidentRecord} {v : World}
        → ((k : IncidentRecord) (u : World)
            → step w ≡ (ok k, u)
            → k.decision_records ≡ i.decision_records)
        → and_leave env agents step w ≡ (ok (b, j), v)
        → j.decision_records ≡ i.decision_records
    unfolding and_leave
    leave-records step i w {b} {j} same h =
        let (k, v₁, h₀, h₁) = >>=-eq-ok step _ w h in
        let e : j ≡ k = ground arith in ap (λ x. x.decision_records) e ∙ same k v₁ h₀

    pub note-records :
        (phase message : String) (i : IncidentRecord) (w : World) {j : IncidentRecord} {v : World}
        → note env agents phase message i w ≡ (ok j, v)
        → j.decision_records ≡ i.decision_records
    unfolding note trace_entry fresh_id utcnow
    note-records phase message i w h = ground arith

    -- Every step of the loop leaves the decisions.
    pub dispatch-records :
        (step : String) (i : IncidentRecord) (w : World) {b : Bool} {j : IncidentRecord} {v : World}
        → dispatch env agents step i w ≡ (ok (b, j), v)
        → j.decision_records ≡ i.decision_records
    unfolding dispatch
    dispatch-records step i w {b} {j} {v} h = elim (if-cases (step == "triage") _ _ w h) [
      | inl h₀ ↦ store-records (triage_step env agents i) i w (λ k u. triage-records i w) h₀
      | inr n₀ ↦ elim (if-cases (step == "evidence") _ _ w n₀) [
        | inl h₁ ↦
            store-records (evidence_step env agents true i) i w (λ k u. evidence-records true i w)
              h₁
        | inr n₁ ↦ elim (if-cases (step == "change") _ _ w n₁) [
          | inl h₂ ↦ store-records (change_step env agents i) i w (λ k u. change-records i w) h₂
          | inr n₂ ↦ elim (if-cases (step == "rca") _ _ w n₂) [
            | inl h₃ ↦ store-records (rca_step env agents i) i w (λ k u. rca-records i w) h₃
            | inr n₃ ↦ elim (if-cases (step == "planner") _ _ w n₃) [
              | inl h₄ ↦
                  leave-records (planner_step env agents i) i w (λ k u. planner-records i w) h₄
              | inr n₄ ↦ elim (if-cases (step == "verify") _ _ w n₄) [
                | inl h₅ ↦
                    leave-records (note env agents "verify" "post_action_verify_stub" i) i w
                      (λ k u. note-records "verify" "post_action_verify_stub" i w) h₅
                | inr n₅ ↦ ground arith
              ]
            ]
          ]
        ]
      ]
    ]
