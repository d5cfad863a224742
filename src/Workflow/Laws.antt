-- ===== src/Workflow/Laws.antt =====
-- The decision loop: what it records and how far it goes.
use ai_assisted_aws_incident.Workflow.Loop.{
  has_reason, reason_or, index_incident_snippet, persist_decision, decide, round, follow, rounds,
  note, hold_back,
}
use Prim.Native.String.{slice}
use ai_assisted_aws_incident.Prelude.{
  append_nil, append_assoc, concat, ◌||◌, concat, ℕ, zero, suc, ◌+◌, ◌≤◌, ◌≡◌, refl, sym, ap, ◌∙◌,
  subst, Bool, true, false, none, some, List, [], ◌∷◌, ◌++◌, All, arith, contains, length, inl, inr,
  Bool-cases, ◌==◌,
}
use ai_assisted_aws_incident.Contracts.{
  ActionType-discrete, DecisionRecord, IncidentRecord, ResponsePlan, RouterDecision,
}
use ai_assisted_aws_incident.Environ.{Environ}
use ai_assisted_aws_incident.Router.Laws.{merge_router_allowed_with_plan-allowed}
use ai_assisted_aws_incident.Router.{compute_router_decision, merge_router_allowed_with_plan}
use ai_assisted_aws_incident.World.{
  if-cases, append_audit, World, ok, >>=-eq-ok, pure, fresh_id, utcnow, append_audit,
}
use ai_assisted_aws_incident.Workflow.{Agents}
use ai_assisted_aws_incident.Workflow.Keeps.{
  KeepsRecords, dispatch-records, note-records, leave-records,
}

-- A decision that may be followed under a response plan.
pub record IsSafe (plan : ResponsePlan) (d : RouterDecision) : Type 0 where
  pub allowed :
      All (λ a. contains ActionType-discrete a plan.allowed_actions ≡ true) d.allowed_actions
  pub held :
      d.investigate_only ≡ true
      → ((d.next_workflow == "planner") ≡ false) × ((d.next_workflow == "execute") ≡ false)

abbrev pub Records : ResponsePlan → DecisionRecord → Type 0
Records plan r = (d : RouterDecision) × (r.router_decision ≡ some d) × IsSafe plan d

hold_back-IsSafe :
    (plan : ResponsePlan) (d : RouterDecision)
    → All (λ a. contains ActionType-discrete a plan.allowed_actions ≡ true) d.allowed_actions
    → IsSafe plan (hold_back d)
unfolding hold_back
hold_back-IsSafe plan d h = elim (Bool-cases d.investigate_only) [
  | inl only ↦ elim (Bool-cases (d.next_workflow == "planner")) [
    | inl p ↦ rw (only, p) (record { allowed = h; held = λ _. (refl, refl) })
    | inr p ↦ elim (Bool-cases (d.next_workflow == "execute")) [
      | inl e ↦ rw (only, p, e) (record { allowed = h; held = λ _. (refl, refl) })
      | inr e ↦ rw (only, p, e) (record { allowed = h; held = λ _. (p, e) })
    ]
  ]
  | inr free ↦ rw free (record { allowed = h; held = λ yes_only. ground (arith, free) })
]

-- What the loop has added to an incident: at most so many decisions, each of them safe.
pub record Grown (plan : ResponsePlan) (n : ℕ) (i j : IncidentRecord) : Type 0 where
  pub added : List DecisionRecord
  pub grown : j.decision_records ≡ i.decision_records ++ added
  pub bounded : length added ≤ n
  pub safe : All (Records plan) added

module _ (env : Environ) (agents : Agents) (keeps : KeepsRecords agents) (plan : ResponsePlan) where
  decide-IsSafe :
      (i : IncidentRecord) (w : World) {d : RouterDecision} {v : World}
      → decide env agents plan i w ≡ (ok d, v)
      → IsSafe plan d
  unfolding decide
  decide-IsSafe i w {d} h =
      let (raw, v₁, h₀, h₁) =
        >>=-eq-ok (compute_router_decision env agents.router_llm i plan) _ w h in
      let e : hold_back (merge_router_allowed_with_plan raw plan) ≡ d = ground arith in
      subst (IsSafe plan) e (
        hold_back-IsSafe plan (merge_router_allowed_with_plan raw plan)
          (merge_router_allowed_with_plan-allowed raw plan).0)

  persist-records :
      (d : RouterDecision) (i : IncidentRecord) (w : World) {j : IncidentRecord} {v : World}
      → persist_decision env d i w ≡ (ok j, v)
      → (r : DecisionRecord) × (r.router_decision ≡ some d)
        × (j.decision_records ≡ i.decision_records ++ r ∷ [])
  unfolding persist_decision fresh_id utcnow append_audit
  persist-records d i w h = (
    record {
      record_id = concat ("dr_" ∷ slice (env.uuid_hex w.uuids) 0 10 ∷ []);
      iteration = i.workflow_iteration;
      router_decision = some d;
      step_executed = none;
      policy_decision_id = none;
      notes = "";
      created_at = env.clock w.clock_reads;
    },
    refl,
    ground arith,
  )

  follow-records :
      (d : RouterDecision) (i : IncidentRecord) (w : World) {b : Bool} {j : IncidentRecord}
      {v : World}
      → follow env agents d i w ≡ (ok (b, j), v)
      → (r : DecisionRecord) × (r.router_decision ≡ some d)
        × (j.decision_records ≡ i.decision_records ++ r ∷ [])
  unfolding follow
  follow-records d i w {b} {j} {v} h =
      let (recorded, v₁, h₀, h₁) = >>=-eq-ok (persist_decision env d i) _ w h in
      let (noted, v₂, h₂, h₃) =
        >>=-eq-ok (note env agents "decide" (concat ("next=" ∷ d.next_workflow ∷ [])) recorded) _ v₁
          h₁ in
      let (_, v₃, _, h₄) = >>=-eq-ok (index_incident_snippet env noted.incident_id _) _ v₂ h₃ in
      let (r, e, grown) = persist-records d i w h₀ in
      let kept : noted.decision_records ≡ recorded.decision_records =
        note-records env agents keeps "decide" _ recorded v₁ h₂ in
      let last : j.decision_records ≡ noted.decision_records =
        elim (if-cases (d.next_workflow == "stop" || has_reason d.stop_reason) _ _ v₃ h₄) [
          | inl stops ↦
              leave-records env agents keeps
                (note env agents "stop" (reason_or d.stop_reason "complete") noted) noted v₃
                (λ k u.
                  note-records env agents keeps "stop" (reason_or d.stop_reason "complete") noted
                    v₃)
                stops
          | inr goes ↦ dispatch-records env agents keeps d.next_workflow noted v₃ goes
        ] in
      (r, e, last ∙ kept ∙ grown)

  round-Records :
      (i : IncidentRecord) (w : World) {b : Bool} {j : IncidentRecord} {v : World}
      → round env agents plan i w ≡ (ok (b, j), v)
      → (r : DecisionRecord) × Records plan r × (j.decision_records ≡ i.decision_records ++ r ∷ [])
  unfolding round
  round-Records i w h =
      let counted = record i { workflow_iteration = i.workflow_iteration + 1 } in
      let (d, v₁, h₀, h₁) = >>=-eq-ok (decide env agents plan counted) _ w h in
      let (r, e, grown) = follow-records d counted v₁ h₁ in
      (r, (d, e, decide-IsSafe counted w h₀), grown)

  -- The loop of a route that ends well has recorded at most one decision for each round it was given,
  -- and each of them allows only what the response plan allows, and asks for neither the planner
  -- nor an execution while it says `investigate_only`.
  pub rounds-Grown :
      (n : ℕ) (i : IncidentRecord) (w : World) {j : IncidentRecord} {v : World}
      → rounds env agents plan n i w ≡ (ok j, v)
      → Grown plan n i j
  unfolding rounds
  rounds-Grown zero i w {j} h =
      let e : j ≡ i = ground arith in
      record {
        added = [];
        grown = ap (λ x. x.decision_records) e ∙ sym (append_nil i.decision_records);
        bounded = omega arith;
        safe = tt;
      }
  rounds-Grown (suc n) i w {j} {v} h =
      let (o, v₁, h₀, h₁) = >>=-eq-ok (round env agents plan i) _ w h in
      let (r, s, grown) = round-Records i w h₀ in
      elim (if-cases o.0 (pure o.1) (rounds env agents plan n o.1) v₁ h₁) [
        | inl left ↦
            let e : j ≡ o.1 = ground arith in
            record {
              added = r ∷ [];
              grown = ap (λ x. x.decision_records) e ∙ grown;
              bounded = omega arith;
              safe = (s, tt);
            }
        | inr on ↦
            let rest = rounds-Grown n o.1 v₁ on in
            record {
              added = r ∷ rest.added;
              grown =
                  rest.grown
                  ∙ ap (λ x. x ++ rest.added) grown
                  ∙ append_assoc i.decision_records (r ∷ []) rest.added;
              bounded = omega (arith, rest.bounded);
              safe = (s, rest.safe);
            }
      ]
