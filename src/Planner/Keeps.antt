-- ===== src/Planner/Keeps.antt =====
-- What the planner leaves as it was: everything but its confidence.
use ai_assisted_aws_incident.Prelude.{
  ◌&&◌, not, is_empty, Option-cases, is_empty, ◌≡◌, refl, ap, subst, List, [], ◌∷◌, arith, inl, inr,
  if◌then◌else◌,
}
use ai_assisted_aws_incident.Contracts.{
  ActionRequest, ActionType, IncidentRecord, ResponsePlan, ActionGraph,
}
use ai_assisted_aws_incident.Environ.{Environ}
use ai_assisted_aws_incident.Planner.{
  is_caught, run, plan_under, or_stub, ask_llm, stub_graph, stub_actions, build_plan_steps,
  clamp_actions, graph_of, PlannerOutput,
}
use ai_assisted_aws_incident.World.{
  if-cases, raise, structured_llm_error, structured_llm_error, World, Action, Result, ok, err,
  >>=-eq-ok, pure, ◌>>=◌,
}

module _ (env : Environ) (llm : IncidentRecord → List ActionType → Action PlannerOutput) where
  build-kept :
      (i : IncidentRecord) (w : World) {done : ActionGraph × IncidentRecord} {v : World}
      → stub_graph env i w ≡ (ok done, v)
      → done.1 ≡ record i { last_planner_confidence = (done.1).last_planner_confidence }
  unfolding stub_graph
  build-kept i w {done} h =
      let (acts, v₁, h₀, h₁) = >>=-eq-ok (stub_actions env i) _ w h in
      let (steps, v₂, h₂, h₃) = >>=-eq-ok (build_plan_steps env 0 acts) _ v₁ h₁ in ground arith

  ask-kept :
      (i : IncidentRecord) (allowed : List ActionType) (w : World)
      {done : ActionGraph × IncidentRecord} {v : World}
      → ask_llm env llm i allowed w ≡ (ok done, v)
      → done.1 ≡ record i { last_planner_confidence = (done.1).last_planner_confidence }
  unfolding ask_llm
  ask-kept i allowed w {done} h =
      let (out, v₁, h₀, h₁) = >>=-eq-ok (llm i allowed) _ w h in
      let marked = record i { last_planner_confidence = out.planner_confidence } in
      let (acts, v₂, h₂, h₃) =
        >>=-eq-ok (clamp_actions env marked out.action_type_names allowed) _ v₁ h₁ in
      built marked out acts v₂ h₃
    where
      built :
          (marked : IncidentRecord) (out : PlannerOutput) (acts : List ActionRequest) (v₂ : World)
          {done : ActionGraph × IncidentRecord} {v : World}
          → (if is_empty acts
                then (if env.agent.agentic_stub_fallback
                    then stub_graph env marked
                    else raise structured_llm_error)
                else (build_plan_steps env 0 acts >>= λ steps.
                    pure (graph_of env out acts steps, marked)))
              v₂
            ≡ (ok done, v)
          → done.1 ≡ record marked { last_planner_confidence = (done.1).last_planner_confidence }
      built marked out [] v₂ h = elim (if-cases env.agent.agentic_stub_fallback _ _ v₂ h) [
        | inl kept ↦ build-kept marked v₂ kept
        | inr lost ↦ absurd (ground arith)
      ]
      built marked out (a ∷ rest) v₂ h =
          let (steps, v₃, h₀, h₁) = >>=-eq-ok (build_plan_steps env 0 (a ∷ rest)) _ v₂ h in
          ground arith

  under-kept :
      (i : IncidentRecord) (plan : ResponsePlan) (w : World) {done : ActionGraph × IncidentRecord}
      {v : World}
      → plan_under env llm i plan w ≡ (ok done, v)
      → done.1 ≡ record i { last_planner_confidence = (done.1).last_planner_confidence }
  unfolding plan_under or_stub
  under-kept i plan w {done} {v} h =
      let asking : Action (ActionGraph × IncidentRecord) =
        λ u. or_stub env llm i (ask_llm env llm i plan.allowed_actions u) in
      let chosen : (if env.agent.agentic_enabled then asking else stub_graph env i) w
          ≡ (ok done, v) =
        ground arith in
      elim (if-cases env.agent.agentic_enabled asking (stub_graph env i) w chosen) [
        | inl asked ↦ or_stub-kept _ refl asked
        | inr made ↦ build-kept i w made
      ]
    where
      or_stub-kept :
          (o : Result (ActionGraph × IncidentRecord) × World) {done : ActionGraph × IncidentRecord}
          {v : World}
          → ask_llm env llm i plan.allowed_actions w ≡ o
          → or_stub env llm i o ≡ (ok done, v)
          → done.1 ≡ record i { last_planner_confidence = (done.1).last_planner_confidence }
      or_stub-kept (ok d, v₁) {done} e h =
          let same : d.1 ≡ done.1 = ground arith in
          subst (λ x. x ≡ record i { last_planner_confidence = x.last_planner_confidence }) same
            (ask-kept i plan.allowed_actions w e)
      or_stub-kept (err f, v₁) {done} {v} e h =
          let chosen : (if is_caught f && env.agent.agentic_stub_fallback
                  then stub_graph env i
                  else raise f)
                v₁
              ≡ (ok done, v) =
            ground arith in
          elim (if-cases (is_caught f && env.agent.agentic_stub_fallback) (stub_graph env i)
            (raise f) v₁ chosen) [
              | inl made ↦ build-kept i v₁ made
              | inr lost ↦ absurd (ground arith)
            ]

  -- The planner writes nothing but its confidence.
  pub run-kept :
      (i : IncidentRecord) (w : World) {done : ActionGraph × IncidentRecord} {v : World}
      → run env llm i w ≡ (ok done, v)
      → done.1 ≡ record i { last_planner_confidence = (done.1).last_planner_confidence }
  unfolding run
  run-kept i w {done} {v} h = elim (Option-cases i.response_plan) [
    | inl missing ↦
        let chosen : (if env.agent.agentic_enabled && not env.agent.agentic_stub_fallback
                then raise structured_llm_error
                else stub_graph env i)
              w
            ≡ (ok done, v) =
          ground arith in
        elim (if-cases (env.agent.agentic_enabled && not env.agent.agentic_stub_fallback)
          (raise structured_llm_error) (stub_graph env i) w chosen) [
            | inl lost ↦ absurd (ground arith)
            | inr made ↦ build-kept i w made
          ]
    | inr (plan, e) ↦
        let under : plan_under env llm i plan w ≡ (ok done, v) = ground arith in
        under-kept i plan w under
  ]

  pub run-records :
      (i : IncidentRecord) (w : World) {done : ActionGraph × IncidentRecord} {v : World}
      → run env llm i w ≡ (ok done, v)
      → (done.1).decision_records ≡ i.decision_records
  run-records i w h = ap (λ x. x.decision_records) (run-kept i w h)
