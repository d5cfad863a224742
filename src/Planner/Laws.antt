-- ===== src/Planner/Laws.antt =====
-- What the planner may propose.
use ai_assisted_aws_incident.Planner.{
  or_stub, plan_under, run, graph_of, stub_actions, ask_llm, PlannerOutput, stub_graph,
  service_only, plan_step, propose, clamp_action, build_plan_steps, clamp_actions,
}
use ai_assisted_aws_incident.Prelude.{
  if◌then◌else◌, ◌==◌, concat, ℕ, suc, ◌≡◌, refl, sym, ap, ◌∙◌, subst, true, false, String, some,
  List, [], ◌∷◌, ◌++◌, All, All-append, arith, contains, inl, inr, Bool-cases, Option-cases,
  is_empty,
}
use ai_assisted_aws_incident.Contracts.{
  ActionGraph, ActionRequest, ActionType, ActionType-discrete, IncidentRecord, PlanStep,
  ResponsePlan, restart_service, scale_workload, action_of_value, action_value,
}
use Prim.Native.String.{slice}
use ai_assisted_aws_incident.Plans.{generic_plan}
use ai_assisted_aws_incident.Environ.{env_flag, Environ}
use ai_assisted_aws_incident.World.{
  raise, structured_llm_error, ◌>>=◌, World, Action, ok, >>=-eq-ok, pure, fresh_id,
}

-- The step says what it is for, and stands where it is numbered.
pub data Follows : ℕ → List ActionRequest → List PlanStep → Type 0 where
  done : {n : ℕ} → Follows n [] []
  step :
      {n : ℕ} {a : ActionRequest} {s : PlanStep} {acts : List ActionRequest} {ss : List PlanStep}
      → s.order ≡ n
      → s.action_ref_id ≡ some a.action_id
      → Follows (suc n) acts ss
      → Follows n (a ∷ acts) (s ∷ ss)

All-none : {A : Type 0} (P : A → Type 0) (xs : List A) → [] ≡ xs → All P xs
All-none P xs e = subst (All P) e tt

All-one : {A : Type 0} (P : A → Type 0) (x : A) (xs : List A) → x ∷ [] ≡ xs → P x → All P xs
All-one P x xs e p = subst (All P) e (p, tt)

disallowed :
    (a b : ActionRequest) (acts : List ActionRequest)
    → acts ≡ a ∷ b ∷ []
    → a.action_type ≡ restart_service
    → b.action_type ≡ scale_workload
    → (is_empty acts ≡ false)
      × All
          (λ x. contains ActionType-discrete x.action_type generic_plan.allowed_actions ≡ false)
          acts
unfolding ActionType-discrete
disallowed a b acts e ka kb = (
  ap is_empty e,
  subst (All _) (sym e) (
    ap (λ k. contains ActionType-discrete k generic_plan.allowed_actions) ka,
    (ap (λ k. contains ActionType-discrete k generic_plan.allowed_actions) kb, tt),
  ),
)

module _ (env : Environ) where
  -- The steps of a plan are those of its actions, in their order and numbered from the first one.
  pub build_plan_steps-Follows :
      (n : ℕ) (actions : List ActionRequest) (w : World) {steps : List PlanStep} {v : World}
      → build_plan_steps env n actions w ≡ (ok steps, v)
      → Follows n actions steps
  unfolding build_plan_steps plan_step fresh_id
  build_plan_steps-Follows n [] w h = subst (Follows n []) (ground arith) done
  build_plan_steps-Follows n (a ∷ acts) w {steps} h =
      let (s, v₁, made, h₁) =
        >>=-eq-ok (plan_step env n a)
          (λ s. build_plan_steps env (suc n) acts >>= λ ss. pure (s ∷ ss)) w h in
      let (ss, v₂, rest, h₂) =
        >>=-eq-ok (build_plan_steps env (suc n) acts) (λ ss. pure (s ∷ ss)) v₁ h₁ in
      let e : s ∷ ss ≡ steps = ground arith in
      subst (Follows n (a ∷ acts)) e
        (step (ground arith) (ground arith) (build_plan_steps-Follows (suc n) acts v₁ rest))

  clamp_action-allowed :
      (incident : IncidentRecord) (allowed : List ActionType) (raw : String) (w : World)
      {acts : List ActionRequest} {v : World}
      → clamp_action env incident allowed raw w ≡ (ok acts, v)
      → All (λ a. contains ActionType-discrete a.action_type allowed ≡ true) acts
  unfolding clamp_action propose fresh_id
  clamp_action-allowed incident allowed raw w {acts} h = elim (Option-cases (action_of_value raw)) [
    | inl unknown ↦ All-none _ acts (ground arith)
    | inr (kind, e) ↦ elim (Bool-cases (contains ActionType-discrete kind allowed)) [
      | inl yes_allowed ↦
          All-one _
            (record {
              action_id = concat ("act_" ∷ slice (env.uuid_hex w.uuids) 0 8 ∷ []);
              action_type = kind;
              target = incident.metadata.resource;
              parameters = service_only env incident;
              idempotency_key = concat (incident.incident_id ∷ ":" ∷ action_value kind ∷ []);
              dry_run = env_flag env "PLANNER_DEFAULT_DRY_RUN" "true";
              timeout_seconds = 120;
            })
            acts (ground arith) yes_allowed
      | inr no_allowed ↦ All-none _ acts (ground arith)
    ]
  ]

  -- Whatever names the language model gives, the actions made of them are of the plan's allowed kinds.
  pub clamp_actions-allowed :
      (incident : IncidentRecord) (names : List String) (allowed : List ActionType) (w : World)
      {acts : List ActionRequest} {v : World}
      → clamp_actions env incident names allowed w ≡ (ok acts, v)
      → All (λ a. contains ActionType-discrete a.action_type allowed ≡ true) acts
  unfolding clamp_actions
  clamp_actions-allowed incident [] allowed w {acts} h = All-none _ acts (ground arith)
  clamp_actions-allowed incident (raw ∷ rest) allowed w {acts} h =
      let (xs, v₁, h₀, h₁) =
        >>=-eq-ok (clamp_action env incident allowed raw)
          (λ xs. clamp_actions env incident rest allowed >>= λ ys. pure (xs ++ ys)) w h in
      let (ys, v₂, h₂, h₃) =
        >>=-eq-ok (clamp_actions env incident rest allowed) (λ ys. pure (xs ++ ys)) v₁ h₁ in
      let e : xs ++ ys ≡ acts = ground arith in
      subst (All _) e (
        All-append _ xs ys (clamp_action-allowed incident allowed raw w h₀)
          (clamp_actions-allowed incident rest allowed v₁ h₂))

  stub_actions-disallowed :
      (incident : IncidentRecord) (w : World) (acts : List ActionRequest) {v : World}
      → (incident.metadata.service == "checkout-service") ≡ false
      → stub_actions env incident w ≡ (ok acts, v)
      → (a : ActionRequest) × (b : ActionRequest) × (acts ≡ a ∷ b ∷ [])
        × (a.action_type ≡ restart_service)
        × (b.action_type ≡ scale_workload)
  unfolding stub_actions propose fresh_id
  stub_actions-disallowed incident w [] other h = absurd (ground arith)
  stub_actions-disallowed incident w (a ∷ []) other h = absurd (ground arith)
  stub_actions-disallowed incident w (a ∷ b ∷ []) other h = (a, b, refl, ground arith, ground arith)
  stub_actions-disallowed incident w (a ∷ b ∷ c ∷ _) other h = absurd (ground arith)

  -- Away from the checkout service, the plan made without the language model proposes only actions
  -- that the read-only plan for other incidents does not allow.
  pub stub_graph-disallowed :
      (incident : IncidentRecord) (w : World) {g : ActionGraph} {i : IncidentRecord} {v : World}
      → (incident.metadata.service == "checkout-service") ≡ false
      → stub_graph env incident w ≡ (ok (g, i), v)
      → (is_empty g.actions ≡ false)
        × All
            (λ a. contains ActionType-discrete a.action_type generic_plan.allowed_actions ≡ false)
            g.actions
  unfolding stub_graph
  stub_graph-disallowed incident w {g} {i} {v} other h =
      let (acts, v₁, h₀, h₁) = >>=-eq-ok (stub_actions env incident) _ w h in
      let (steps, v₂, _, h₂) = >>=-eq-ok (build_plan_steps env 0 acts) _ v₁ h₁ in
      let e : g.actions ≡ acts = ground arith in
      let (a, b, e', ka, kb) = stub_actions-disallowed incident w acts other h₀ in
      disallowed a b g.actions (e ∙ e') ka kb

  module _ (llm : IncidentRecord → List ActionType → Action PlannerOutput) where
    left :
        (marked : IncidentRecord) (out : PlannerOutput) (acts : List ActionRequest) (w : World)
        {a : ActionGraph × IncidentRecord} {v : World}
        → env.agent.agentic_stub_fallback ≡ false
        → (if is_empty acts
              then (if env.agent.agentic_stub_fallback
                  then stub_graph env marked
                  else raise structured_llm_error)
              else (build_plan_steps env 0 acts >>= λ steps.
                  pure (graph_of env out acts steps, marked)))
            w
          ≡ (ok a, v)
        → (is_empty acts ≡ false)
          × ((build_plan_steps env 0 acts >>= λ steps. pure (graph_of env out acts steps, marked)) w
              ≡ (ok a, v))
    left marked out [] w strict h = absurd (ground arith)
    left marked out (x ∷ xs) w strict h = (refl, h)

    ask_llm-strict :
        (incident : IncidentRecord) (allowed : List ActionType) (w : World) {g : ActionGraph}
        {i : IncidentRecord} {v : World}
        → env.agent.agentic_stub_fallback ≡ false
        → ask_llm env llm incident allowed w ≡ (ok (g, i), v)
        → (is_empty g.actions ≡ false)
          × All (λ a. contains ActionType-discrete a.action_type allowed ≡ true) g.actions
          × Follows 0 g.actions g.plan_steps
    unfolding ask_llm
    ask_llm-strict incident allowed w {g} {i} {v} strict h =
        let (out, v₁, h₀, h₁) = >>=-eq-ok (llm incident allowed) _ w h in
        let marked = record incident { last_planner_confidence = out.planner_confidence } in
        let (acts, v₂, clamped, h₂) =
          >>=-eq-ok (clamp_actions env marked out.action_type_names allowed) _ v₁ h₁ in
        let (some_left, h₃) = left marked out acts v₂ strict h₂ in
        let (steps, v₃, built, h₄) = >>=-eq-ok (build_plan_steps env 0 acts) _ v₂ h₃ in
        let e : acts ≡ g.actions = ground arith in
        (
          ap is_empty (sym e) ∙ some_left,
          subst (All _) e (clamp_actions-allowed marked out.action_type_names allowed v₁ clamped),
          subst (λ x. Follows 0 x g.plan_steps) e
              (subst (Follows 0 acts) (ground arith) (build_plan_steps-Follows 0 acts v₂ built)),
        )

    -- With the language model on and no fallback, a plan that comes back has an action, all its actions
    -- are of kinds that the incident's response plan allows, and its steps are those of the actions.
    pub run-strict :
        (incident : IncidentRecord) (plan : ResponsePlan) (w : World) {g : ActionGraph}
        {i : IncidentRecord} {v : World}
        → env.agent.agentic_enabled ≡ true
        → env.agent.agentic_stub_fallback ≡ false
        → incident.response_plan ≡ some plan
        → run env llm incident w ≡ (ok (g, i), v)
        → (is_empty g.actions ≡ false)
          × All
              (λ a. contains ActionType-discrete a.action_type plan.allowed_actions ≡ true)
              g.actions
          × Follows 0 g.actions g.plan_steps
    unfolding run plan_under or_stub
    run-strict incident plan w {g} {i} {v} on strict has h =
        let asked : ask_llm env llm incident plan.allowed_actions w ≡ (ok (g, i), v) =
          ground arith in
        ask_llm-strict incident plan.allowed_actions w strict asked
