-- ===== src/Policy/Autonomy.antt =====
-- Which actions count as risky: `qualifies_for_autonomy` of
-- apps/api/routers/policy_engine/autonomy.py, and `is_privileged_action` of src/agent_runtime/sandbox.py.
use ai_assisted_aws_incident.Prelude.{
  holds, subst, ◌≡◌, refl, Bool, true, false, not, ◌&&◌, ◌||◌, String, List, [], ◌∷◌, ℕ, any, ltb,
  lower, has_part, ◌==◌, contains, All, arith, Bool-cases, inl, inr, if◌then◌else◌,
}
use ai_assisted_aws_incident.Contracts.{
  ActionGraph, ResponsePlan, ActionRequest, ActionType, ActionType-discrete, run_shell,
  run_ansible_job, drain_node, rollback_deployment,
}
use ai_assisted_aws_incident.Plans.{
  match_response_plan, is_severe, checkout_plan, compute_plan, generic_plan,
}

-- `_PRIVILEGED`
abbrev privileged : List ActionType
privileged = run_shell ∷ run_ansible_job ∷ drain_node ∷ []

-- `is_privileged_action`
unfoldable pub is_privileged_action : ActionRequest → Bool
is_privileged_action action = contains ActionType-discrete action.action_type privileged

abbrev high_risk : List ActionType
high_risk = drain_node ∷ run_ansible_job ∷ rollback_deployment ∷ []

-- `qualifies_for_autonomy`, with a confidence in ten-thousandths
unfoldable pub qualifies_for_autonomy : ℕ → String → ActionGraph → Bool
qualifies_for_autonomy confidence blast_radius graph =
    if ltb confidence 9000
    then false
    else if not (lower blast_radius == "single service")
    then false
    else not (any (λ a. contains ActionType-discrete a.action_type high_risk) graph.actions)

any-none :
    (p : ActionRequest → Bool) (xs : List ActionRequest)
    → any p xs ≡ false
    → All (λ x. p x ≡ false) xs
any-none p [] h = tt
any-none p (x ∷ xs) h = (ground arith, any-none p xs (ground arith))

-- What qualifies for autonomy has no action of high risk.
qualifies_for_autonomy-risk :
    (confidence : ℕ) (blast_radius : String) (graph : ActionGraph)
    → qualifies_for_autonomy confidence blast_radius graph ≡ true
    → All (λ a. contains ActionType-discrete a.action_type high_risk ≡ false) graph.actions
unfolding qualifies_for_autonomy
qualifies_for_autonomy-risk confidence blast_radius graph h =
    any-none (λ a. contains ActionType-discrete a.action_type high_risk) graph.actions
      (ground arith)

holds-yes : {P : Type 0} (d : Dec P) → holds d ≡ true → P
holds-yes (yes p) h = p
holds-yes (no _) h = absurd (ground arith)

contains-All :
    (P : ActionType → Type 0) (a : ActionType) (xs : List ActionType)
    → contains ActionType-discrete a xs ≡ true
    → All P xs
    → P a
contains-All P a [] h ps = cc
contains-All P a (x ∷ xs) h (p, ps) = elim (Bool-cases (holds (ActionType-discrete x a))) [
  | inl same ↦ subst P (holds-yes (ActionType-discrete x a) same) p
  | inr other ↦ contains-All P a xs (ground (arith, h, other)) ps
]

abbrev Unprivileged : ActionType → Type 0
Unprivileged a = contains ActionType-discrete a privileged ≡ false

checkout-Unprivileged : All Unprivileged checkout_plan.allowed_actions
unfolding ActionType-discrete
checkout-Unprivileged = (refl, (refl, (refl, (refl, (refl, tt)))))

compute-Unprivileged : All Unprivileged compute_plan.allowed_actions
unfolding ActionType-discrete
compute-Unprivileged = (refl, (refl, (refl, (refl, (refl, (refl, tt))))))

generic-Unprivileged : All Unprivileged generic_plan.allowed_actions
unfolding ActionType-discrete
generic-Unprivileged = (refl, (refl, (refl, (refl, (refl, tt)))))

if-All :
    (b : Bool) (p q : ResponsePlan)
    → All Unprivileged p.allowed_actions
    → All Unprivileged q.allowed_actions
    → All Unprivileged (if b then p else q).allowed_actions
if-All true p q h k = h
if-All false p q h k = k

-- No response plan allows a privileged action.
match_response_plan-unprivileged :
    (severity symptom : String) (action : ActionRequest)
    → contains ActionType-discrete action.action_type
        (match_response_plan severity symptom).allowed_actions
      ≡ true
    → is_privileged_action action ≡ false
unfolding match_response_plan is_privileged_action
match_response_plan-unprivileged severity symptom action h =
    contains-All Unprivileged action.action_type _ h (
      if-All
        (has_part "checkout" (lower symptom)
          && (has_part "deployment" (lower symptom) || has_part "error" (lower symptom)))
        checkout_plan _ checkout-Unprivileged
        (if-All
          (is_severe severity
            && (has_part "cpu" (lower symptom) || has_part "error" (lower symptom)))
          compute_plan generic_plan compute-Unprivileged generic-Unprivileged))
