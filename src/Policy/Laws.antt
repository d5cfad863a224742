-- ===== src/Policy/Laws.antt =====
-- What an allowed action has passed, and what the response plans never allow.
use ai_assisted_aws_incident.Prelude.{
  ℕ, ◌≡◌, refl, ◌≢◌, ◌⊎◌, inl, inr, Bool, true, false, not, ◌&&◌, String, Option, some, List, [],
  ◌∷◌, arith, is_empty, contains, All,
}
use ai_assisted_aws_incident.Value.{Value, list, nil, get_or}
use ai_assisted_aws_incident.Contracts.{
  PolicyClass, ActionType, ActionRequest, PolicyDecision, ResponsePlan, ActionType-discrete,
  action_value, run_shell, read_only,
}
use ai_assisted_aws_incident.Environ.{Environ}
use ai_assisted_aws_incident.Plans.{match_response_plan}
use ai_assisted_aws_incident.Policy.{
  coverage_min, is_below, check_list, run_checks, decide, set_check, target_check, deny_if,
  PolicyEngine, Context, Check, raised, denies, passes, checks, evaluate, kill_switch, listed,
  names, is_write, target_allowed, is_read_only,
}

not_contains :
    (a : ActionType) (xs : List ActionType)
    → contains ActionType-discrete a xs ≡ false
    → All (λ x. x ≢ a) xs
not_contains a [] h = tt
not_contains a (x ∷ xs) h = ground (arith, not_contains a xs)

-- What the plan and the policy file ask of an action that runs.
pub record Permitted (env : Environ) (engine : PolicyEngine) (plan : ResponsePlan)
    (action : ActionRequest) (autonomous : Bool) (ctx : Context) : Type 0 where
  pub supervised : autonomous ≡ true → kill_switch env engine ≡ false
  pub undenied : All (λ a. a ≢ action.action_type) plan.denied_actions
  pub listed_by_plan :
      (plan.allowed_actions ≡ [])
      ⊎ (contains ActionType-discrete action.action_type plan.allowed_actions ≡ true)
  pub target_fits :
      target_allowed action.target
        (listed (get_or "allowedTargetPatterns" (list nil) engine.execution_policy))
      ≡ some true
  pub listed_by_policy :
      (listed (get_or "allowedActions" (list nil) engine.execution_policy) ≡ [])
      ⊎ (names
            (action_value action.action_type)
            (listed (get_or "allowedActions" (list nil) engine.execution_policy))
          ≡ true)
  pub unlisted_denial :
      names
        (action_value action.action_type)
        (listed (get_or "deniedActions" (list nil) engine.execution_policy))
      ≡ false
  pub reads_only : plan.policy_class ≡ read_only → is_write action.action_type ≡ false
  pub covered : is_below ctx.evidence_coverage (coverage_min env engine) ≡ false

is_empty-nil : (xs : List ActionType) → is_empty xs ≡ true → xs ≡ []
is_empty-nil [] h = refl
is_empty-nil (x ∷ xs) h = cc

listed_of :
    (a : ActionType) (xs : List ActionType)
    → (not (is_empty xs) && not (contains ActionType-discrete a xs)) ≡ false
    → (xs ≡ []) ⊎ (contains ActionType-discrete a xs ≡ true)
listed_of a [] h = inl refl
listed_of a (x ∷ xs) h = inr (ground arith)

named_of :
    (name : String) (vs : List Value)
    → (not (is_empty vs) && not (names name vs)) ≡ false
    → (vs ≡ []) ⊎ (names name vs ≡ true)
named_of name [] h = inl refl
named_of name (v ∷ vs) h = inr (ground arith)

read_only_of :
    (c : PolicyClass) (w : Bool) → (is_read_only c && w) ≡ false → c ≡ read_only → w ≡ false
read_only_of c w h e = ground arith

module _ (env : Environ) (engine : PolicyEngine) (plan : ResponsePlan) (action : ActionRequest)
    (autonomous : Bool) (ctx : Context) where
  decide-passes :
      (stamp : String × ℕ) (c : Check) (d : PolicyDecision)
      → decide env engine stamp plan action autonomous ctx c ≡ some d
      → d.allowed ≡ true
      → c ≡ passes
  decide-passes stamp raised d e a = cc
  decide-passes stamp (denies reason code) d e a = ground arith
  decide-passes stamp passes d e a = refl

run_checks-passes : (cs : List Check) → run_checks cs ≡ passes → All (λ c. c ≡ passes) cs
unfolding run_checks
run_checks-passes [] h = tt
run_checks-passes (raised ∷ cs) h = cc
run_checks-passes (denies _ _ ∷ cs) h = cc
run_checks-passes (passes ∷ cs) h = (refl, run_checks-passes cs h)

deny_if-passes : (b : Bool) (reason code : String) → deny_if b reason code ≡ passes → b ≡ false
deny_if-passes b reason code h = ground arith

set_check-passes : (vs : List Value) (k : Check) → set_check vs k ≡ passes → k ≡ passes
set_check-passes vs k h = ground arith

target_check-passes : (o : Option Bool) → target_check o ≡ passes → o ≡ some true
target_check-passes o h = ground arith

module _ (env : Environ) (engine : PolicyEngine) (plan : ResponsePlan) (action : ActionRequest)
    (autonomous : Bool) (ctx : Context) where
  checks-passes :
      checks env engine plan action autonomous ctx ≡ passes
      → All (λ c. c ≡ passes) (check_list env engine plan action autonomous ctx)
  unfolding checks
  checks-passes e = run_checks-passes (check_list env engine plan action autonomous ctx) e

  -- Checks that pass leave a permitted action.
  checks-Permitted :
      checks env engine plan action autonomous ctx ≡ passes
      → Permitted env engine plan action autonomous ctx
  checks-Permitted e =
      let h = checks-passes e in
      let kill = deny_if-passes _ _ _ h.0 in
      let outside = deny_if-passes _ _ _ h.1.1.0 in
      let write = deny_if-passes _ _ _ h.1.1.1.1.1.1.0 in
      record {
        supervised = λ a. ground arith;
        undenied = not_contains _ _ (deny_if-passes _ _ _ h.1.0);
        listed_by_plan = listed_of _ _ outside;
        target_fits = target_check-passes _ h.1.1.1.1.1.0;
        listed_by_policy = named_of _ _ (
            deny_if-passes _ "Action blocked by execution policy allowlist" "execution_allowlist" (
              set_check-passes (listed (get_or "allowedActions" (list nil) engine.execution_policy))
                _ h.1.1.1.0));
        unlisted_denial =
            deny_if-passes _ "Action blocked by execution policy denylist" "execution_denylist" (
              set_check-passes (listed (get_or "deniedActions" (list nil) engine.execution_policy))
                _ h.1.1.1.1.0);
        reads_only = λ a. read_only_of plan.policy_class _ write a;
        covered = deny_if-passes _ _ _ h.1.1.1.1.1.1.1.0;
      }

not_allowed : (b : Bool) → ¬ (b ≡ true) → b ≡ false
not_allowed true h = absurd (h refl)
not_allowed false h = refl

-- Every response plan denies shell commands.
shell_denied :
    (severity symptom : String)
    → ¬ All (λ x. x ≢ run_shell) (match_response_plan severity symptom).denied_actions
unfolding match_response_plan
shell_denied severity symptom h = ground arith

module _ (env : Environ) (engine : PolicyEngine) (stamp : String × ℕ) (action : ActionRequest)
    (autonomous : Bool) (ctx : Context) where
  -- An allowed decision means that the action passed every check: autonomy only without the kill switch,
  -- no type that the plan or the policy file denies, a type on the plan's list and on the file's
  -- unless that is empty, an allowed target, no write under a read-only plan, and evidence that covers
  -- no less than the file asks for.
  pub evaluate-Permitted :
      (plan : ResponsePlan) (d : PolicyDecision)
      → evaluate env engine stamp plan action autonomous ctx ≡ some d
      → d.allowed ≡ true
      → Permitted env engine plan action autonomous ctx
  unfolding evaluate
  evaluate-Permitted plan d e a =
      checks-Permitted env engine plan action autonomous ctx
        (decide-passes env engine plan action autonomous ctx stamp _ d e a)

  -- Whatever the severity and the symptom, no matched plan lets a shell command run.
  pub match_response_plan-denies_shell :
      (severity symptom : String) (d : PolicyDecision)
      → action.action_type ≡ run_shell
      → evaluate env engine stamp (match_response_plan severity symptom) action autonomous ctx
        ≡ some d
      → d.allowed ≡ false
  match_response_plan-denies_shell severity symptom d shell e =
      not_allowed d.allowed
        λ a. shell_denied severity symptom (subst_type (evaluate-Permitted _ d e a).undenied)
    where
      subst_type :
          All (λ x. x ≢ action.action_type) (match_response_plan severity symptom).denied_actions
          → All (λ x. x ≢ run_shell) (match_response_plan severity symptom).denied_actions
      subst_type h = rw (← shell) h
