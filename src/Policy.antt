-- ===== src/Policy.antt =====
-- src/domain/policies/engine.py: `PolicyEngine.evaluate`. An uncaught TypeError (a YAML list or map
-- where a text is wanted) is `raised`.
mod Rules
pub mod Laws
pub mod Approval
pub mod Autonomy
pub mod Tests
unfoldable pub use Rules.*
use ai_assisted_aws_incident.Prelude.{
  ℕ, Bool, true, false, not, ◌&&◌, ◌||◌, String, Option, none, some, List, [], ◌∷◌, ltb, is_empty,
  is_some, contains, any, all, holds, ◌==◌, if◌then◌else◌,
}
use ai_assisted_aws_incident.Value.{
  Value, Fields, truthy, null, boolean, int, float, text, list, dict, get, get_or, as_list, present,
}
use ai_assisted_aws_incident.Value
use ai_assisted_aws_incident.Contracts.{
  ActionRequest, ActionType, PolicyClass, PolicyDecision, ResponsePlan, action_value,
  ActionType-discrete, PolicyClass-discrete, read_only, review_required, privileged,
  restart_service, scale_workload, rollback_deployment, drain_node, run_ansible_job, run_shell,
}
use ai_assisted_aws_incident.Environ.{Environ, env_flag, str_of, float_of}
use ai_assisted_aws_incident.Glob.{fnmatch}
use Rules.{Context, listed, first_rule, rule_fields, name_or_none}

-- `self._execution_policy` and `self._approval_policy`, as `yaml.safe_load` gave them.
pub record PolicyEngine : Type 0 where
  pub execution_policy : Fields
  pub approval_policy : Fields

-- The outcome of the checks in their order.
pub data Check : Type 0 where
  raised : Check
  denies : String → String → Check
  passes : Check

-- The checks run in order, up to the first that denies or raises.
pub run_checks : List Check → Check
run_checks [] = passes
run_checks (raised ∷ cs) = raised
run_checks (denies reason code ∷ cs) = denies reason code
run_checks (passes ∷ cs) = run_checks cs

abbrev pub deny_if : Bool → String → String → Check
deny_if b reason code = if b then denies reason code else passes

-- `set(vs)` raises on a list or a map.
abbrev pub is_hashable : Value → Bool
is_hashable (list _) = false
is_hashable (dict _) = false
is_hashable _ = true

abbrev pub is_text : String → Value → Bool
is_text s (text t) = t == s
is_text s _ = false

-- `name in set(vs)`
abbrev pub names : String → List Value → Bool
names s vs = any (is_text s) vs

-- `any(fnmatch(target, pattern) for pattern in patterns)`; a pattern that is no text raises.
abbrev pub target_matches : String → List Value → Option Bool
target_matches target [] = some false
target_matches target (text pattern ∷ vs) =
    if fnmatch target pattern then some true else target_matches target vs
target_matches target (_ ∷ vs) = none

-- `_target_allowed`
unfoldable pub target_allowed : String → List Value → Option Bool
target_allowed target [] = some true
target_allowed target (v ∷ vs) = target_matches target (v ∷ vs)

abbrev pub is_write : ActionType → Bool
is_write restart_service = true
is_write scale_workload = true
is_write rollback_deployment = true
is_write drain_node = true
is_write run_ansible_job = true
is_write run_shell = true
is_write _ = false

abbrev pub is_read_only : PolicyClass → Bool
is_read_only read_only = true
is_read_only _ = false

abbrev pub set_check : List Value → Check → Check
set_check vs k = if all is_hashable vs then k else raised

abbrev pub target_check : Option Bool → Check
target_check none = raised
target_check (some ok) =
    deny_if (not ok) "Target blocked by execution policy allowlist" "target_blocked"

-- `evidence_coverage < float(str(cov_min))`, where neither is None and the number parses.
abbrev pub is_below : Option ℕ → Option ℕ → Bool
is_below (some cov) (some least) = ltb cov least
is_below _ _ = false

module _ (env : Environ) (engine : PolicyEngine) where
  abbrev pub kill_switch : Bool
  kill_switch = env_flag env "AUTONOMY_KILL_SWITCH" "true"

  abbrev pub coverage_min : Option ℕ
  coverage_min = elim (present (get "minEvidenceCoverage" engine.approval_policy)) [
    | none ↦ none
    | some v ↦ float_of env v
  ]

  -- The denials of `evaluate`, in the order of the code.
  abbrev pub check_list : ResponsePlan → ActionRequest → Bool → Context → List Check
  check_list plan action autonomous ctx =
      let allowed = listed (get_or "allowedActions" (list Value.nil) engine.execution_policy) in
      let denied = listed (get_or "deniedActions" (list Value.nil) engine.execution_policy) in
      let patterns =
        listed (get_or "allowedTargetPatterns" (list Value.nil) engine.execution_policy) in
      let name = action_value action.action_type in
      deny_if (autonomous && kill_switch) "Autonomous mode blocked by kill switch" "kill_switch"
      ∷ deny_if (contains ActionType-discrete action.action_type plan.denied_actions)
          "Action is denied by response plan" "plan_denied_action"
      ∷ deny_if
          (not (is_empty plan.allowed_actions)
            && not (contains ActionType-discrete action.action_type plan.allowed_actions))
          "Action is outside plan allowlist" "outside_plan_allowlist"
      ∷ set_check allowed (
          deny_if (not (is_empty allowed) && not (names name allowed))
            "Action blocked by execution policy allowlist" "execution_allowlist")
      ∷ set_check denied (
          deny_if (names name denied) "Action blocked by execution policy denylist"
            "execution_denylist")
      ∷ target_check (target_allowed action.target patterns)
      ∷ deny_if (is_read_only plan.policy_class && is_write action.action_type)
          "Read-only workflow cannot invoke write actions" "read_only_write"
      ∷ deny_if (is_below ctx.evidence_coverage coverage_min)
          "Evidence coverage below policy threshold" "low_evidence_coverage"
      ∷ []

  unfoldable pub checks : ResponsePlan → ActionRequest → Bool → Context → Check
  unfolding run_checks
  checks plan action autonomous ctx = run_checks (check_list plan action autonomous ctx)

  -- `requires_approval` and `matched_rule_id` behind the loop over the rules.
  abbrev pub by_rule : Bool → Option Value → Bool × Option String
  by_rule by_class none = (by_class, none)
  by_rule by_class (some rule) = (
    truthy (get_or "requireApproval" (boolean by_class) (rule_fields rule)),
    name_or_none (str_of env (get_or "name" (text "") (rule_fields rule))),
  )

  abbrev pub matched_rule : ActionRequest → Context → Option Value
  matched_rule action ctx =
      first_rule env action ctx (listed (get_or "rules" (list Value.nil) engine.approval_policy))

  abbrev pub approval : ResponsePlan → ActionRequest → Context → Bool × Option String
  approval plan action ctx =
      by_rule (not (is_read_only plan.policy_class)) (matched_rule action ctx)

  -- The decision behind the checks. The stamp is the decision's fresh id and its time.
  abbrev pub decide :
      String × ℕ → ResponsePlan → ActionRequest → Bool → Context → Check → Option PolicyDecision
  decide stamp plan action autonomous ctx raised = none
  decide stamp plan action autonomous ctx (denies reason code) = some (record {
    decision_id = stamp.0;
    allowed = false;
    policy_class = plan.policy_class;
    reason = reason;
    requires_approval = false;
    policy_version = str_of env (get_or "policyVersion" (text "v1") engine.execution_policy);
    evaluated_at = stamp.1;
    rule_id = none;
    deny_reason_code = some code;
    requires_approval_scope = "action";
  })
  decide stamp plan action autonomous ctx passes =
      let (by_rules, rule) = approval plan action ctx in
      let requires =
        if autonomous && not (is_read_only plan.policy_class) then false else by_rules in
      some (record {
        decision_id = stamp.0;
        allowed = true;
        policy_class = plan.policy_class;
        reason = "Allowed by plan and policy class";
        requires_approval = requires;
        policy_version = str_of env (get_or "policyVersion" (text "v1") engine.execution_policy);
        evaluated_at = stamp.1;
        rule_id = rule;
        deny_reason_code = none;
        requires_approval_scope = if requires then "action" else "none";
      })

  -- `evaluate`; `none` is an uncaught TypeError.
  unfoldable pub evaluate :
      String × ℕ → ResponsePlan → ActionRequest → Bool → Context → Option PolicyDecision
  evaluate stamp plan action autonomous ctx =
      decide stamp plan action autonomous ctx (checks plan action autonomous ctx)
