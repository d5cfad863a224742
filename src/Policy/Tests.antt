-- ===== src/Policy/Tests.antt =====
-- The policy at concrete plans and actions.
use ai_assisted_aws_incident.Prelude.{lower_char, lower, ◌≡◌, refl, false, Option, some, String}
use ai_assisted_aws_incident.Value.{Value, list, nil, get_or}
use ai_assisted_aws_incident.Contracts.{PolicyDecision, ActionType-discrete}
use ai_assisted_aws_incident.Plans.{checkout_plan, match_response_plan}
use ai_assisted_aws_incident.Policy.{ℕ, evaluate, checks, target_allowed, rule_matches, listed}
use ai_assisted_aws_incident.Policy.Laws.{Permitted, evaluate-Permitted}
use ai_assisted_aws_incident.Policy.Approval.{Decides, needs_approval, evaluate-Decides}
use ai_assisted_aws_incident.Samples.{env, engine, action, shell, context, decision}

abbrev stamp : String × ℕ
stamp = ("pd_1", 0)

evaluated : evaluate env engine stamp checkout_plan action false context ≡ some (decision stamp)
unfolding evaluate checks target_allowed ActionType-discrete
evaluated = refl

abbrev denied : PolicyDecision
denied = record (decision stamp) {
  allowed = false;
  reason = "Action is denied by response plan";
  requires_approval = false;
  deny_reason_code = some "plan_denied_action";
}

evaluated_shell : evaluate env engine stamp checkout_plan shell false context ≡ some denied
unfolding evaluate checks target_allowed ActionType-discrete
evaluated_shell = refl

evaluate-Permitted_example : Permitted env engine checkout_plan action false context
evaluate-Permitted_example =
    evaluate-Permitted env engine stamp action false context checkout_plan (decision stamp)
      evaluated refl

evaluate-Decides_example :
    (rule : Option Value) × Decides
      (rule_matches env action context)
      (listed (get_or "rules" (list nil) engine.approval_policy))
      rule
    × ((decision stamp).requires_approval ≡ needs_approval checkout_plan rule)
evaluate-Decides_example =
    evaluate-Decides env engine stamp checkout_plan action context (decision stamp) evaluated refl

evaluated_matched :
    evaluate env engine stamp
      (match_response_plan "sev3" "checkout deployment errors")
      shell
      false
      context
    ≡ some denied
unfolding evaluate checks target_allowed ActionType-discrete match_response_plan lower lower_char
evaluated_matched = refl
