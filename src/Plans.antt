-- ===== src/Plans.antt =====
-- src/workflows/response_plans.py: the response plan for a severity and a symptom.
use ai_assisted_aws_incident.Prelude.{
  Bool, ◌&&◌, ◌||◌, String, [], ◌∷◌, ◌==◌, if◌then◌else◌, lower, has_part,
}
use ai_assisted_aws_incident.Contracts.{
  ResponsePlan, read_only, review_required, query_metrics, query_logs, get_recent_deployments,
  get_topology, restart_service, scale_workload, rollback_deployment, drain_node, open_ticket,
  page_human, run_shell,
}

abbrev pub checkout_plan : ResponsePlan
checkout_plan = record {
  plan_id = "checkout-deployment-regression-v1";
  workflow_family = "checkout-resilience";
  policy_class = review_required;
  allowed_actions =
      query_metrics ∷ query_logs ∷ get_recent_deployments ∷ get_topology ∷ rollback_deployment ∷ [];
  denied_actions = run_shell ∷ drain_node ∷ [];
  max_retries = 1;
}

abbrev pub compute_plan : ResponsePlan
compute_plan = record {
  plan_id = "compute-performance-v1";
  workflow_family = "compute-performance";
  policy_class = review_required;
  allowed_actions =
      query_metrics ∷ query_logs ∷ get_recent_deployments ∷ restart_service ∷ scale_workload
      ∷ rollback_deployment ∷ [];
  denied_actions = run_shell ∷ [];
  max_retries = 2;
}

abbrev pub generic_plan : ResponsePlan
generic_plan = record {
  plan_id = "generic-observability-v1";
  workflow_family = "generic-observability";
  policy_class = read_only;
  allowed_actions =
      query_metrics ∷ query_logs ∷ get_recent_deployments ∷ open_ticket ∷ page_human ∷ [];
  denied_actions = run_shell ∷ rollback_deployment ∷ [];
  max_retries = 1;
}

-- `severity in {"sev1", "sev2"}`
abbrev pub is_severe : String → Bool
is_severe severity = severity == "sev1" || severity == "sev2"

unfoldable pub match_response_plan : String → String → ResponsePlan
match_response_plan severity symptom =
    let symptom_lower = lower symptom in
    if has_part "checkout" symptom_lower
      && (has_part "deployment" symptom_lower || has_part "error" symptom_lower)
    then checkout_plan
    else if is_severe severity && (has_part "cpu" symptom_lower || has_part "error" symptom_lower)
    then compute_plan
    else generic_plan
