-- ===== src/Api.antt =====
-- The routes that join the others: `investigate_incident`, `readyz` and `livez` of src/apps/api/main.py, the
-- incidents of src/apps/api/routers/incident_store/app.py, the decision of
-- src/apps/api/routers/policy_engine/app.py, and that of the readiness.
use ai_assisted_aws_incident.Prelude.{
  ℕ, Bool, true, ◌&&◌, String, Option, none, some, List, ◌==◌, if◌then◌else◌,
}
use ai_assisted_aws_incident.Contracts.{ActionRequest, IncidentRecord, PolicyDecision, ResponsePlan}
use ai_assisted_aws_incident.Environ.{Environ}
use ai_assisted_aws_incident.Policy.{PolicyEngine, Context}
use ai_assisted_aws_incident.Policy
use ai_assisted_aws_incident.Store
use ai_assisted_aws_incident.Store.{list_recent, upsert}
use ai_assisted_aws_incident.Value.{Fields}
use ai_assisted_aws_incident.Readiness.{build_checkout_readiness}
use ai_assisted_aws_incident.Workflow.{Agents}
use ai_assisted_aws_incident.Workflow.Routes.{route_incident, create_plan}
use ai_assisted_aws_incident.World.{
  Action, http, type_error, or_raise, raise, pure, fresh_id, utcnow, ◌>>=◌, ◌>>◌,
}

-- `investigate_incident`
unfoldable pub investigate_incident : Environ → Agents → String → Action IncidentRecord
investigate_incident env agents incident_id = do
  routed ← route_incident env agents incident_id
  create_plan env agents incident_id
  found ← ai_assisted_aws_incident.Store.get routed.incident_id
  or_raise found (http 404 "incident not found after investigation")

-- `get_incident`
unfoldable pub get_incident : String → Action IncidentRecord
get_incident incident_id = do
  found ← ai_assisted_aws_incident.Store.get incident_id
  or_raise found (http 404 "incident not found")

-- The context of `evaluate` without its optional arguments.
abbrev pub no_context : Context
no_context = record {
  planner_confidence = none;
  blast_radius = none;
  severity = none;
  evidence_coverage = none;
}

abbrev pub plan_of : Option IncidentRecord → Option ResponsePlan
plan_of none = none
plan_of (some incident) = incident.response_plan

-- `evaluate` of the policy routes
unfoldable pub evaluate_request :
    Environ → PolicyEngine → String → ActionRequest → Bool → Action PolicyDecision
evaluate_request env engine incident_id action autonomous = do
  found ← ai_assisted_aws_incident.Store.get incident_id
  plan ← or_raise (plan_of found) (http 404 "incident or response plan not found")
  id ← fresh_id env "pd_" 10
  now ← utcnow env
  or_raise
      (ai_assisted_aws_incident.Policy.evaluate env engine (id, now) plan action autonomous
        no_context)
      type_error

-- `get_workload_readiness`
unfoldable pub get_workload_readiness : String → Action Fields
get_workload_readiness workload =
    if workload == "checkout-service"
    then (list_recent 200 >>= λ incidents. pure (build_checkout_readiness incidents))
    else raise (http 404 "readiness workspace is available for checkout-service")

-- `upsert_incident` and `list_incidents`
unfoldable pub upsert_incident : Environ → IncidentRecord → Action IncidentRecord
upsert_incident env payload = upsert env payload

unfoldable pub list_incidents : ℕ → Action (List IncidentRecord)
list_incidents limit = list_recent limit

-- The checks of the dependencies: "ok" or the text of the error, and `none` for the health of the checkout
-- service, which is a map.
pub record Dependencies : Type 0 where
  pub postgres : String
  pub redis : String
  pub checkout : Option String

-- `value == "ok" or isinstance(value, dict)`
abbrev pub is_well : Option String → Bool
is_well none = true
is_well (some value) = value == "ok"

-- `readyz`, with the status of its answer; the checks in its answer and in its error are left out.
unfoldable pub readyz : Environ → Dependencies → Action String
readyz env d =
    if is_well (some d.postgres)
      && is_well (some d.redis)
      && (if env.app.execution_mode == "local" then is_well d.checkout else true)
    then pure "ready"
    else if env.app.demo_mode
    then pure "degraded"
    else raise (http 503 "")
