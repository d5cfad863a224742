-- ===== src/Adapters.antt =====
-- The action adapters: `SecurityContext` of src/security/context.py, `TypedActionAdapterRegistry` of
-- src/adapters/actions/typed_adapters.py. An `AdapterResult` is kept without its `details`, which
-- its only caller does not read.
mod Aws
pub mod Laws
pub mod Tests
unfoldable pub use Aws.*
use ai_assisted_aws_incident.Prelude.{
  ℕ, Bool, true, false, not, ◌&&◌, ◌||◌, String, Option, none, some, List, [], ◌∷◌, any, leb, map,
  contains, is_blank, ◌==◌, if◌then◌else◌, concat,
}
use ai_assisted_aws_incident.Report.Order.{sorted}
use ai_assisted_aws_incident.Value.{
  field, end, boolean, list, text_items, Value, Fields, ℤ, pos, negsuc, int, text, get, get_or,
}
use ai_assisted_aws_incident.Contracts.{
  ActionRequest, ActionType, ActionType-discrete, action_value, query_metrics, query_logs,
  get_recent_deployments, get_topology, restart_service, scale_workload, rollback_deployment,
  drain_node, open_ticket, page_human, run_ansible_job,
}
use ai_assisted_aws_incident.Environ.{Environ, str_of}
use ai_assisted_aws_incident.Glob.{fnmatch}
use ai_assisted_aws_incident.World.{
  World, Action, Result, Failure, ok, err, http_error, value_error, pure, raise, ◌>>=◌, ◌>>◌,
}
use ai_assisted_aws_incident.World.Workload.{CheckoutState, rollback, restart, scale}

-- `can_access_target`
unfoldable pub can_access_target : List String → String → Bool
can_access_target allowed_targets target =
    any (λ t. t == target) allowed_targets
    || any (λ pattern. fnmatch target pattern) allowed_targets

-- `sorted(action.value for action in actions)`
abbrev sorted_names : List ActionType → List String
sorted_names actions = sorted (λ name. name) (map action_value actions)

abbrev pub supported_actions : List ActionType
supported_actions =
    query_metrics ∷ query_logs ∷ get_recent_deployments ∷ get_topology ∷ restart_service
    ∷ scale_workload ∷ rollback_deployment ∷ drain_node ∷ open_ticket ∷ page_human ∷ run_ansible_job
    ∷ []

-- `capabilities`, whose sets are sorted
unfoldable pub capabilities : Environ → Fields
capabilities env =
    let mode = env.app.execution_mode in
    let executable =
      if mode == "local" || mode == "aws"
      then restart_service ∷ scale_workload ∷ rollback_deployment ∷ []
      else [] in
    field "mode" (text mode) (
      field "dry_run_default" (boolean env.app.execute_action_dry_run) (
        field "supported_actions" (list (text_items (sorted_names supported_actions)))
          (field "executable_actions" (list (text_items (sorted_names executable))) end)))

-- The three adapters that change something.
abbrev pub is_executable : ActionType → Bool
is_executable restart_service = true
is_executable scale_workload = true
is_executable rollback_deployment = true
is_executable _ = false

-- A required `str` field with `min_length=1`.
abbrev pub text_field : Environ → Option Value → Bool
text_field env none = false
text_field env (some v) = elim (env.as_str v) [ none ↦ false | some s ↦ not (is_blank s) ]

abbrev pub in_range : ℤ → Bool
in_range (pos n) = leb 1 n && leb n 20
in_range (negsuc _) = false

-- A required `int` field with `ge=1` and `le=20`.
abbrev pub replicas_field : Environ → Option Value → Bool
replicas_field env none = false
replicas_field env (some v) = elim (env.as_int v) [ none ↦ false | some n ↦ in_range n ]

-- `_validate_parameters` does not raise.
unfoldable pub are_valid_parameters : Environ → ActionType → Fields → Bool
are_valid_parameters env restart_service ps = text_field env (get "service" ps)
are_valid_parameters env scale_workload ps =
    text_field env (get "service" ps) && replicas_field env (get "maxReplicas" ps)
are_valid_parameters env rollback_deployment ps =
    text_field env (get "deployment" ps) && text_field env (get "to_revision" ps)
are_valid_parameters env _ ps = true

-- A call of the checkout service.
abbrev pub call_workload :
    Environ → (CheckoutState → Option CheckoutState) → String → Action AdapterResult
call_workload env f message w =
    if env.workload_up
    then elim (f w.workload) [
      | none ↦ (err http_error, w)
      | some s ↦ (ok (record { success = true; message = message }), record w { workload = s })
    ]
    else (err http_error, w)

abbrev pub scale_by : Option ℤ → CheckoutState → Option CheckoutState
scale_by (some (pos n)) s = scale n s
scale_by _ s = none

-- The part of `run` behind the checks in mode `local`, by the type of the action.
unfoldable pub run_local : Environ → ActionRequest → ActionType → Action AdapterResult
run_local env action rollback_deployment =
    call_workload env
      (λ s.
        some
          (rollback (str_of env (get_or "to_revision" (text "checkout-r42") action.parameters)) s))
      "Rolled back checkout deployment"
run_local env action restart_service =
    call_workload env (λ s. some (restart s)) "Restarted checkout service"
run_local env action scale_workload =
    elim (env.int_of (
      get_or "maxReplicas" (get_or "replicas" (int (pos 3)) action.parameters) action.parameters)) [
        | none ↦ raise value_error
        | some n ↦ call_workload env (scale_by (some n)) "Scaled checkout service"
      ]
run_local env action other = pure (record {
  success = false;
  message =
      concat ("Action " ∷ action_value other ∷ " is read-only or unsupported for execution" ∷ []);
})

abbrev pub refuse : List String → Action AdapterResult
refuse words = pure (record { success = false; message = concat words })

-- `run`
unfoldable pub run : Environ → Ecs → ActionRequest → List String → Action AdapterResult
run env ecs action allowed_targets =
    if not (contains ActionType-discrete action.action_type supported_actions)
    then refuse ("Unsupported action type " ∷ action_value action.action_type ∷ [])
    else if not (can_access_target allowed_targets action.target)
    then refuse ("Target " ∷ action.target ∷ " is not allowlisted" ∷ [])
    else if not (are_valid_parameters env action.action_type action.parameters)
    then refuse ("Action parameters failed validation" ∷ [])
    else if env.app.execution_mode == "aws" && is_executable action.action_type
    then aws_run env ecs action
    else if action.dry_run
    then pure (record {
      success = true;
      message = concat ("Dry-run completed for " ∷ action_value action.action_type ∷ []);
    })
    else if not (env.app.execution_mode == "local")
    then refuse ("No executable adapter configured for mode " ∷ env.app.execution_mode ∷ [])
    else run_local env action action.action_type
