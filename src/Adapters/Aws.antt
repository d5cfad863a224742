-- ===== src/Adapters/Aws.antt =====
-- src/adapters/aws/clients.py (`classify_aws_error`) and `AwsEcsActionAdapter` of
-- src/adapters/aws/actions.py. boto3's ECS client is a parameter.
use ai_assisted_aws_incident.Prelude.{
  Bool, true, false, ◌&&◌, ◌||◌, String, Option, none, some, List, [], ◌∷◌, any, leb, eqb, is_blank,
  or_text, ◌==◌, if◌then◌else◌, concat,
}
use ai_assisted_aws_incident.Value.{
  Value, Fields, ℤ, pos, negsuc, end, field, int, text, list, dict, boolean, nil, get, get_or,
  as_list,
}
use ai_assisted_aws_incident.Contracts.{
  ActionRequest, ActionType, action_value, restart_service, scale_workload, rollback_deployment,
}
use ai_assisted_aws_incident.Dict.{Dict, lookup, insert}
use ai_assisted_aws_incident.Environ.{Environ, str_of}
use ai_assisted_aws_incident.World.{Action, pure, raise, value_error}

pub record AdapterResult : Type 0 where
  pub success : Bool
  pub message : String

-- An exception of the client: its class, and its `response` attribute if it has one.
pub record AwsError : Type 0 where
  pub class_name : String
  pub response : Option Value

pub data Answer : Type 0 where
  answered : Fields → Answer
  failed : AwsError → Answer

-- `client("ecs")`: `update_service(**kwargs)` and `describe_services(cluster, [service])`.
pub record Ecs : Type 0 where
  pub update_service : Fields → Answer
  pub describe_services : String → String → Answer

-- `AwsClientFactory.client`: the session of boto3 makes a client for a service, and the dictionary keeps it.
unfoldable pub client : {C : Type 0} → (String → C) → String → Dict C → C × Dict C
client make service_name clients = elim (lookup service_name clients) [
  | some c ↦ (c, clients)
  | none ↦ (make service_name, insert service_name (make service_name) clients)
]

pub record AwsRetryClassification : Type 0 where
  pub retryable : Bool
  pub reason : String

abbrev pub retryable_codes : List String
retryable_codes =
    "ThrottlingException" ∷ "Throttling" ∷ "TooManyRequestsException" ∷ "RequestTimeout"
    ∷ "RequestTimeoutException" ∷ "ServiceUnavailableException" ∷ "InternalException"
    ∷ "InternalServerError" ∷ []

abbrev pub code_in : Option Value → Option String
code_in (some (text code)) = some code
code_in _ = none

abbrev pub error_in : Option Value → Option String
error_in (some (dict error)) = code_in (get "Code" error)
error_in _ = none

-- `response["Error"]["Code"]`, where both are of their types.
abbrev pub raw_code : Option Value → Option String
raw_code (some (dict response)) = error_in (get "Error" response)
raw_code _ = none

abbrev pub error_code : AwsError → String
error_code e = elim (raw_code e.response) [ none ↦ e.class_name | some code ↦ code ]

-- `classify_aws_error`; a terminal code and an unknown one are classified alike.
unfoldable pub classify_aws_error : AwsError → AwsRetryClassification
classify_aws_error e = record {
  retryable = any (λ c. c == error_code e) retryable_codes;
  reason = error_code e;
}

-- The keyword arguments of `update_service` in `_execute`; `none` is its ValueError. The inner
-- `none` is the one of `int`.
abbrev pub update_arguments : Environ → ActionRequest → ActionType → String → String → Option Fields
update_arguments env action restart_service cluster service = some (
    field "cluster" (text cluster)
      (field "service" (text service) (field "forceNewDeployment" (boolean true) end)))
update_arguments env action rollback_deployment cluster service = some (
    field "cluster" (text cluster) (
      field "service" (text service) (
        field "taskDefinition"
          (text (
            str_of env (
              get_or "to_revision" (get_or "taskDefinition" (text "") action.parameters)
                action.parameters)))
          end)))
update_arguments env action scale_workload cluster service =
    elim (env.int_of (
      get_or "maxReplicas" (get_or "replicas" (int (pos 1)) action.parameters) action.parameters)) [
        | none ↦ none
        | some n ↦ some (
            field "cluster" (text cluster)
              (field "service" (text service) (field "desiredCount" (int n) end)))
      ]
update_arguments env action _ cluster service = none

abbrev pub first_dict : Option (List Value) → Fields
first_dict (some (dict fs ∷ _)) = fs
first_dict _ = end

abbrev pub list_in : String → Fields → Option (List Value)
list_in key fs = as_list (get_or key (list nil) fs)

abbrev pub same_int : Option ℤ → Option ℤ → Bool
same_int (some (pos a)) (some (pos b)) = eqb a b
same_int (some (negsuc a)) (some (negsuc b)) = eqb a b
same_int _ _ = false

abbrev pub at_least_one : Option ℤ → Bool
at_least_one (some (pos n)) = leb 1 n
at_least_one _ = false

-- `verify` on the answer of `describe_services`.
unfoldable pub verify_services : Environ → ActionRequest → ActionType → Fields → Bool
verify_services env action scale_workload response =
    let service = first_dict (list_in "services" response) in
    let desired = get_or "desiredCount" (int (pos 0)) service in
    same_int (env.int_of desired) (
      env.int_of
        (get_or "maxReplicas" (get_or "replicas" desired action.parameters) action.parameters))
verify_services env action _ response =
    let service = first_dict (list_in "services" response) in
    let deployment = first_dict (list_in "deployments" service) in
    let rollout_state = str_of env (get_or "rolloutState" (text "") deployment) in
    at_least_one (env.int_of (get_or "runningCount" (int (pos 0)) service))
    && (rollout_state == "COMPLETED" || rollout_state == "")

abbrev pub aws_failed : AwsError → AdapterResult
aws_failed e = record {
  success = false;
  message = concat ("AWS ECS action failed: " ∷ (classify_aws_error e).reason ∷ []);
}

abbrev pub aws_verified : String → Bool → AdapterResult
aws_verified name ok = record {
  success = ok;
  message =
      concat
        ("AWS ECS " ∷ name ∷ " " ∷ (if ok then "verified" else "completed but not verified") ∷ []);
}

-- `verify` without the settings it needs is `False`.
unfoldable pub aws_verify : Environ → Ecs → ActionRequest → AdapterResult
unfolding verify_services
aws_verify env ecs action =
    if is_blank env.app.aws_ecs_cluster || is_blank env.app.aws_ecs_service
    then aws_verified (action_value action.action_type) false
    else elim (ecs.describe_services env.app.aws_ecs_cluster env.app.aws_ecs_service) [
      | failed e ↦ aws_failed e
      | answered response ↦
          aws_verified (action_value action.action_type)
            (verify_services env action action.action_type response)
    ]

-- `run`. The operation is planned before the dry-run test, so an unreadable replica count raises.
unfoldable pub aws_run : Environ → Ecs → ActionRequest → Action AdapterResult
unfolding aws_verify
aws_run env ecs action =
    let cluster = env.app.aws_ecs_cluster in
    let service = or_text env.app.aws_ecs_service action.target in
    if is_blank cluster || is_blank service
    then pure (record { success = false; message = "AWS ECS adapter is not configured" })
    else elim (update_arguments env action action.action_type cluster service) [
      | none ↦ raise value_error
      | some arguments ↦
          if action.dry_run || env.app.aws_action_dry_run
          then pure (record {
            success = true;
            message = concat ("AWS dry-run planned for " ∷ action_value action.action_type ∷ []);
          })
          else elim (ecs.update_service arguments) [
            | failed e ↦ pure (aws_failed e)
            | answered _ ↦ pure (aws_verify env ecs action)
          ]
    ]
