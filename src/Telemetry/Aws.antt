-- ===== src/Telemetry/Aws.antt =====
-- The collectors of src/adapters/aws/telemetry.py and the change feed of src/adapters/aws/change_feed.py.
-- boto3's clients are a parameter; a datetime among their arguments is its number.
use Prim.Native.String.{slice}
use ai_assisted_aws_incident.Prelude.{
  ℕ, zero, suc, ◌-◌, ◌*◌, ◌/◌, true, String, none, List, [], ◌∷◌, ◌||◌, is_blank, or_text,
  if◌then◌else◌,
}
use ai_assisted_aws_incident.Value.{
  Value, Items, Fields, end, field, text, int, pos, boolean, list, dict, null, nil, cons, get_or,
  items, text_items,
}
use ai_assisted_aws_incident.Environ.{Environ}
use ai_assisted_aws_incident.Adapters.{AwsError, Answer, answered, failed, classify_aws_error}
use ai_assisted_aws_incident.World.{Action, utcnow, pure, ◌>>=◌}
use ai_assisted_aws_incident.Telemetry.{Collectors, ChangeFeed, of_service}

-- `client("cloudwatch")`, `client("logs")`, `client("ecs")`, and `str(exc)`.
pub record AwsClients : Type 0 where
  pub get_metric_data : Fields → Answer
  pub filter_log_events : Fields → Answer
  pub describe_services : String → String → Answer
  pub show_error : AwsError → String

-- What the body of a `try` gives, or the exception that leaves it.
pub data Outcome (A : Type 0) : Type 0 where
  got : A → Outcome A
  lost : AwsError → Outcome A

abbrev raised : {A : Type 0} → String → Outcome A
raised name = lost (record { class_name = name; response = none })

abbrev ◌>=>◌ : {A B : Type 0} → Outcome A → (A → Outcome B) → Outcome B
got a >=> f = f a
lost e >=> f = lost e

infixl 5 ◌>=>◌
abbrev called : Answer → Outcome Fields
called (answered fields) = got fields
called (failed e) = lost e

-- `for item in v`; of a map and of a text the items are texts, which have no `get`
abbrev each : Value → Outcome (List Value)
each (list vs) = got (items vs)
each (dict end) = got []
each (dict (field key _ _)) = got (text key ∷ [])
each (text s) = got (if is_blank s then [] else text s ∷ [])
each _ = raised "TypeError"

abbrev as_map : Value → Outcome Fields
as_map (dict fields) = got fields
as_map _ = raised "AttributeError"

abbrev take_items : ℕ → Items → Items
take_items zero vs = nil
take_items (suc n) nil = nil
take_items (suc n) (cons v vs) = cons v (take_items n vs)

-- `message[:500]`
abbrev shortened : Value → Outcome Value
shortened (text s) = got (text (slice s 0 500))
shortened (list vs) = got (list (take_items 500 vs))
shortened _ = raised "TypeError"

-- A list comprehension.
abbrev collect_items : (Fields → Outcome Value) → List Value → Outcome Items
collect_items f [] = got nil
collect_items f (v ∷ vs) =
    let rest = collect_items f vs in
    as_map v >=> λ fields. f fields >=> λ made. rest >=> λ more. got (cons made more)

abbrev log_event : Fields → Outcome Value
log_event item = shortened (get_or "message" (text "") item) >=> λ message. got (
    dict (
      field "timestamp" (get_or "timestamp" null item)
        (field "message" message (field "log_stream_name" (get_or "logStreamName" null item) end))))

abbrev deployment : Fields → Outcome Value
deployment item = got (
    dict (
      field "id" (get_or "id" null item) (
        field "status" (get_or "status" null item) (
          field "task_definition" (get_or "taskDefinition" null item) (
            field "rollout_state" (get_or "rolloutState" null item) (
              field "created_at" (get_or "createdAt" null item) (
                field "updated_at" (get_or "updatedAt" null item) (
                  field "desired_count" (get_or "desiredCount" null item)
                    (field "running_count" (get_or "runningCount" null item) end)))))))))

-- `v[0]`
abbrev first_of : Value → Outcome Value
first_of (list nil) = raised "IndexError"
first_of (list (cons v _)) = got v
first_of (text s) = if is_blank s then raised "IndexError" else got (text s)
first_of (dict _) = raised "KeyError"
first_of _ = raised "TypeError"

module _ (env : Environ) (clients : AwsClients) where
  -- The payload of the `except` clause, behind its first fields.
  abbrev error_fields : AwsError → Fields
  error_fields e = field "error" (text (clients.show_error e)) (
      field "retryable" (boolean (classify_aws_error e).retryable)
        (field "classification" (text (classify_aws_error e).reason) end))

  abbrev dump_outcome : (Fields → Fields) → Outcome Fields → String
  dump_outcome head (got rest) = env.dumps (head rest)
  dump_outcome head (lost e) = env.dumps (head (error_fields e))

  abbrev dimension : String → String → Value
  dimension name value = dict (field "Name" (text name) (field "Value" (text value) end))

  abbrev metric_query : String → String → Fields
  metric_query service resource = field "Id" (text "checkout_error_rate") (
      field "MetricStat"
        (dict (
          field "Metric"
            (dict (
              field "Namespace" (text env.app.aws_metric_namespace) (
                field "MetricName" (text "HTTPCode_Target_5XX_Count") (
                  field "Dimensions"
                    (list (
                      cons (dimension "ServiceName" (or_text env.app.aws_ecs_service service)) (
                        cons (dimension "ClusterName" (or_text env.app.aws_ecs_cluster resource))
                          nil)))
                    end))))
            (field "Period" (int (pos 60)) (field "Stat" (text "Sum") end))))
        (field "ReturnData" (boolean true) end))

  -- `AwsCloudWatchTelemetryCollectors.query_metrics`
  unfoldable pub aws_query_metrics : String → String → Action String
  aws_query_metrics service resource = do
    now ← utcnow env
    let window = env.app.aws_deployment_lookback_minutes
    let start = now - window * 60000000
    pure (
        dump_outcome
          (λ rest. field "provider" (text "aws-cloudwatch") (of_service service resource rest))
          (called (
              clients.get_metric_data (
                field "MetricDataQueries" (list (cons (dict (metric_query service resource)) nil))
                  (field "StartTime" (int (pos start)) (field "EndTime" (int (pos now)) end))))
            >=> λ response. got (
                field "metric_namespace" (text env.app.aws_metric_namespace) (
                  field "window_minutes" (int (pos window))
                    (field "result" (get_or "MetricDataResults" (list nil) response) end)))))

  abbrev log_head : String → String → Fields → Fields
  log_head service resource rest =
      field "provider" (text "aws-cloudwatch-logs") (of_service service resource rest)

  -- `query_logs`
  unfoldable pub aws_query_logs : String → String → Action String
  aws_query_logs service resource = do
    now ← utcnow env
    let end_ms = now / 1000
    let start_ms = end_ms - env.app.aws_deployment_lookback_minutes * 60 * 1000
    pure (
        if is_blank env.app.aws_log_group
        then env.dumps (
            log_head service resource
              (field "status" (text "not_configured") (field "missing" (text "AWS_LOG_GROUP") end)))
        else dump_outcome (log_head service resource) (
            called (
              clients.filter_log_events (
                field "logGroupName" (text env.app.aws_log_group) (
                  field "startTime" (int (pos start_ms)) (
                    field "endTime" (int (pos end_ms)) (
                      field "filterPattern" (text "\"ERROR\" \"timeout\" \"checkout\"")
                        (field "limit" (int (pos 25)) end))))))
            >=> λ response.
                each (get_or "events" (list nil) response) >=> collect_items log_event >=> λ events.
                got (
                  field "log_group" (text env.app.aws_log_group)
                    (field "events" (list events) end))))

  -- `query_topology`
  unfoldable pub aws_query_topology : String → String → Action String
  aws_query_topology service resource = pure (
      env.dumps (
        field "provider" (text "aws-ecs") (
          field "service" (text (or_text env.app.aws_ecs_service service)) (
            field "cluster" (text (or_text env.app.aws_ecs_cluster resource)) (
              field "dependencies"
                (list (text_items ("load-balancer" ∷ "payments-api" ∷ "orders-db" ∷ []))) end)))))

  abbrev pub aws_collectors : Collectors
  aws_collectors = record {
    query_metrics = aws_query_metrics;
    query_logs = aws_query_logs;
    query_topology = aws_query_topology;
  }

  -- `AwsEcsChangeFeedClient.get_recent_deployments`
  unfoldable pub aws_recent_deployments : String → Action String
  aws_recent_deployments service =
      let cluster = env.app.aws_ecs_cluster in
      let ecs_service = or_text env.app.aws_ecs_service service in
      pure (
        if is_blank cluster || is_blank ecs_service
        then env.dumps (
            field "provider" (text "aws-ecs") (
              field "service" (text service) (
                field "status" (text "not_configured") (
                  field "missing" (list (text_items ("AWS_ECS_CLUSTER" ∷ "AWS_ECS_SERVICE" ∷ [])))
                    end))))
        else dump_outcome
            (λ rest.
              field "provider" (text "aws-ecs")
                (field "cluster" (text cluster) (field "service" (text ecs_service) rest)))
            (called (clients.describe_services cluster ecs_service) >=> λ response.
              first_of (get_or "services" (list (cons (dict end) nil)) response)
              >=> as_map
              >=> λ found.
                  each (get_or "deployments" (list nil) found)
                  >=> collect_items deployment
                  >=> λ made. got (field "deployments" (list made) end)))

  abbrev pub aws_change_feed : ChangeFeed
  aws_change_feed = record { get_recent_deployments = aws_recent_deployments }
