-- ===== src/Telemetry.antt =====
-- What the evidence is collected from: the collectors of src/adapters/telemetry (stub, factory) and of
-- src/adapters/local/telemetry.py, and the change feed of src/adapters/actions/change_feed.py. `Aws` has
-- the collectors of AWS.
pub mod Aws
use ai_assisted_aws_incident.Prelude.{
  ℕ, true, not, String, [], ◌∷◌, ◌==◌, if◌then◌else◌, concat, ltb,
}
use ai_assisted_aws_incident.Value.{Fields, end, field, text, int, pos, boolean, list, text_items}
use ai_assisted_aws_incident.Environ.{Environ}
use ai_assisted_aws_incident.World.{World, Action, http_error, ok, err, pure}
use ai_assisted_aws_incident.Execute.{metrics_fields}

-- `TelemetryCollectorsProtocol`
pub record Collectors : Type 0 where
  pub query_metrics : String → String → Action String
  pub query_logs : String → String → Action String
  pub query_topology : String → String → Action String

-- `ChangeFeedProtocol`
pub record ChangeFeed : Type 0 where
  pub get_recent_deployments : String → Action String

abbrev pub of_service : String → String → Fields → Fields
of_service service resource rest =
    field "service" (text service) (field "resource" (text resource) rest)

module _ (env : Environ) where
  -- `StubTelemetryCollectors`
  abbrev pub stub_collectors : Collectors
  stub_collectors = record {
    query_metrics = λ service resource. pure (
        env.dumps (
          of_service service resource (
            field "cpu_percent" (int (pos 92)) (
              field "error_rate_percent" (int (pos 8))
                (field "window_minutes" (int (pos 5)) end)))));
    query_logs = λ service resource. pure (
        env.dumps (
          of_service service resource (
            field "log_pattern" (text "error_spike")
              (field "count" (int (pos 124)) (field "window_minutes" (int (pos 5)) end)))));
    query_topology = λ service resource. pure (
        env.dumps (
          of_service service resource
            (field "edges" (int (pos 3)) (field "stub" (boolean true) end))));
  }

  -- `CheckoutServiceClient().metrics()`, and a text made of it
  unfoldable pub from_metrics : (World → String) → Action String
  from_metrics f w = (if env.workload_up then ok (f w) else err http_error, w)

  abbrev pub log_pattern : ℕ → String
  log_pattern error_rate =
      if ltb 10000 error_rate then "payment_timeout_spike" else "normal_checkout"

  -- `LocalCheckoutTelemetryCollectors`
  abbrev pub local_collectors : Collectors
  local_collectors = record {
    query_metrics = λ service resource.
        if not (service == "checkout-service")
        then pure (
            env.dumps_plain
              (of_service service resource (field "status" (text "no-local-workload") end)))
        else from_metrics (λ w. env.dumps (metrics_fields w.workload));
    query_logs = λ service resource.
        if not (service == "checkout-service")
        then pure
            (env.dumps_plain (of_service service resource (field "log_pattern" (text "none") end)))
        else from_metrics (λ w. env.dumps (
            of_service service resource (
              field "log_pattern" (text (log_pattern w.workload.error_rate_percent)) (
                field "revision" (text w.workload.revision)
                  (field "window_minutes" (int (pos 5)) end)))));
    query_topology = λ service resource. pure (
        env.dumps (
          of_service service resource (
            field "dependencies"
              (list (text_items ("payments-api" ∷ "inventory-api" ∷ "orders-db" ∷ []))) end)));
  }

  -- `get_telemetry_collectors`
  unfoldable pub telemetry_collectors : Collectors → Collectors
  telemetry_collectors aws =
      if env.agent.telemetry_adapter == "aws"
      then aws
      else if env.agent.telemetry_adapter == "local"
      then local_collectors
      else stub_collectors

  -- `StubChangeFeedClient`
  abbrev pub stub_change_feed : ChangeFeed
  stub_change_feed = record {
    get_recent_deployments = λ service.
        if service == "checkout-service"
        then pure (
            concat (
              "Deployment checkout-r43 applied to checkout-service 12 minutes before alert; "
              ∷ "previous stable revision checkout-r42" ∷ []))
        else pure (
            concat
              ("Deployment v2026.03.19 applied to " ∷ service ∷ " 12 minutes before alert" ∷ []));
  }

  -- `get_change_feed_client`
  unfoldable pub change_feed_client : ChangeFeed → ChangeFeed
  change_feed_client aws = if env.agent.change_feed_adapter == "aws" then aws else stub_change_feed
