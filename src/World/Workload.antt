-- ===== src/World/Workload.antt =====
-- sample-workload/checkout-service/app.py: the workload that the demo breaks and repairs. A float is
-- a count of ten-thousandths.
use ai_assisted_aws_incident.Prelude.{
  ℕ, Bool, true, false, ◌&&◌, String, Option, none, some, leb, ltb, if◌then◌else◌,
}

pub record CheckoutState : Type 0 where
  pub revision : String
  pub previous_revision : String
  pub replicas : ℕ
  pub error_rate_percent : ℕ
  pub p95_latency_ms : ℕ
  pub healthy : Bool
  pub failure_injected : Bool

-- `CheckoutState()`, and `reset`
unfoldable pub initial : CheckoutState
initial = record {
  revision = "checkout-r42";
  previous_revision = "checkout-r41";
  replicas = 3;
  error_rate_percent = 1000;
  p95_latency_ms = 1200000;
  healthy = true;
  failure_injected = false;
}

-- `reset`: the global state is a new one.
unfoldable pub reset : CheckoutState → CheckoutState
unfolding initial
reset s = initial

unfoldable pub inject_deployment_regression : CheckoutState → CheckoutState
inject_deployment_regression s = record s {
  previous_revision = "checkout-r42";
  revision = "checkout-r43";
  error_rate_percent = 87000;
  p95_latency_ms = 9500000;
  healthy = false;
  failure_injected = true;
}

unfoldable pub rollback : String → CheckoutState → CheckoutState
rollback to_revision s = record s {
  revision = to_revision;
  error_rate_percent = 1000;
  p95_latency_ms = 1250000;
  healthy = true;
  failure_injected = false;
}

-- `restart` answers and changes nothing.
unfoldable pub restart : CheckoutState → CheckoutState
restart s = s

-- `scale`: `ScalePayload` refuses a number outside 1 to 20 with status 422.
unfoldable pub scale : ℕ → CheckoutState → Option CheckoutState
scale replicas s =
    if leb 1 replicas && leb replicas 20 then some (record s { replicas = replicas }) else none

-- `CheckoutServiceClient.verify_recovery` of src/adapters/local/checkout_client.py, on the answer of
-- `/metrics/business`, which holds every field.
unfoldable pub verify_recovery : CheckoutState → Bool
verify_recovery s = s.healthy && (ltb s.error_rate_percent 10000 && ltb s.p95_latency_ms 3000000)
