-- ===== src/Samples.antt =====
-- Data for the tests: an environment without variables, the empty policies, an incident of the checkout
-- service with an approved rollback, and the worlds that hold it.
use ai_assisted_aws_incident.Prelude.{
  ◌==◌, eqb, if◌then◌else◌, ℕ, Bool, true, false, String, Option, none, some, [], ◌∷◌,
}
use ai_assisted_aws_incident.Value.{Value, pos, end, field, text}
use ai_assisted_aws_incident.Contracts.{
  ActionGraph, ActionRequest, ApprovalRecord, IncidentEnvelope, IncidentRecord, IncidentState,
  PolicyDecision, review_required, investigating, rollback_deployment, run_shell,
}
use ai_assisted_aws_incident.Plans.{checkout_plan}
use ai_assisted_aws_incident.Environ.{AgentRuntimeSettings, Environ}
use ai_assisted_aws_incident.World.{World, Result, ok, err}
use ai_assisted_aws_incident.Policy.{PolicyEngine, Context}
use ai_assisted_aws_incident.Execute.{ExecutePayload, Grant, context_of}
use ai_assisted_aws_incident.Executor.{Fate, in_time}
use ai_assisted_aws_incident.Adapters.{Ecs, answered}

abbrev pub text_of : Value → Option String
text_of (text s) = some s
text_of _ = none

abbrev pub agent_settings : Bool → Bool → AgentRuntimeSettings
agent_settings agentic fallback = record {
  agentic_enabled = agentic;
  agentic_stub_fallback = fallback;
  llm_base_url = "http://localhost:11434/v1";
  llm_model = "llama3";
  llm_api_key = "";
  llm_max_tokens = 2048;
  llm_max_calls_per_route = 32;
  llm_max_tokens_per_route = 100000;
  telemetry_adapter = "local";
  change_feed_adapter = "local";
  sandbox_enabled = false;
}

abbrev pub environ_with : AgentRuntimeSettings → Environ
environ_with settings = record {
  getenv = λ _. none;
  app = record {
    demo_mode = true;
    execution_mode = "local";
    execute_action_dry_run = true;
    auth_mode = "none";
    checkout_service_url = "http://checkout";
    aws_ecs_cluster = "";
    aws_ecs_service = "";
    aws_log_group = "";
    aws_metric_namespace = "AWS/ECS";
    aws_deployment_lookback_minutes = 60;
    aws_action_dry_run = true;
  };
  agent = settings;
  clock = λ n. n;
  uuid_hex = λ _. "0123456789abcdef0123456789abcdef";
  sha256 = λ s. s;
  render = λ _. "1";
  float_text = λ _. none;
  as_str = text_of;
  as_int = λ _. none;
  int_of = λ _. some (pos 12);
  score_of = λ _. some 8600;
  texts_of = λ _. some [];
  loads = λ s. some (text s);
  count_of = λ _. some 100;
  isoformat = λ n. if eqb n 0 then "T0" else if eqb n 1 then "T1" else "T2";
  fromisoformat = λ s. if s == "T0" then some 0 else if s == "T1" then some 1 else some 2;
  minutes_of = λ n. n;
  percent = λ _. "0%";
  workload_up = true;
  dumps_plain = λ _. "";
  dumps = λ _. "";
}

abbrev pub env : Environ
env = environ_with (agent_settings false true)

abbrev pub engine : PolicyEngine
engine = record { execution_policy = end; approval_policy = end }

abbrev pub envelope : IncidentEnvelope
envelope = record {
  version = "v1";
  source = "webhook";
  severity = "sev3";
  service = "checkout-service";
  resource = "checkout-service";
  symptom = "checkout deployment errors";
  occurred_at = 0;
  dedupe_key = "k";
  raw_payload_ref = none;
}

abbrev pub action : ActionRequest
action = record {
  action_id = "act_1";
  action_type = rollback_deployment;
  target = "checkout-service";
  parameters =
      field "deployment" (text "checkout-service") (field "to_revision" (text "checkout-r42") end);
  idempotency_key = "inc_1:rollback";
  dry_run = true;
  timeout_seconds = 120;
}

abbrev pub shell : ActionRequest
shell = record action { action_type = run_shell }

abbrev pub graph : ActionGraph
graph = record {
  objective = "restore";
  prerequisites = [];
  safety_checks = [];
  rollback_plan = [];
  blast_radius = "single service";
  success_signal = "";
  actions = action ∷ [];
  plan_steps = [];
  graph_version = "v1";
}

abbrev pub approval : ApprovalRecord
approval = record {
  approval_id = "apr_1";
  action_id = some "act_1";
  plan_step_id = none;
  approval_scope = "action";
  expected_incident_version_at_grant = some 1;
  approver = "ops";
  approved = true;
  approval_token = "token_1";
  expires_at = 900;
  reason = none;
  created_at = 0;
}

abbrev pub incident : IncidentState → IncidentRecord
incident state = record {
  incident_id = "inc_1";
  metadata = envelope;
  state = state;
  hypotheses = [];
  evidence = [];
  tools_used = [];
  blocked_actions = [];
  allowed_actions = [];
  response_plan = some checkout_plan;
  agent_path = [];
  approvals = approval ∷ [];
  executed_actions = [];
  final_diagnosis = none;
  final_resolution = none;
  lessons_learned = [];
  pending_action_graph = some graph;
  pending_approval_action_id = some "act_1";
  pending_plan_step_id = none;
  latest_router_decision = none;
  decision_records = [];
  execution_trace = record { entries = [] };
  hypothesis_links = [];
  workflow_iteration = 0;
  control_plane_version = "v1";
  decision_schema_version = "v1";
  last_planner_confidence = 0;
  evidence_coverage_score = 0;
  version = 1;
  created_at = 0;
  updated_at = 0;
}

abbrev pub empty_world : World
empty_world = record {
  incidents = [];
  audit = [];
  claims = [];
  hot = record { up = true; seconds = 0; remote = []; deadlines = []; fallback = [] };
  workload = record {
    revision = "checkout-r43";
    previous_revision = "checkout-r42";
    replicas = 3;
    error_rate_percent = 87000;
    p95_latency_ms = 9500000;
    healthy = false;
    failure_injected = true;
  };
  memory = [];
  budget = none;
  posts = 0;
  clock_reads = 0;
  uuids = 0;
}

-- The world that holds the incident in a state.
abbrev pub world : IncidentState → World
world state = record empty_world { incidents = ("inc_1", incident state) ∷ [] }

abbrev pub ecs : Ecs
ecs = record { update_service = λ _. answered end; describe_services = λ _ _. answered end }

abbrev pub on_time : ℕ → Fate
on_time _ = in_time

abbrev pub payload : ExecutePayload
payload = record {
  action = action;
  autonomous = false;
  approval_id = some "apr_1";
  approval_token = some "token_1";
  expected_incident_version = some 1;
}

-- The decision that asks for an approval of the rollback.
abbrev pub decision : String × ℕ → PolicyDecision
decision stamp =
    let (id, now) = stamp in
    record {
      decision_id = id;
      allowed = true;
      policy_class = review_required;
      reason = "Allowed by plan and policy class";
      requires_approval = true;
      policy_version = "v1";
      evaluated_at = now;
      rule_id = none;
      deny_reason_code = none;
      requires_approval_scope = "action";
    }

abbrev pub grant : Grant
grant = record {
  incident = incident investigating;
  plan = checkout_plan;
  decision = decision ("pd_0123456789", 0);
}

abbrev pub context : Context
context = context_of (incident investigating)

-- The value of a result, or one in its place.
abbrev pub value_or : {A : Type 0} → Result A → A → A
value_or (ok a) d = a
value_or (err _) d = d
