-- ===== src/Lib.antt =====
-- A verification library of the incident management platform.
--
-- The platform takes alerts in, investigates the incident behind them, makes a plan of remediation,
-- waits for an approval where its policies ask for one, and executes the plan's actions through
-- adapters. The files of this library follow its parts; paths are from the root of the repository.
--
-- - Contracts (Kinds, Plan, Incident): src/domain/contracts/models.py, its enumerations as data types
--   and its pydantic models as records.
-- - Value, Environ, Dict, Glob: the dynamic values of YAML and JSON, what the process reads from outside
--   (variables, settings, clock, uuid4), dictionaries, and fnmatch.
-- - World: the state that the handlers share (the table of incidents, the audit events, the claimed
--   keys, Redis, the checkout service, the budget of a route) and a handler as a function from a world
--   to a result and a world; what was written before a raise stays written. World/Workload is
--   sample-workload/checkout-service/app.py.
-- - HotState (Table, Exclusion): the locks of src/persistence/memory/providers.py with their deadlines, and
--   the tables of their holders; time passes for Redis, and Redis is lost and comes back, between the
--   calls of a run, while the other files take a handler to be done before a key of Redis is due and
--   Redis to be reached throughout it or not at all. Store: the repository of apps/api/routers/incident_store/repository.py over a table;
--   Store/Fallback its in-memory mode with shared objects as a heap. Connection: how that repository
--   and the audit store choose between the database and memory. Idempotency: the store of
--   src/persistence/idempotency.py with its table and its stand-in in memory.
-- - Plans and Policy (Rules, Approval, Autonomy): src/workflows/response_plans.py and
--   src/domain/policies/engine.py; Policy/Autonomy is apps/api/routers/policy_engine/autonomy.py and
--   src/agent_runtime/sandbox.py.
-- - Ingress: apps/api/routers/ingress. Approve: apps/api/routers/approval_api/app.py and the handlers of
--   apps/api/main.py that fill in a request; Approve/Planned and Proposed are about the plan in front of
--   an approval, Approve/Recovery and Calls about the execution behind it, Approve/Remediation about both.
-- - Planner and Router: src/agents/planner/agent.py and apps/api/routers/router/hybrid_router.py.
-- - Workflow (Loop, Routes): src/workflows/incident_workflow.py, and route_incident and create_plan of
--   apps/api/routers/router/app.py.
-- - Worker: apps/worker/main.py and the route of apps/api/main.py that fills its queue.
-- - Llm and Budget: the client of src/agent_runtime/llm.py, and the budget of
--   src/agent_runtime/budgets.py that it is charged to.
-- - Agent (Evidence, Prompts, Program) and Telemetry (Aws): the agents of src/agents other than the
--   planner, the prompts of all, the collectors of src/adapters that they read, and the agents as
--   apps/api hands them to a route. Memory: the search of src/persistence/memory that the planner's
--   prompt reads.
-- - Scenario: the demo of apps/api/main.py. Audit: the listings of apps/api/routers/audit/store.py.
--   Report (Timeline, Texts): src/reporting/incident_reports.py. Scoring (Keys, Replay, Rounds):
--   eval/scoring/scorecard.py, the route of the score and eval/replay/replay_runner.py. Api: the routes
--   of apps/api that join the others. Readiness: src/readiness/workspace.py. Cors: the headers of the
--   routes that the console reads.
-- - Adapters, Executor, Execute (Gates): src/adapters, src/persistence/idempotency.py,
--   src/agents/executor/agent.py, and execute_action of apps/api/routers/router/app.py.
--   Execute/Passed, Authorised and Admitted are about its gates, Execute/Rollback, Repair and Recovery about a
--   rollback behind them.
-- - Prelude and Samples: shared helpers, and the data of the tests.
--
-- A handler is modelled from its guards to its last write; HTTP routing, logging and tracing are not.
-- An object that a handler changes is a record that it hands on. Loops are recursions: the retry loop
-- over the attempts that are left, the decision loop over the rounds that are left, which is the bound of
-- the source's own for, so that no fuel is involved. Numbers are natural, a float is a count of
-- ten-thousandths, a time a count of microseconds.
--
-- Parameters stand for what is outside: the answers of the endpoint of the language models and
-- pydantic's validation of them, boto3's clients, and whether an attempt ends before its timeout. How
-- the database fares at a call is an argument in Connection and Idempotency; the other files have it
-- at hand. Not modelled, being I/O or glue: observability, migrations, scripts and the console.
pub mod Prelude
pub mod Value
pub mod Connection
pub mod Contracts
pub mod Plans
pub mod Environ
pub mod Glob
pub mod Cors
pub mod Dict
pub mod HotState
pub mod Budget
pub mod World
pub mod Store
pub mod Adapters
pub mod Executor
pub mod Execute
pub mod Policy
pub mod Idempotency
pub mod Ingress
pub mod Approve
pub mod Llm
pub mod Memory
pub mod Planner
pub mod Readiness
pub mod Report
pub mod Router
pub mod Scenario
pub mod Scoring
pub mod Telemetry
pub mod Worker
pub mod Workflow
pub mod Agent
pub mod Api
pub mod Audit
pub mod Samples
