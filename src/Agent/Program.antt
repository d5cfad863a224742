-- ===== src/Agent/Program.antt =====
-- The agents that src/apps/api/main.py and src/apps/api/routers/router/app.py hand to the workflow.
use ai_assisted_aws_incident.Environ.{Environ}
use ai_assisted_aws_incident.Llm.{Chat, complete_json}
use ai_assisted_aws_incident.Telemetry.Aws.{AwsClients, aws_collectors, aws_change_feed}
use ai_assisted_aws_incident.Workflow.{Agents}
use ai_assisted_aws_incident.Agent.{
  planner_user, router_user, end, Schemas, run_triage, run_rca, run_change, run_evidence,
}

module _ (env : Environ) (clients : AwsClients) (chat : Chat) (schemas : Schemas) where
  abbrev pub program_agents : Agents
  program_agents = record {
    triage = run_triage env chat schemas;
    evidence =
        run_evidence env (aws_collectors env clients) (aws_change_feed env clients) chat schemas;
    change = run_change env chat schemas (aws_change_feed env clients);
    rca = run_rca env chat schemas;
    router_llm =
        λ i plan d. complete_json env chat schemas.router_output "router" (router_user i plan d);
    planner_llm = λ i allowed w.
        complete_json env chat schemas.planner_output "planner" (planner_user env i allowed w) w;
    checkpoint = end;
  }
