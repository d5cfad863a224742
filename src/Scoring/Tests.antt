-- ===== src/Scoring/Tests.antt =====
-- The score of two incidents of one service.
use ai_assisted_aws_incident.Policy.{evaluate, checks, target_allowed}
use ai_assisted_aws_incident.Plans.{match_response_plan}
use ai_assisted_aws_incident.Planner.{
  plan_under, stub_graph, stub_actions, propose, build_plan_steps, plan_step,
}
use ai_assisted_aws_incident.Prelude.{String, refl, lower, lower_char, none, arith, List, [], ◌∷◌}
use ai_assisted_aws_incident.Scoring.{compute_score, ReplayScore, Fixture, replay_score}
use ai_assisted_aws_incident.Value.{end}
use ai_assisted_aws_incident.Contracts.{ActionType-discrete, new_incident, EvidenceEntry}
use ai_assisted_aws_incident.Samples.{env, engine, empty_world, value_or}
use ai_assisted_aws_incident.Workflow.{Agents}
use ai_assisted_aws_incident.World.{
  fresh_id, utcnow, World, Result, pure, raise, structured_llm_error,
}
use ai_assisted_aws_incident.Scoring.Replay.{
  replay_fixtures, replay_fixture, replayed, investigate, judge, decide_action, run_replay,
}
use ai_assisted_aws_incident.Scoring.Rounds.{Round, PlaysAll}
use ai_assisted_aws_incident.Scoring.Totals.{Totals, run_replay-Totals}
use ai_assisted_aws_incident.Scoring.Laws.{Scored, replay_score-Scored}

abbrev regression : Fixture
regression = record {
  incident_id = "inc_1";
  source = "prometheus";
  severity = "sev2";
  service = "checkout-service";
  resource = "checkout/api";
  symptom = "checkout error rate";
  expected_route = "checkout-deployment-regression-v1";
}

abbrev fixtures : List Fixture
fixtures = regression ∷ record regression { incident_id = "inc_2" } ∷ []

replay_score-Scored_example : (keys : List String) × Scored fixtures keys (replay_score fixtures)
replay_score-Scored_example = replay_score-Scored fixtures (omega arith)

-- Agents that add one entry of evidence; the plan is the one made without a language model.
abbrev entry : EvidenceEntry
entry = record {
  evidence_id = "ev_1";
  source = "deployments";
  kind = "deployment-history";
  confidence = 7000;
  summary = "checkout-r43";
  reference = none;
  created_at = 0;
}

abbrev agents : Agents
agents = record {
  triage = λ _. pure end;
  evidence = λ i. pure ([], i);
  change = λ _. pure entry;
  rca = λ _. pure [];
  router_llm = λ _ _ _. raise structured_llm_error;
  planner_llm = λ _ _. raise structured_llm_error;
  checkpoint = end;
}

abbrev replay : Result ReplayScore × World
replay = run_replay env engine agents fixtures empty_world

abbrev score : ReplayScore
score = value_or replay.0 (replay_score [])

run_replay-Totals_example :
    (rounds : List Round) × (keys : List String) × PlaysAll env engine agents fixtures empty_world
      rounds replay.1
    × Totals fixtures keys rounds score
unfolding run_replay replay_fixtures replay_fixture replayed investigate judge decide_action
    compute_score replay_score fresh_id utcnow ai_assisted_aws_incident.Planner.run plan_under
    stub_graph stub_actions propose build_plan_steps plan_step match_response_plan lower lower_char
    evaluate checks target_allowed ActionType-discrete new_incident
run_replay-Totals_example =
    run_replay-Totals env engine agents fixtures empty_world {s = score} {v = replay.1}
      (omega arith) refl
