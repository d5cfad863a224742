-- ===== src/Worker/Tests.antt =====
-- A job for the stored incident, and one for another.
use ai_assisted_aws_incident.Prelude.{◌≡◌, refl, String, none, some, [], ◌∷◌, ◌++◌, List}
use ai_assisted_aws_incident.Value.{end, field, text, dict}
use ai_assisted_aws_incident.Contracts.{EvidenceEntry, opened, investigating}
use ai_assisted_aws_incident.Environ.{Environ}
use ai_assisted_aws_incident.Dict.{lookup}
use ai_assisted_aws_incident.Workflow.{Agents}
use ai_assisted_aws_incident.World.{World, ok, pure, raise, structured_llm_error}
use ai_assisted_aws_incident.Worker.{job_text, enqueue_route, process_incident, serve_all}
use ai_assisted_aws_incident.Worker.Laws.{Handled, enqueue_route-served, process_incident-Handled}
use ai_assisted_aws_incident.Samples.{env, world}

-- An environment in which a job's text reads as the id of the incident.
abbrev reading : Environ
reading = record env { loads = λ _. some (dict (field "incident_id" (text "inc_1") end)) }

abbrev entry : EvidenceEntry
entry = record {
  evidence_id = "ev_1";
  source = "change-correlation";
  kind = "change";
  confidence = 9000;
  summary = "";
  reference = none;
  created_at = 0;
}

abbrev agents : Agents
agents = record {
  triage = λ _. pure end;
  evidence = λ i. pure ([], i);
  change = λ _. pure entry;
  rca = λ _. pure [];
  router_llm = λ _ _ _. raise structured_llm_error;
  planner_llm = λ _ _. raise structured_llm_error;
  checkpoint = end;
}

-- The queue already holds a job that no one can read.
abbrev queue : List String
queue = "not json" ∷ []

enqueue_route-served_example :
    (v : World) × (enqueue_route reading "inc_1" queue (world opened)
      ≡ (ok (queue ++ job_text "inc_1" ∷ []), v))
    × (v.incidents ≡ (world opened).incidents)
    × (serve_all reading agents (queue ++ job_text "inc_1" ∷ []) (world investigating) ≡ (
      ok tt,
      (process_incident reading agents "inc_1"
          (serve_all reading agents queue (world investigating)).1).1,
    ))
unfolding lookup
enqueue_route-served_example =
    enqueue_route-served reading agents "inc_1" queue (world opened) (world investigating) refl refl
      refl

process_incident-Handled_example :
    Handled env agents "inc_1" (world opened) (process_incident env agents "inc_1" (world opened))
process_incident-Handled_example = process_incident-Handled env agents "inc_1" (world opened)
