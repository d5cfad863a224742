-- ===== src/Workflow.antt =====
-- src/workflows/incident_workflow.py: the fixed route and the decision loop, with the checkpoints of
-- apps/api/routers/router/app.py and src/persistence/memory/working_memory.py. The agents are
-- parameters: each is called on the incident and returns its answer.
pub mod Loop
pub mod Routes
pub mod Keeps
pub mod Locking
pub mod Laws
pub mod Tests
use ai_assisted_aws_incident.Prelude.{
  ℕ, zero, suc, ◌+◌, ◌*◌, ◌/◌, Bool, true, false, not, ◌&&◌, ◌||◌, String, Option, none, some, List,
  [], ◌∷◌, ◌++◌, ◌==◌, is_blank, is_some, any, leb, length, or_else, lower, strip, concat,
  if◌then◌else◌,
}
use ai_assisted_aws_incident.Value.{
  Value, Fields, end, field, text, boolean, int, dict, list, null, ℤ, pos, negsuc, get, get_or,
  items,
}
use ai_assisted_aws_incident.Contracts.{
  ActionGraph, ActionType, DecisionRecord, EvidenceEntry, HypothesisLink, IncidentRecord,
  ResponsePlan, RouterDecision, add_trace, investigating, waiting_approval,
}
use ai_assisted_aws_incident.Plans.{match_response_plan}
use ai_assisted_aws_incident.Environ.{Environ, env_flag, str_of, float_of}
use ai_assisted_aws_incident.Dict.{Dict, lookup, insert}
use ai_assisted_aws_incident.HotState.{set_text}
use ai_assisted_aws_incident.Planner
use ai_assisted_aws_incident.Planner.{PlannerOutput, run}
use ai_assisted_aws_incident.Router.{
  RouterOutput, compute_router_decision, merge_router_allowed_with_plan,
}
use ai_assisted_aws_incident.Store.{upsert}
use ai_assisted_aws_incident.Execute.{text_or_null, trace_entry}
use ai_assisted_aws_incident.World.{
  World, Action, Failure, value_error, validation_error, type_error, or_raise, raise, pure, modify,
  utcnow, fresh_id, append_audit, about, ok, err, ◌>>=◌, ◌>>◌,
}

-- The agents of a route, as the functions that are passed to it, with what tells its checkpoints from those
-- of another caller: apps/worker/main.py passes a `_write_checkpoint` of its own.
pub record Agents : Type 0 where
  pub triage : IncidentRecord → Action Fields
  -- the evidence, and the incident whose `tools_used` it extends
  pub evidence : IncidentRecord → Action (List EvidenceEntry × IncidentRecord)
  pub change : IncidentRecord → Action EvidenceEntry
  pub rca : IncidentRecord → Action (List Fields)
  pub router_llm : IncidentRecord → ResponsePlan → RouterDecision → Action RouterOutput
  pub planner_llm : IncidentRecord → List ActionType → Action PlannerOutput
  -- what the checkpoints of this caller add to their event
  pub checkpoint : Fields

module _ (env : Environ) where
  -- `_write_checkpoint`
  unfoldable pub write_checkpoint : Fields → String → IncidentRecord → Action IncidentRecord
  write_checkpoint extra step incident = do
    let marked = record incident {
      agent_path =
          if any (λ s. s == step) incident.agent_path
          then incident.agent_path
          else incident.agent_path ++ step ∷ [];
    }
    stored ← upsert env marked
    append_audit env "workflow_checkpoint"
        (about stored.incident_id (field "step" (text step) extra))
    pure stored

  -- `int(os.getenv("ROUTER_MAX_ITERATIONS", "12"))` at least 1
  abbrev pub at_least_one : ℤ → ℕ
  at_least_one (pos zero) = 1
  at_least_one (pos (suc n)) = suc n
  at_least_one (negsuc _) = 1

  -- `_max_iterations`
  unfoldable pub max_iterations : Action ℕ
  max_iterations = do
    n ← or_raise (env.int_of (text (or_else (env.getenv "ROUTER_MAX_ITERATIONS") "12"))) value_error
    pure (at_least_one n)

  -- The start of both routes: the response plan, its actions, and the state.
  abbrev pub matched : IncidentRecord → IncidentRecord
  unfolding match_response_plan
  matched incident =
      let plan = match_response_plan incident.metadata.severity incident.metadata.symptom in
      record incident {
        response_plan = some plan;
        allowed_actions = plan.allowed_actions;
        state = investigating;
      }

  -- The step of triage, in both routes.
  unfoldable pub triage_step : Agents → IncidentRecord → Action IncidentRecord
  triage_step agents incident = do
    answer ← agents.triage incident
    write_checkpoint agents.checkpoint "triage" (record incident {
      hypotheses = incident.hypotheses ++ field "triage" (dict answer) end ∷ [];
    })

  -- `min(1.0, len(evidence) / 5.0)`
  abbrev pub coverage : ℕ → ℕ
  coverage n = if leb 5 n then 10000 else n * 2000

  -- The step of evidence; the loop also writes the coverage.
  unfoldable pub evidence_step : Agents → Bool → IncidentRecord → Action IncidentRecord
  evidence_step agents scored incident = do
    answer ← agents.evidence incident
    let evidence = (answer.1).evidence ++ answer.0
    write_checkpoint agents.checkpoint "evidence" (record (answer.1) {
      evidence = evidence;
      evidence_coverage_score =
          if scored then coverage (length evidence) else (answer.1).evidence_coverage_score;
    })

  unfoldable pub change_step : Agents → IncidentRecord → Action IncidentRecord
  change_step agents incident = do
    entry ← agents.change incident
    write_checkpoint agents.checkpoint "change"
        (record incident { evidence = incident.evidence ++ entry ∷ [] })

  -- `run_linear_route`
  unfoldable pub run_linear_route : Agents → IncidentRecord → Action IncidentRecord
  run_linear_route agents incident = do
    a ← write_checkpoint agents.checkpoint "match" (matched incident)
    b ← triage_step agents a
    c ← evidence_step agents false b
    d ← change_step agents c
    found ← agents.rca d
    e ← write_checkpoint agents.checkpoint "rca" (record d { hypotheses = d.hypotheses ++ found })
    upsert env (record e { control_plane_version = "v1" })
