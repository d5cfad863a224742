-- ===== src/Scoring/Replay.antt =====
-- `run_replay` of src/eval/replay/replay_runner.py, with the program's agents.
use Prim.Native.String
use Prim.Native.String.{String}
use ai_assisted_aws_incident.Prelude.{
  ℕ, zero, suc, ◌+◌, ◌-◌, Bool, true, false, not, none, some, List, [], ◌∷◌, ◌++◌, ◌==◌, any,
  length, starts_with, if◌then◌else◌,
}
use ai_assisted_aws_incident.Contracts.{
  ActionRequest, ActionType, IncidentEnvelope, IncidentRecord, PolicyDecision, ResponsePlan,
  new_incident, rollback_deployment,
}
use ai_assisted_aws_incident.Plans.{match_response_plan}
use ai_assisted_aws_incident.Environ.{Environ}
use ai_assisted_aws_incident.Planner
use ai_assisted_aws_incident.Policy
use ai_assisted_aws_incident.Policy.{PolicyEngine}
use ai_assisted_aws_incident.Api.{no_context}
use ai_assisted_aws_incident.Workflow.{Agents}
use ai_assisted_aws_incident.World.{
  Action, type_error, or_raise, fresh_id, utcnow, pure, ◌>>=◌, ◌>>◌,
}
use ai_assisted_aws_incident.Scoring.{
  ReplayScore, compute_score, Fixture, Counts, nothing_counted, call_key, count_if, is_shell,
  is_seen, add_seen,
}

-- The text behind an occurrence that was replaced goes on after `skip` characters.
unfoldable pub replace_from : String → String → ℕ → String → String
replace_from old new skip String.[] = String.[]
replace_from old new (suc skip) (String.◌∷◌ c s) = replace_from old new skip s
replace_from old new zero (String.◌∷◌ c s) =
    let replaced = replace_from old new (String.len old - 1) s in
    let kept = replace_from old new zero s in
    if starts_with (String.◌∷◌ c s) old then String.◌++◌ new replaced else String.◌∷◌ c kept

-- `s.replace(old, new)`
unfoldable pub replace : String → String → String → String
replace old new s = replace_from old new zero s

pub record Tally : Type 0 where
  pub counts : Counts
  pub rollback_count : ℕ
  pub actions_executed : ℕ

abbrev pub nothing_tallied : Tally
nothing_tallied = record { counts = nothing_counted; rollback_count = 0; actions_executed = 0 }

abbrev pub is_rollback : ActionType → Bool
is_rollback rollback_deployment = true
is_rollback _ = false

module _ (env : Environ) (engine : PolicyEngine) (agents : Agents) where
  -- The incident of a fixture.
  unfoldable pub replayed : Fixture → Action IncidentRecord
  replayed f = do
    occurred ← utcnow env
    now ← utcnow env
    let envelope : IncidentEnvelope = record {
      version = "v1";
      source = f.source;
      severity = replace "warning" "sev3" (replace "critical" "sev1" f.severity);
      service = f.service;
      resource = f.resource;
      symptom = f.symptom;
      occurred_at = occurred;
      dedupe_key = call_key f;
      raw_payload_ref = none;
    }
    pure (record (new_incident f.incident_id envelope now) {
      response_plan = some (match_response_plan f.severity f.symptom);
    })

  -- The calls of the four agents; what triage answers is not kept.
  unfoldable pub investigate : IncidentRecord → Action IncidentRecord
  investigate incident = do
    agents.triage incident
    collected ← agents.evidence incident
    let gathered = record (collected.1) { evidence = (collected.1).evidence ++ collected.0 }
    entry ← agents.change gathered
    let correlated = record gathered { evidence = gathered.evidence ++ entry ∷ [] }
    found ← agents.rca correlated
    pure (record correlated { hypotheses = correlated.hypotheses ++ found })

  -- The decision on an action, and what it counts.
  unfoldable pub decide_action : ResponsePlan → ActionRequest → Action PolicyDecision
  decide_action plan a = do
    id ← fresh_id env "pd_" 10
    now ← utcnow env
    or_raise (ai_assisted_aws_incident.Policy.evaluate env engine (id, now) plan a false no_context)
        type_error

  abbrev pub tally_action : PolicyDecision → ActionRequest → Tally → Tally
  tally_action decision a t = record {
    counts = record (t.counts) {
      violations = count_if (not decision.allowed) (t.counts).violations;
    };
    rollback_count = count_if (is_rollback a.action_type) t.rollback_count;
    actions_executed = suc t.actions_executed;
  }

  -- The loop over the actions of a graph.
  unfoldable pub judge : ResponsePlan → List ActionRequest → Tally → Action Tally
  judge plan [] t = pure t
  judge plan (a ∷ rest) t =
      decide_action plan a >>= λ decision. judge plan rest (tally_action decision a t)

  -- A fixture's own counts, with the evidence that was found for it.
  abbrev pub tally_fixture : Fixture → ℕ → Tally → Tally
  tally_fixture f found t =
      let plan = match_response_plan f.severity f.symptom in
      let c = t.counts in
      record t {
        counts = record {
          matches = count_if (plan.plan_id == f.expected_route) c.matches;
          evidence_items = c.evidence_items + found;
          duplicates = count_if (is_seen (call_key f) c.seen) c.duplicates;
          violations = count_if (any is_shell plan.allowed_actions) c.violations;
          seen = add_seen (call_key f) c.seen;
        };
      }

  -- One round of the loop over the data set.
  unfoldable pub replay_fixture : Fixture → Tally → Action Tally
  replay_fixture f t = do
    incident ← replayed f
    investigated ← investigate incident
    planned ← ai_assisted_aws_incident.Planner.run env agents.planner_llm investigated
    judge (match_response_plan f.severity f.symptom) (planned.0).actions
        (tally_fixture f (length investigated.evidence) t)

  unfoldable pub replay_fixtures : List Fixture → Tally → Action Tally
  replay_fixtures [] t = pure t
  replay_fixtures (f ∷ rest) t = replay_fixture f t >>= λ next. replay_fixtures rest next

  -- `run_replay`
  unfoldable pub run_replay : List Fixture → Action ReplayScore
  run_replay fixtures = do
    t ← replay_fixtures fixtures nothing_tallied
    let c = t.counts
    pure (
        compute_score c.matches (length fixtures) c.evidence_items c.duplicates c.violations
          t.rollback_count t.actions_executed)
