-- ===== src/Workflow/Loop.antt =====
-- `run_decision_loop_route` of src/workflows/incident_workflow.py, and `index_incident_snippet` of
-- src/persistence/memory/working_memory.py.
use ai_assisted_aws_incident.Prelude.{
  ℕ, zero, suc, ◌+◌, Bool, true, false, not, ◌&&◌, ◌||◌, String, Option, none, some, List, [], ◌∷◌,
  ◌++◌, ◌==◌, is_blank, is_some, strip, concat, if◌then◌else◌,
}
use ai_assisted_aws_incident.Value.{
  Fields, end, field, text, boolean, int, float, list, nil, pos, get, get_or,
}
use ai_assisted_aws_incident.Contracts.{
  ActionGraph, ActionRequest, PlanStep, HypothesisLink, IncidentRecord, ResponsePlan,
  RouterDecision, add_trace, waiting_approval,
}
use ai_assisted_aws_incident.Plans.{match_response_plan}
use ai_assisted_aws_incident.Environ.{Environ, env_flag, str_of}
use ai_assisted_aws_incident.Dict.{Dict, lookup, insert}
use ai_assisted_aws_incident.HotState.{set_text}
use ai_assisted_aws_incident.Planner.{run}
use ai_assisted_aws_incident.Router.{compute_router_decision, merge_router_allowed_with_plan}
use ai_assisted_aws_incident.Store.{upsert}
use ai_assisted_aws_incident.Execute.{text_or_null, trace_entry}
use ai_assisted_aws_incident.Workflow.{
  Agents, write_checkpoint, max_iterations, matched, triage_step, evidence_step, change_step,
}
use ai_assisted_aws_incident.World.{
  Action, value_error, or_raise, pure, modify, utcnow, fresh_id, append_audit, about, ◌>>=◌, ◌>>◌,
}

-- `bool(reason)` and `reason or default`
abbrev pub has_reason : Option String → Bool
has_reason none = false
has_reason (some s) = not (is_blank s)

abbrev pub reason_or : Option String → String → String
reason_or none default = default
reason_or (some s) default = if is_blank s then default else s

abbrev pub namespace_of : Option (Dict String) → Dict String
namespace_of none = []
namespace_of (some d) = d

-- The decision under its own `investigate_only`.
unfoldable pub hold_back : RouterDecision → RouterDecision
hold_back d =
    if d.investigate_only && (d.next_workflow == "planner" || d.next_workflow == "execute")
    then record d { next_workflow = "stop"; stop_reason = some "investigate_only" }
    else d

abbrev pub first_action : List ActionRequest → Option String
first_action [] = none
first_action (a ∷ _) = some a.action_id

abbrev pub first_step : List PlanStep → Option String
first_step [] = none
first_step (s ∷ _) = some s.step_id

-- `if xs: field = …`
abbrev pub keep_unless : Option String → Option String → Option String
keep_unless none old = old
keep_unless (some s) old = some s

-- The graph in the incident, as the loop writes it.
abbrev pub with_graph : ActionGraph → IncidentRecord → IncidentRecord
with_graph graph incident = record incident {
  pending_action_graph = some graph;
  pending_approval_action_id =
      keep_unless (first_action graph.actions) incident.pending_approval_action_id;
  pending_plan_step_id =
      if is_some (first_action graph.actions)
      then keep_unless (first_step graph.plan_steps) incident.pending_plan_step_id
      else incident.pending_plan_step_id;
  state = waiting_approval;
}

module _ (env : Environ) where
  -- `index_incident_snippet`
  unfoldable pub index_incident_snippet : String → String → Action (Unit {0})
  index_incident_snippet incident_id snippet =
      if not (env_flag env "WORKING_MEMORY_ENABLED" "true") || is_blank (strip snippet)
      then pure tt
      else do
        let key = concat ("wm:" ∷ incident_id ∷ [])
        modify (λ w. record w {
          memory =
              insert "incidents" (insert key snippet (namespace_of (lookup "incidents" w.memory)))
                w.memory;
        })
        event ← fresh_id env (concat (key ∷ ":evt:" ∷ [])) 8
        modify (λ w. record w {
          hot =
              set_text event (env.dumps_plain (about incident_id (field "text" (text snippet) end)))
                (some 86400) w.hot;
        })

  -- `_persist_decision(incident, decision, None, None)`
  unfoldable pub persist_decision : RouterDecision → IncidentRecord → Action IncidentRecord
  persist_decision d incident = do
    id ← fresh_id env "dr_" 10
    now ← utcnow env
    append_audit env "router_decision" (
        about incident.incident_id (
          field "decision_id" (text d.decision_id) (
            field "next_workflow" (text d.next_workflow) (
              field "stop_reason" (text_or_null d.stop_reason) (
                field "investigate_only" (boolean d.investigate_only)
                  (field "iteration" (int (pos incident.workflow_iteration)) end))))))
    pure (record incident {
      latest_router_decision = some d;
      decision_records =
          incident.decision_records
          ++ record {
            record_id = id;
            iteration = incident.workflow_iteration;
            router_decision = some d;
            step_executed = none;
            policy_decision_id = none;
            notes = "";
            created_at = now;
          }
            ∷ [];
    })

  -- The links of the hypotheses from the i-th on.
  unfoldable pub links_of : String → ℕ → List Fields → Action (List HypothesisLink)
  links_of incident_id i [] = pure []
  links_of incident_id i (h ∷ rest) = elim (get "hypothesis" h) [
    | none ↦ links_of incident_id (suc i) rest
    | some said ↦ do
      confidence ← or_raise (env.score_of (get_or "confidence" (float 0) h)) value_error
      supporting ←
          or_raise (env.texts_of (get_or "supporting_evidence_ids" (list nil) h)) value_error
      links ← links_of incident_id (suc i) rest
      pure (
          record {
            hypothesis_id = concat ("hyp_" ∷ incident_id ∷ "_" ∷ env.render (int (pos i)) ∷ []);
            text = str_of env said;
            confidence = confidence;
            supporting_evidence_ids = supporting;
            related_action_ids = [];
          }
          ∷ links)
  ]

  module _ (agents : Agents) where
    unfoldable pub rca_step : IncidentRecord → Action IncidentRecord
    rca_step incident = do
      found ← agents.rca incident
      links ← links_of incident.incident_id 0 found
      write_checkpoint env agents.checkpoint "rca" (record incident {
        hypotheses = incident.hypotheses ++ found;
        hypothesis_links = incident.hypothesis_links ++ links;
      })

    -- The step of the planner, behind which the loop ends.
    unfoldable pub planner_step : IncidentRecord → Action IncidentRecord
    planner_step incident = do
      done ← run env agents.planner_llm incident
      kept ← write_checkpoint env agents.checkpoint "planned" (with_graph done.0 done.1)
      entry ← trace_entry env "plan" none none "remediation graph created" false
      pure (add_trace entry kept)

    -- The end of a round that goes on.
    unfoldable pub and_store : Action IncidentRecord → Action (Bool × IncidentRecord)
    and_store step = do incident ← step; stored ← upsert env incident; pure (false, stored)

    unfoldable pub and_leave : Action IncidentRecord → Action (Bool × IncidentRecord)
    and_leave step = do incident ← step; pure (true, incident)

    unfoldable pub note : String → String → IncidentRecord → Action IncidentRecord
    note phase message incident = do
      entry ← trace_entry env phase none none message false
      pure (add_trace entry incident)

    -- The chain of `if step == …`; the flag says that the loop is left.
    unfoldable pub dispatch : String → IncidentRecord → Action (Bool × IncidentRecord)
    dispatch step incident =
        if step == "triage"
        then and_store (triage_step env agents incident)
        else if step == "evidence"
        then and_store (evidence_step env agents true incident)
        else if step == "change"
        then and_store (change_step env agents incident)
        else if step == "rca"
        then and_store (rca_step incident)
        else if step == "planner"
        then and_leave (planner_step incident)
        else if step == "verify"
        then and_leave (note "verify" "post_action_verify_stub" incident)
        else pure (true, incident)

    -- The decision of a round.
    unfoldable pub decide : ResponsePlan → IncidentRecord → Action RouterDecision
    decide plan incident = do
      raw ← compute_router_decision env agents.router_llm incident plan
      pure (hold_back (merge_router_allowed_with_plan raw plan))

    -- The rest of a round.
    unfoldable pub follow : RouterDecision → IncidentRecord → Action (Bool × IncidentRecord)
    follow d incident = do
      recorded ← persist_decision d incident
      noted ← note "decide" (concat ("next=" ∷ d.next_workflow ∷ [])) recorded
      index_incident_snippet noted.incident_id (
          concat (
            "iter "
            ∷ env.render (int (pos noted.workflow_iteration))
            ∷ " next "
            ∷ d.next_workflow
            ∷ []))
      if d.next_workflow == "stop" || has_reason d.stop_reason
          then and_leave (note "stop" (reason_or d.stop_reason "complete") noted)
          else dispatch d.next_workflow noted

    unfoldable pub round : ResponsePlan → IncidentRecord → Action (Bool × IncidentRecord)
    round plan incident = do
      let counted = record incident { workflow_iteration = incident.workflow_iteration + 1 }
      d ← decide plan counted
      follow d counted

    -- The `for`, with so many rounds left
    unfoldable pub rounds : ResponsePlan → ℕ → IncidentRecord → Action IncidentRecord
    rounds plan zero incident = pure incident
    rounds plan (suc left) incident = do
      r ← round plan incident
      if r.0 then pure (r.1) else rounds plan left (r.1)

    -- `run_decision_loop_route`
    unfoldable pub run_decision_loop_route : IncidentRecord → Action IncidentRecord
    run_decision_loop_route incident = do
      let plan = match_response_plan incident.metadata.severity incident.metadata.symptom
      start ←
          write_checkpoint env agents.checkpoint "match"
            (record (matched env incident) { workflow_iteration = 0 })
      limit ← max_iterations env
      last ← rounds plan limit start
      upsert env (record last { control_plane_version = "v1" })
