-- ===== src/Router/Tests.antt =====
-- Decisions of the router.
use ai_assisted_aws_incident.Router.{
  triage_of, final_choice, choose, decision_of, normalize_evidence_intents, deterministic_next_step,
  merge_router_allowed_with_plan,
}
use ai_assisted_aws_incident.Prelude.{
  lower_char, ◌≡◌, ◌⊎◌, refl, true, false, none, [], ◌∷◌, All, contains, is_empty, lower,
}
use ai_assisted_aws_incident.Value.{end, field, text, dict, get_or}
use ai_assisted_aws_incident.Contracts.{
  ActionType-discrete, EvidenceEntry, IncidentRecord, RouterDecision, investigating, run_shell,
  query_logs,
}
use ai_assisted_aws_incident.Plans.{checkout_plan}
use ai_assisted_aws_incident.Environ.{str_of}
use ai_assisted_aws_incident.World.{fresh_id, utcnow}
use ai_assisted_aws_incident.Policy.{is_read_only}
use ai_assisted_aws_incident.Router.Laws.{
  IsComplete, deterministic_next_step-planner, merge_router_allowed_with_plan-allowed,
}
use ai_assisted_aws_incident.Samples.{env, world, incident, value_or}

abbrev entry : EvidenceEntry
entry = record {
  evidence_id = "ev_1";
  source = "change-correlation";
  kind = "change";
  confidence = 9000;
  summary = "";
  reference = none;
  created_at = 0;
}

-- An incident whose investigation is complete.
abbrev complete : IncidentRecord
complete = record (incident investigating) {
  hypotheses =
      field "triage"
        (dict (field "incident_type" (text "performance") (field "priority" (text "p1") end))) end
      ∷ field "hypothesis" (text "regression") end
      ∷ [];
  evidence = entry ∷ [];
}

abbrev nothing : RouterDecision
nothing = record {
  decision_id = "rd_0";
  next_workflow = "stop";
  allowed_actions = run_shell ∷ query_logs ∷ [];
  stop_reason = none;
  decision_confidence = 0;
  rule_ids_applied = [];
  investigate_only = false;
  tool_plan = none;
  created_at = 0;
}

abbrev decided : RouterDecision
decided =
    value_or (deterministic_next_step env complete checkout_plan (world investigating)).0 nothing

deterministic_next_step-planner_example :
    IsComplete complete
    × (is_read_only checkout_plan.policy_class ≡ false)
    × (lower (str_of env (get_or "incident_type" (text "") (triage_of complete.hypotheses)))
        ≡ "performance")
    × (let priority =
          lower (str_of env (get_or "priority" (text "p2") (triage_of complete.hypotheses))) in
        (priority ≡ "p1") ⊎ (priority ≡ "p2"))
unfolding deterministic_next_step normalize_evidence_intents decision_of choose final_choice
    triage_of fresh_id utcnow lower lower_char
deterministic_next_step-planner_example =
    deterministic_next_step-planner env complete checkout_plan (world investigating) {d = decided}
      refl refl

merge_router_allowed_with_plan-allowed_example :
    All
      (λ a. contains ActionType-discrete a checkout_plan.allowed_actions ≡ true)
      (merge_router_allowed_with_plan nothing checkout_plan).allowed_actions
    × (is_empty (merge_router_allowed_with_plan nothing checkout_plan).allowed_actions ≡ true
        → is_empty checkout_plan.allowed_actions ≡ true)
merge_router_allowed_with_plan-allowed_example =
    merge_router_allowed_with_plan-allowed nothing checkout_plan
