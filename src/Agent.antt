-- ===== src/Agent.antt =====
-- The agents of an investigation: src/agents/triage/agent.py, src/agents/rca/agent.py and
-- src/agents/change_correlation/agent.py; `Agent/Evidence` has src/agents/evidence/agent.py. pydantic's
-- validation of what the language model answers is the parameter `Schemas`; an agent's system prompt is its name.
mod Common
mod Prompts
mod Evidence
pub mod Program
pub mod Laws
pub mod Tests
unfoldable pub use Common.*
unfoldable pub use Prompts.*
unfoldable pub use Evidence.*
use ai_assisted_aws_incident.Prelude.{
  ℕ, Bool, true, false, ◌&&◌, ◌||◌, String, Option, none, some, List, [], ◌∷◌, ◌++◌, ◌==◌, any,
  has_part, lower, map, is_empty, if◌then◌else◌, concat,
}
use ai_assisted_aws_incident.Value.{Value, Items, Fields, end, field, text, float, list, text_items}
use ai_assisted_aws_incident.Contracts.{EvidenceEntry, IncidentRecord}
use ai_assisted_aws_incident.Plans.{is_severe}
use ai_assisted_aws_incident.Environ.{Environ}
use ai_assisted_aws_incident.Llm.{Chat, complete_json}
use ai_assisted_aws_incident.Telemetry.{ChangeFeed, change_feed_client}
use ai_assisted_aws_incident.World.{
  World, Action, Failure, Result, structured_llm_error, ok, err, pure, raise, ◌>>=◌, ◌>>◌,
}

-- `TriageLLMOutput.model_dump()`
abbrev pub triage_fields : String → String → List String → List String → Fields
triage_fields incident_type priority domains evidence = field "incident_type" (text incident_type) (
    field "priority" (text priority) (
      field "probable_domains" (list (text_items domains))
        (field "next_required_evidence" (list (text_items evidence)) end)))

-- `_stub_run` of the triage agent
unfoldable pub stub_triage : IncidentRecord → Fields
stub_triage incident =
    let busy = has_part "cpu" (lower incident.metadata.symptom) in
    triage_fields (if busy then "performance" else "general")
      (if is_severe incident.metadata.severity then "p1" else "p2")
      ((if busy then "compute" else "application") ∷ [])
      ("metrics" ∷ "logs" ∷ "recent_changes" ∷ [])

-- `RCAHypothesisItem.model_dump()`
abbrev pub hypothesis_fields : String → ℕ → List String → Fields
hypothesis_fields hypothesis confidence ids = field "hypothesis" (text hypothesis) (
    field "confidence" (float confidence)
      (field "supporting_evidence_ids" (list (text_items ids)) end))

abbrev pub evidence_ids : IncidentRecord → List String
evidence_ids incident = map (λ e. e.evidence_id) incident.evidence

-- The hypotheses of the first two tests of `_stub_run` of the RCA agent.
unfoldable pub deployment_hypotheses : IncidentRecord → List Fields
deployment_hypotheses incident =
    if incident.metadata.service == "checkout-service"
      && any (λ e. has_part "checkout-r43" e.summary || has_part "deployment" (lower e.summary))
          incident.evidence
    then hypothesis_fields
        "Checkout deployment revision checkout-r43 introduced elevated latency and errors" 8600
        (evidence_ids incident)
      ∷ []
    else []

unfoldable pub cpu_hypotheses : IncidentRecord → List Fields
cpu_hypotheses incident =
    if any (λ e. has_part "cpu" (lower e.summary)) incident.evidence
    then hypothesis_fields "CPU saturation due to traffic spike or hot loop" 7800
        (evidence_ids incident)
      ∷ []
    else []

-- `_stub_run` of the RCA agent
unfoldable pub stub_rca : IncidentRecord → List Fields
stub_rca incident =
    let found = deployment_hypotheses incident ++ cpu_hypotheses incident in
    if is_empty found
    then hypothesis_fields "Application-level error causing elevated failures" 5500
        (evidence_ids incident)
      ∷ []
    else found

module _ (env : Environ) (chat : Chat) (schemas : Schemas) where
  -- `TriageAgent.run`
  unfoldable pub run_triage : IncidentRecord → Action Fields
  run_triage incident w =
      if env.agent.agentic_enabled
      then or_fallback env (pure (stub_triage incident)) (
          (complete_json env chat schemas.triage_output "triage" (triage_user incident) >>= λ out.
          pure (
            triage_fields out.incident_type out.priority out.probable_domains
              out.next_required_evidence))
            w)
      else (ok (stub_triage incident), w)

  -- The body of the `try` of `RCAAgent.run`
  unfoldable pub ask_rca : IncidentRecord → Action (List Fields)
  ask_rca incident = do
    out ← complete_json env chat schemas.rca_output "rca" (rca_user incident)
    let found = map (λ h. hypothesis_fields h.hypothesis h.confidence h.supporting_evidence_ids) out
    if is_empty found
        then (if env.agent.agentic_stub_fallback
            then pure (stub_rca incident)
            else raise structured_llm_error)
        else pure found

  -- `RCAAgent.run`
  unfoldable pub run_rca : IncidentRecord → Action (List Fields)
  run_rca incident w =
      if env.agent.agentic_enabled
      then or_fallback env (pure (stub_rca incident)) (ask_rca incident w)
      else (ok (stub_rca incident), w)

  abbrev pub stub_change : String → Action EvidenceEntry
  stub_change raw = new_evidence env "change-correlation" "deployment-history" 6600 raw

  -- `ChangeCorrelationAgent.run`
  unfoldable pub run_change : ChangeFeed → IncidentRecord → Action EvidenceEntry
  run_change aws incident = do
    raw ← (change_feed_client env aws).get_recent_deployments incident.metadata.service
    (λ w.
        if env.agent.agentic_enabled
        then or_fallback env (stub_change raw) (
            (complete_json env chat schemas.change_output "change_correlation"
                  (change_user incident raw)
                >>= λ out.
                    new_evidence env "change-correlation" out.kind out.confidence out.summary)
              w)
        else stub_change raw w)
