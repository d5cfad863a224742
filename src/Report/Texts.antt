-- ===== src/Report/Texts.antt =====
-- The texts of a report: the executive summary and the review of `generate_incident_report`.
use ai_assisted_aws_incident.Prelude.{
  join_lines, ℕ, String, Option, none, some, List, [], ◌∷◌, map, length, or_list, concat,
}
use ai_assisted_aws_incident.Value.{float, int, pos}
use ai_assisted_aws_incident.Contracts.{IncidentRecord, state_value}
use ai_assisted_aws_incident.Environ.{Environ}
use ai_assisted_aws_incident.Report.Timeline.{TimelineItem, Metrics, text_or}

module _ (env : Environ) where
  abbrev pub minutes_text : Option ℕ → String
  minutes_text none = "n/a"
  minutes_text (some m) = env.render (float m)

  abbrev pub duration_text : Option ℕ → String
  duration_text none = "n/a"
  duration_text (some m) = concat (env.render (float m) ∷ " minutes" ∷ [])

  abbrev pub count_text : ℕ → String
  count_text n = env.render (int (pos n))

  abbrev pub root_cause : IncidentRecord → String
  root_cause incident =
      text_or incident.final_diagnosis
        "Deployment checkout-r43 introduced elevated checkout errors and latency."

  abbrev pub recovery : IncidentRecord → String
  recovery incident = text_or incident.final_resolution "Recovery has not been verified yet."

  abbrev pub follow_ups : IncidentRecord → List String
  follow_ups incident = or_list incident.lessons_learned (
      "Add a canary gate for checkout deployments."
      ∷ "Keep rollback approval paths tested during game days."
      ∷ "Review alert thresholds after the next checkout release." ∷ [])

  unfoldable pub executive_summary : IncidentRecord → Metrics → String
  executive_summary incident metrics = concat (
      "# Executive Summary\n\nIncident `"
      ∷ incident.incident_id
      ∷ "` affected `"
      ∷ incident.metadata.service
      ∷ "` with severity `"
      ∷ incident.metadata.severity
      ∷ "`.\n\n* Current state: "
      ∷ state_value incident.state
      ∷ "\n* Root cause: "
      ∷ root_cause incident
      ∷ "\n* Recovery proof: "
      ∷ recovery incident
      ∷ "\n* MTTR: "
      ∷ minutes_text metrics.mttr_minutes
      ∷ " minutes\n* Approval duration: "
      ∷ duration_text metrics.approval_duration_minutes
      ∷ "\n* Recommendation: improve checkout deployment safety with canary validation and tested rollback paths.\n"
      ∷ [])

  abbrev pub timeline_line : TimelineItem → String
  timeline_line t = concat ("* " ∷ t.timestamp ∷ " - " ∷ t.event ∷ ": " ∷ t.summary ∷ [])

  unfoldable pub post_incident_review : IncidentRecord → List TimelineItem → Metrics → String
  post_incident_review incident timeline metrics = concat (
      "# Post-Incident Review\n\n## Incident Timeline\n\n"
      ∷ join_lines (map timeline_line timeline)
      ∷ "\n\n## Customer Impact\n\n"
      ∷ incident.metadata.symptom
      ∷ "\n\n## Decision Log\n\n* Router decisions recorded: "
      ∷ count_text (length incident.decision_records)
      ∷ "\n* Evidence items collected: "
      ∷ count_text (length incident.evidence)
      ∷ "\n* Actions executed: "
      ∷ count_text (length incident.executed_actions)
      ∷ "\n\n## Root Cause\n\n"
      ∷ root_cause incident
      ∷ "\n\n## Recovery Proof\n\n"
      ∷ recovery incident
      ∷ "\n\n## Operational Metrics\n\n* MTTD: "
      ∷ env.render (float metrics.time_to_detect_minutes)
      ∷ " minutes\n* MTTR: "
      ∷ minutes_text metrics.mttr_minutes
      ∷ " minutes\n* Approval duration: "
      ∷ duration_text metrics.approval_duration_minutes
      ∷ "\n* Evidence coverage: "
      ∷ env.percent metrics.evidence_coverage
      ∷ "\n\n## Follow-Up Actions\n\n"
      ∷ join_lines (map (λ s. concat ("* " ∷ s ∷ [])) (follow_ups incident))
      ∷ "\n\n## Service-Improvement Recommendation\n\n"
      ∷ "Adopt a checkout deployment release gate that blocks promotion when synthetic checkout success, "
      ∷ "payment timeout rate, or p95 latency violate the agreed SLO window.\n"
      ∷ [])
