-- ===== src/Report/Laws.antt =====
-- What a report holds.
use mathlib.Core.List.{Perm}
use mathlib.Core.List.Perm
use ai_assisted_aws_incident.Prelude.{List, ◌∷◌, ◌++◌, map, select}
use ai_assisted_aws_incident.Contracts.{IncidentRecord}
use ai_assisted_aws_incident.Environ.{Environ}
use ai_assisted_aws_incident.World.{AuditEvent}
use ai_assisted_aws_incident.Audit.{is_about}
use ai_assisted_aws_incident.Report.{
  build_incident_timeline, generate_incident_report, detected, audit_item, trace_item,
  incident_audit_events,
}
use ai_assisted_aws_incident.Report.Order.{IsSorted, sorted-IsSorted, sorted-perm}

-- The timeline of a report is in the order of its timestamps, and it has exactly the detection, the
-- audit events of this incident, and the entries of its trace.
pub generate_incident_report-timeline :
    (env : Environ) (i : IncidentRecord) (events : List AuditEvent)
    → let timeline = (generate_incident_report env i events).incident_timeline in
      IsSorted (λ t. t.timestamp) timeline
      × Perm timeline (
          detected env i ∷ map (audit_item env) (select (is_about i.incident_id) events)
          ++ map (trace_item env) i.execution_trace.entries)
unfolding generate_incident_report build_incident_timeline incident_audit_events
generate_incident_report-timeline env i events = (
  sorted-IsSorted _ _,
  Perm.trans (sorted-perm (λ t. t.timestamp) _) (
      Perm.cons (detected env i) (
        Perm.append_right _
          (Perm.map (audit_item env) (sorted-perm (λ e. env.isoformat e.created_at) _)))),
)
