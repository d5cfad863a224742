-- ===== src/Report/Tests.antt =====
-- The report of an incident.
use mathlib.Core.List.{Perm}
use ai_assisted_aws_incident.Prelude.{false, none, select, List, [], ◌∷◌, ◌++◌, map, some}
use ai_assisted_aws_incident.Value.{end}
use ai_assisted_aws_incident.Contracts.{IncidentRecord, investigating, add_trace}
use ai_assisted_aws_incident.Samples.{env, incident}
use ai_assisted_aws_incident.World.{AuditEvent, about}
use ai_assisted_aws_incident.Audit.{is_about}
use ai_assisted_aws_incident.Report.{generate_incident_report, detected, audit_item, trace_item}
use ai_assisted_aws_incident.Report.Laws.{generate_incident_report-timeline}
use ai_assisted_aws_incident.Report.Order.{IsSorted}

abbrev traced : IncidentRecord
traced =
    add_trace
      (record {
        trace_id = "et_1";
        phase = "act";
        action_id = some "act_1";
        success = none;
        message = "execute_start";
        replan_requested = false;
        created_at = 1;
      })
      (incident investigating)

-- The newest event first, as the store lists them, and one of another incident.
abbrev events : List AuditEvent
events =
    record { event_type = "action_executed"; payload = about "inc_1" end; created_at = 2 }
    ∷ record { event_type = "alert_created"; payload = about "inc_2" end; created_at = 1 }
    ∷ record { event_type = "alert_created"; payload = about "inc_1" end; created_at = 0 }
    ∷ []

generate_incident_report-timeline_example :
    let timeline = (generate_incident_report env traced events).incident_timeline in
    IsSorted (λ t. t.timestamp) timeline
    × Perm timeline (
        detected env traced ∷ map (audit_item env) (select (is_about "inc_1") events)
        ++ map (trace_item env) traced.execution_trace.entries)
generate_incident_report-timeline_example = generate_incident_report-timeline env traced events
