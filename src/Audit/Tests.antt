-- ===== src/Audit/Tests.antt =====
-- The audit of two incidents.
use ai_assisted_aws_incident.Prelude.{◌≡◌, refl, arith, true, false, List, [], ◌∷◌}
use ai_assisted_aws_incident.Value.{end}
use ai_assisted_aws_incident.Contracts.{opened}
use ai_assisted_aws_incident.Samples.{env, world}
use ai_assisted_aws_incident.World.{World, AuditEvent, append_audit, about}
use ai_assisted_aws_incident.Audit.{list_events, get_incident_audit}
use ai_assisted_aws_incident.Audit.Laws.{list_events-modes, get_incident_audit-append_audit}

abbrev first : AuditEvent
first = record { event_type = "alert_created"; payload = about "inc_1" end; created_at = 1 }

abbrev second : AuditEvent
second = record { event_type = "alert_created"; payload = about "inc_2" end; created_at = 3 }

abbrev third : AuditEvent
third = record { event_type = "incident_routed"; payload = about "inc_1" end; created_at = 7 }

abbrev events : List AuditEvent
events = first ∷ second ∷ third ∷ []

list_events-modes_example : list_events false 2 events ≡ list_events true 2 events
list_events-modes_example =
    list_events-modes 1 events ((omega arith, (omega arith, tt)), ((omega arith, tt), (tt, tt)))

abbrev here : World
here = record (world opened) { audit = events; clock_reads = 10 }

abbrev behind : List AuditEvent
behind = (append_audit env "action_executed" (about "inc_1" end) here).1.audit

get_incident_audit-append_audit_example :
    (get_incident_audit false "inc_1" 3 behind
      ≡ record { event_type = "action_executed"; payload = about "inc_1" end; created_at = 11 }
        ∷ get_incident_audit false "inc_1" 2 events)
    × (get_incident_audit false "inc_2" 3 behind ≡ get_incident_audit false "inc_2" 2 events)
get_incident_audit-append_audit_example =
    get_incident_audit-append_audit env "action_executed" "inc_1" "inc_2" end 2 here
      (omega arith, (omega arith, (omega arith, tt))) refl
