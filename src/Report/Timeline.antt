-- ===== src/Report/Timeline.antt =====
-- The timeline and the metrics of a report: `build_incident_timeline` and `calculate_operational_metrics`
-- of src/reporting/incident_reports.py.
use Prim.Native.String.{slice}
use ai_assisted_aws_incident.Prelude.{
  ℕ, ◌-◌, Bool, true, false, String, Option, none, some, List, [], ◌∷◌, ◌++◌, ◌==◌, map, length,
  select, find_first, or_text, if◌then◌else◌,
}
use ai_assisted_aws_incident.Contracts.{
  ExecutionTraceEntry, IncidentRecord, IncidentState, resolved,
}
use ai_assisted_aws_incident.Environ.{Environ}
use ai_assisted_aws_incident.Audit.{is_about}
use ai_assisted_aws_incident.World.{AuditEvent}
use ai_assisted_aws_incident.Report.Order.{sorted}

-- An item of a timeline; `success` is a key of the trace's items alone.
pub record TimelineItem : Type 0 where
  pub timestamp : String
  pub phase : String
  pub event : String
  pub summary : String
  pub success : Option (Option Bool)

-- The times are in minutes; `none` is None.
pub record Metrics : Type 0 where
  pub time_to_detect_minutes : ℕ
  pub time_to_diagnose_minutes : Option ℕ
  pub mttr_minutes : Option ℕ
  pub approval_duration_minutes : Option ℕ
  pub evidence_items : ℕ
  pub evidence_coverage : ℕ
  pub executed_actions : ℕ
  pub successful_actions : ℕ

-- The last of a list.
abbrev pub last_of : {A : Type 0} → List A → Option A
last_of [] = none
last_of (x ∷ []) = some x
last_of (x ∷ y ∷ ys) = last_of (y ∷ ys)

abbrev pub bind : {A B : Type 0} → Option A → (A → Option B) → Option B
bind none f = none
bind (some a) f = f a

-- `a or b`, of a field that may be None
abbrev pub text_or : Option String → String → String
text_or none d = d
text_or (some s) d = or_text s d

module _ (env : Environ) where
  -- `_minutes_between`
  abbrev pub minutes_between : Option ℕ → Option ℕ → Option ℕ
  minutes_between (some start) (some stop) = some (env.minutes_of (stop - start))
  minutes_between _ _ = none

  -- `_incident_audit_events`
  unfoldable pub incident_audit_events : IncidentRecord → List AuditEvent → List AuditEvent
  incident_audit_events incident events =
      sorted (λ e. env.isoformat e.created_at) (select (is_about incident.incident_id) events)

  abbrev pub detected : IncidentRecord → TimelineItem
  detected incident = record {
    timestamp = env.isoformat incident.metadata.occurred_at;
    phase = "detect";
    event = "incident_detected";
    summary = incident.metadata.symptom;
    success = none;
  }

  abbrev pub audit_item : AuditEvent → TimelineItem
  audit_item e = record {
    timestamp = env.isoformat e.created_at;
    phase = "audit";
    event = e.event_type;
    summary = slice (env.dumps e.payload) 0 500;
    success = none;
  }

  abbrev pub trace_item : ExecutionTraceEntry → TimelineItem
  trace_item e = record {
    timestamp = env.isoformat e.created_at;
    phase = e.phase;
    event = text_or e.action_id e.phase;
    summary = e.message;
    success = some e.success;
  }

  -- The timeline before it is sorted.
  abbrev pub timeline_items : IncidentRecord → List AuditEvent → List TimelineItem
  timeline_items incident events =
      detected incident ∷ map audit_item (incident_audit_events incident events)
      ++ map trace_item incident.execution_trace.entries

  -- `build_incident_timeline`
  unfoldable pub build_incident_timeline : IncidentRecord → List AuditEvent → List TimelineItem
  build_incident_timeline incident events =
      sorted (λ t. t.timestamp) (timeline_items incident events)

  abbrev pub is_resolved : IncidentState → Bool
  is_resolved resolved = true
  is_resolved _ = false

  -- `calculate_operational_metrics`
  unfoldable pub calculate_operational_metrics :
      IncidentRecord → List TimelineItem → List AuditEvent → Metrics
  calculate_operational_metrics incident timeline events =
      let occurred = some incident.metadata.occurred_at in
      let first_route =
        bind (find_first (λ t. t.event == "workflow_checkpoint") timeline)
          (λ t. env.fromisoformat t.timestamp) in
      let ended = if is_resolved incident.state then some incident.updated_at else none in
      let approval_start =
        bind (last_of (select (λ a. a.approved) incident.approvals)) (λ a. some a.created_at) in
      let action_time =
        bind
          (find_first (λ e. e.event_type == "action_executed")
            (incident_audit_events incident events))
          (λ e. env.fromisoformat (env.isoformat e.created_at)) in
      record {
        time_to_detect_minutes = 0;
        time_to_diagnose_minutes = minutes_between occurred first_route;
        mttr_minutes = minutes_between occurred ended;
        approval_duration_minutes = minutes_between approval_start action_time;
        evidence_items = length incident.evidence;
        evidence_coverage = incident.evidence_coverage_score;
        executed_actions = length incident.executed_actions;
        successful_actions = length (select (λ r. r.success) incident.executed_actions);
      }
