-- ===== src/Report.antt =====
-- src/reporting/incident_reports.py, and the routes of src/apps/api/routers/reporting/app.py. The files that
-- `write_incident_report` writes are left out.
pub mod Order
mod Timeline
mod Texts
pub mod Laws
pub mod Tests
unfoldable pub use Timeline.*
unfoldable pub use Texts.*
use Prim.Native.String.{slice}
use ai_assisted_aws_incident.Prelude.{
  ℕ, ◌-◌, Bool, true, false, String, Option, none, some, List, [], ◌∷◌, ◌++◌, ◌==◌, map, length,
  select, find_first, or_text, or_list, concat, if◌then◌else◌,
}
use ai_assisted_aws_incident.Value.{Fields, Value, end, field, text, float, int, pos}
use ai_assisted_aws_incident.Contracts.{
  ApprovalRecord, ActionResult, ExecutionTraceEntry, IncidentRecord, IncidentState,
  IncidentState-discrete, resolved, state_value,
}
use ai_assisted_aws_incident.Environ.{Environ}
use ai_assisted_aws_incident.Audit.{list_events, is_about}
use ai_assisted_aws_incident.Dict.{lookup}
use ai_assisted_aws_incident.World.{
  World, AuditEvent, Action, Failure, http, append_audit, about, or_raise, pure, gets, ◌>>=◌, ◌>>◌,
}
use ai_assisted_aws_incident.Report.Order.{sorted}

pub record IncidentReportBundle : Type 0 where
  pub incident_id : String
  pub executive_summary : String
  pub post_incident_review : String
  pub incident_timeline : List TimelineItem
  pub metrics : Metrics

module _ (env : Environ) where
  -- `generate_incident_report`
  unfoldable pub generate_incident_report : IncidentRecord → List AuditEvent → IncidentReportBundle
  generate_incident_report incident events =
      let timeline = build_incident_timeline env incident events in
      let metrics = calculate_operational_metrics env incident timeline events in
      record {
        incident_id = incident.incident_id;
        executive_summary = executive_summary env incident metrics;
        post_incident_review = post_incident_review env incident timeline metrics;
        incident_timeline = timeline;
        metrics = metrics;
      }

  -- `get_incident_report`
  unfoldable pub get_incident_report : String → Action IncidentReportBundle
  get_incident_report incident_id = do
    found ← gets (λ w. lookup incident_id w.incidents)
    incident ← or_raise found (http 404 "incident not found")
    events ← gets (λ w. list_events false 1000 w.audit)
    pure (generate_incident_report incident events)

  -- `create_incident_report`
  unfoldable pub create_incident_report : String → Action IncidentReportBundle
  create_incident_report incident_id = do
    bundle ← get_incident_report incident_id
    append_audit env "incident_report_generated" (about incident_id end)
    pure bundle
