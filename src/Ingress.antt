-- ===== src/Ingress.antt =====
-- Alerts: apps/api/routers/ingress/normalizer.py, `ingest` of apps/api/routers/ingress/app.py and
-- `create_alert` of apps/api/main.py, with Redis and the database at hand.
pub mod Laws
pub mod Tests
use ai_assisted_aws_incident.Prelude.{
  ℕ, Bool, ◌||◌, String, Option, none, some, or_else, or_text, any, List, [], ◌∷◌, ◌==◌,
  if◌then◌else◌, concat, lower, strip,
}
use ai_assisted_aws_incident.Value.{Fields, end, field, text}
use ai_assisted_aws_incident.Contracts.{IncidentRecord, IncidentEnvelope, new_incident}
use ai_assisted_aws_incident.Environ.{Environ}
use ai_assisted_aws_incident.HotState.{set_if_absent}
use ai_assisted_aws_incident.World.{
  Action, Failure, http, or_raise, pure, utcnow, fresh_id, append_audit, about, ok, ◌>>=◌, ◌>>◌,
}
use ai_assisted_aws_incident.Store.{upsert, get_by_dedupe_key}

-- `payload.model_dump(exclude_none=True)`, or the dictionary of a scenario: `none` is a missing key.
pub record Alert : Type 0 where
  pub source : Option String
  pub severity : Option String
  pub service : Option String
  pub resource : Option String
  pub symptom : Option String
  pub raw_payload_ref : Option String

-- `SEVERITY_MAP.get(severity_raw, "sev3")`
abbrev pub severity_of : String → String
severity_of raw =
    if raw == "critical"
    then "sev1"
    else if raw == "high"
    then "sev2"
    else if raw == "warning"
    then "sev3"
    else if raw == "info"
    then "sev4"
    else "sev3"

abbrev pub known_sources : List String
known_sources =
    "webhook" ∷ "azure-monitor" ∷ "azure-arc" ∷ "prometheus" ∷ "grafana" ∷ "elk" ∷ "splunk"
    ∷ "servicenow" ∷ "pagerduty" ∷ []

-- `_canonical_source`
unfoldable pub canonical_source : Option String → String
canonical_source raw =
    let source = lower (strip (or_text (or_else raw "") "webhook")) in
    if any (λ s. s == source) known_sources then source else "webhook"

module _ (env : Environ) where
  -- `_dedupe_key`
  unfoldable pub dedupe_key : String → String → String → String → String
  dedupe_key source service resource symptom =
      env.sha256
        (concat (source ∷ ":" ∷ service ∷ ":" ∷ resource ∷ ":" ∷ lower (strip symptom) ∷ []))

  -- The envelope of `normalize`; an absent `occurred_at` is the time at which it is made.
  unfoldable pub envelope_of : Alert → ℕ → IncidentEnvelope
  envelope_of alert now =
      let source = canonical_source (some (or_else alert.source "webhook")) in
      let service = lower (strip (or_else alert.service "unknown-service")) in
      let resource = lower (strip (or_else alert.resource "unknown-resource")) in
      let symptom = strip (or_else alert.symptom "unspecified symptom") in
      record {
        version = "v1";
        source = source;
        severity = severity_of (lower (or_else alert.severity "warning"));
        service = service;
        resource = resource;
        symptom = symptom;
        occurred_at = now;
        dedupe_key = dedupe_key source service resource symptom;
        raw_payload_ref = alert.raw_payload_ref;
      }

  -- `normalize`; the record's two default times are read as one.
  unfoldable pub normalize : Alert → Action IncidentRecord
  normalize alert = do
    occurred ← utcnow env
    id ← fresh_id env "inc_" 12
    now ← utcnow env
    pure (new_incident id (envelope_of alert occurred) now)

  -- `hot_state.set_if_absent(f"dedupe:{key}", incident_id, expire_seconds=300)`
  unfoldable pub first_seen : IncidentRecord → Action Bool
  first_seen incident w =
      let (fresh, hot) =
        set_if_absent (concat ("dedupe:" ∷ incident.metadata.dedupe_key ∷ [])) incident.incident_id
          300 w.hot in
      (ok fresh, record w { hot = hot })

  -- `existing = …; if existing is None: raise HTTPException(409, …)`
  unfoldable pub existing : IncidentRecord → Action IncidentRecord
  existing incident = do
    found ← get_by_dedupe_key incident.metadata.dedupe_key
    or_raise found (http 409 "duplicate incident")

  -- `ingest`
  unfoldable pub ingest : Alert → Action IncidentRecord
  ingest alert = do
    incident ← normalize alert
    fresh ← first_seen incident
    if fresh then upsert env incident else existing incident

  -- `{"incident_id": …, "dedupe_key": …, "request_id": …}`
  abbrev pub alert_event : IncidentRecord → String → Fields
  alert_event r request_id =
      about r.incident_id
        (field "dedupe_key" (text r.metadata.dedupe_key) (field "request_id" (text request_id) end))

  -- `create_alert`
  unfoldable pub create_alert : String → Alert → Action IncidentRecord
  create_alert request_id alert = do
    incident ← normalize alert
    fresh ← first_seen incident
    if fresh
        then (do
          created ← upsert env incident
          append_audit env "alert_created" (alert_event created request_id)
          pure created)
        else (do
          found ← existing incident
          append_audit env "alert_deduplicated" (alert_event found request_id)
          pure found)
