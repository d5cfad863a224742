-- ===== src/Audit.antt =====
-- `AuditStore.append` and `list_events` of src/apps/api/routers/audit/store.py, with the database and in fallback
-- mode, and `get_incident_audit` of src/apps/api/main.py. Events are listed oldest first in the state.
-- Of rows with the same time, which SQL leaves in any order, the older comes first.
pub mod Laws
pub mod Tests
use ai_assisted_aws_incident.Prelude.{
  false, ℕ, ◌-◌, Bool, String, Option, none, some, List, [], ◌∷◌, ◌++◌, ◌==◌, ltb, eqb, length,
  take, drop, select, if◌then◌else◌,
}
use ai_assisted_aws_incident.Value.{Value, Fields, text, get}
use ai_assisted_aws_incident.Environ.{Environ}
use ai_assisted_aws_incident.World.{AuditEvent, Action, utcnow, modify, pure, ◌>>=◌, ◌>>◌}

-- `append`, by `_fallback_mode`: the answer has the first of the two times that it reads, and the row of the
-- table the second; in memory the answer is what is kept.
unfoldable pub append_event : Environ → Bool → String → Fields → Action AuditEvent
append_event env fallback_mode event_type payload = do
  now ← utcnow env
  let event : AuditEvent = record { event_type = event_type; payload = payload; created_at = now }
  if fallback_mode
      then modify (λ w. record w { audit = w.audit ++ event ∷ [] }) >> pure event
      else do
        stored ← utcnow env
        modify (λ w. record w { audit = w.audit ++ record event { created_at = stored } ∷ [] })
        pure event

-- `ORDER BY created_at DESC`
abbrev pub insert_desc : AuditEvent → List AuditEvent → List AuditEvent
insert_desc e [] = e ∷ []
insert_desc e (d ∷ ds) =
    let rest = insert_desc e ds in if ltb e.created_at d.created_at then d ∷ rest else e ∷ d ∷ ds

abbrev pub order_desc : List AuditEvent → List AuditEvent
order_desc [] = []
order_desc (e ∷ es) = insert_desc e (order_desc es)

abbrev pub reverse : List AuditEvent → List AuditEvent
reverse [] = []
reverse (e ∷ es) = reverse es ++ e ∷ []

-- `events[-limit:]`, which is all of them for a limit of 0
abbrev pub last_events : ℕ → List AuditEvent → List AuditEvent
last_events limit events = if eqb limit 0 then events else drop (length events - limit) events

-- `list_events`, by `_fallback_mode`
unfoldable pub list_events : Bool → ℕ → List AuditEvent → List AuditEvent
list_events fallback_mode limit events =
    if fallback_mode then reverse (last_events limit events) else take limit (order_desc events)

-- `payload.get("incident_id") == incident_id`
abbrev is_text : String → Option Value → Bool
is_text s (some (text t)) = t == s
is_text s _ = false

abbrev pub is_about : String → AuditEvent → Bool
is_about incident_id event = is_text incident_id (get "incident_id" event.payload)

-- `get_incident_audit`
unfoldable pub get_incident_audit : Bool → String → ℕ → List AuditEvent → List AuditEvent
unfolding list_events
get_incident_audit fallback_mode incident_id limit events =
    select (is_about incident_id) (list_events fallback_mode limit events)
