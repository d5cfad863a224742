-- ===== src/Ingress/Tests.antt =====
-- Alerts, the first time and again.
use ai_assisted_aws_incident.Ingress.{
  canonical_source, dedupe_key, envelope_of, ingest, Alert, normalize,
}
use ai_assisted_aws_incident.Store.Recency.{Newest}
use ai_assisted_aws_incident.Prelude.{
  ◌≢◌, All, lower, strip, strip_left, strip_right, is_space, lower_char, ◌≡◌, ◌⊎◌, refl, true, none,
  some, [], ◌∷◌, concat,
}
use ai_assisted_aws_incident.Contracts.{IncidentRecord, investigating, new_incident}
use ai_assisted_aws_incident.Dict.{lookup}
use ai_assisted_aws_incident.World.{World, http, ok, err, fresh_id, utcnow}
use ai_assisted_aws_incident.Ingress.Laws.{ingest-duplicate}
use ai_assisted_aws_incident.Samples.{env, empty_world, incident, value_or}

abbrev alert : Alert
alert = record {
  source = some "Grafana";
  severity = some "sev2";
  service = some "Checkout-Service";
  resource = some "checkout-service";
  symptom = some "errors";
  raw_payload_ref = none;
}

abbrev made : IncidentRecord
made = value_or (normalize env alert empty_world).0 (incident investigating)

abbrev made_world : World
made_world = (normalize env alert empty_world).1

-- A stored incident of the alert's key.
abbrev earlier : IncidentRecord
earlier = record (incident investigating) { incident_id = "inc_0"; metadata = made.metadata }

-- A world in which the key of the alert is taken.
abbrev seen_world : World
seen_world = record empty_world {
  incidents = ("inc_0", earlier) ∷ [];
  hot = record {
    up = true;
    seconds = 0;
    remote = (concat ("dedupe:" ∷ made.metadata.dedupe_key ∷ []), "inc_0") ∷ [];
    deadlines = (concat ("dedupe:" ∷ made.metadata.dedupe_key ∷ []), 300) ∷ [];
    fallback = [];
  };
}

abbrev made_again : World
made_again = (normalize env alert seen_world).1

ingest-duplicate_example :
    ((ingest env alert seen_world).1 ≡ made_again)
    × ((((ingest env alert seen_world).0 ≡ err (http 409 "duplicate incident"))
          × All (λ s. s.metadata.dedupe_key ≢ made.metadata.dedupe_key) (earlier ∷ []))
        ⊎ ((found : IncidentRecord) × ((ingest env alert seen_world).0 ≡ ok found)
            × Newest made.metadata.dedupe_key (earlier ∷ []) found))
unfolding normalize fresh_id utcnow lookup new_incident envelope_of dedupe_key canonical_source
    lower strip strip_left strip_right is_space lower_char
ingest-duplicate_example =
    ingest-duplicate env alert seen_world {r = made} {v = made_again} refl refl
