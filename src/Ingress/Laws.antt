-- ===== src/Ingress/Laws.antt =====
-- What an ingested alert looks like, and what a repeated one does.
use ai_assisted_aws_incident.Ingress.{
  existing, first_seen, dedupe_key, envelope_of, ingest, known_sources, severity_of, Alert,
  normalize, canonical_source,
}
use ai_assisted_aws_incident.Prelude.{
  ◌≢◌, or_text, ◌≡◌, refl, ◌⊎◌, inl, inr, Bool, true, false, String, Option, none, some, [], ◌∷◌,
  any, ◌==◌, arith, concat, Option-cases, select, All, ap, if◌then◌else◌, lower, strip, or_else,
  is_some,
}
use ai_assisted_aws_incident.Contracts.{IncidentRecord, IncidentEnvelope, new_incident, opened}
use ai_assisted_aws_incident.Environ.{Environ}
use ai_assisted_aws_incident.Dict.{lookup, lookup-insert_self}
use ai_assisted_aws_incident.HotState.{get, active, set_if_absent}
use ai_assisted_aws_incident.World.{World, http, ok, err, utcnow, fresh_id}
use ai_assisted_aws_incident.Store.Recency.{Newest, first-Newest, first-missing}
use ai_assisted_aws_incident.Store.{
  is_invalid, bump, upsert, get_by_dedupe_key, by_recency, rows, first,
}

-- One of the four levels that the response plans read.
pub data IsSeverity : String → Type 0 where
  sev1 : IsSeverity "sev1"
  sev2 : IsSeverity "sev2"
  sev3 : IsSeverity "sev3"
  sev4 : IsSeverity "sev4"

if-both : {A : Type 0} (P : A → Type 0) (b : Bool) {s d : A} → P s → P d → P (if b then s else d)
if-both P true hs hd = hs
if-both P false hs hd = hd

severity_of-IsSeverity : (raw : String) → IsSeverity (severity_of raw)
severity_of-IsSeverity raw =
    if-both IsSeverity _ sev1
      (if-both IsSeverity _ sev2 (if-both IsSeverity _ sev3 (if-both IsSeverity _ sev4 sev3)))

if-keeps :
    (P : String → Bool) (b : Bool) (s d : String)
    → P s ≡ b
    → P d ≡ true
    → P (if b then s else d) ≡ true
if-keeps P true s d hs hd = hs
if-keeps P false s d hs hd = hd

canonical_source-known :
    (raw : Option String) → any (λ s. s == canonical_source raw) known_sources ≡ true
unfolding canonical_source
canonical_source-known raw =
    if-keeps (λ x. any (λ s. s == x) known_sources) _
      (lower (strip (or_text (or_else raw "") "webhook"))) "webhook" refl refl

-- An envelope in canonical form.
pub record IsCanonical (env : Environ) (e : IncidentEnvelope) : Type 0 where
  pub severity : IsSeverity e.severity
  pub source : any (λ s. s == e.source) known_sources ≡ true
  pub key : e.dedupe_key ≡ dedupe_key env e.source e.service e.resource e.symptom

module _ (env : Environ) where
  -- The record that `normalize` makes of any alert is open and at version 1, has one of the four
  -- severities, a known source, and the key of its own four canonical fields.
  pub normalize-IsCanonical :
      (alert : Alert) (w : World)
      → (r : IncidentRecord) × ((normalize env alert w).0 ≡ ok r)
        × (r.state ≡ opened)
        × (r.version ≡ 1)
        × IsCanonical env r.metadata
  unfolding normalize envelope_of new_incident utcnow fresh_id
  normalize-IsCanonical alert w = (
    _,
    refl,
    refl,
    refl,
    record {
      severity = severity_of-IsSeverity (lower (or_else alert.severity "warning"));
      source = canonical_source-known (some (or_else alert.source "webhook"));
      key = refl;
    },
  )

  -- A severity that is written in its canonical form already, "sev2", is stored as "sev3".
  pub normalize-sev2 :
      (alert : Alert) (w : World)
      → alert.severity ≡ some "sev2"
      → (r : IncidentRecord) × ((normalize env alert w).0 ≡ ok r) × (r.metadata.severity ≡ "sev3")
  unfolding normalize envelope_of new_incident utcnow fresh_id lower
  normalize-sev2 alert w h = (_, refl, ap (λ s. severity_of (lower (or_else s "warning"))) h)

module _ (env : Environ) (alert : Alert) (w : World) where
  -- An alert whose key Redis does not hold becomes a new row, and its key is held from then on.
  pub ingest-fresh :
      {r : IncidentRecord} {v : World}
      → normalize env alert w ≡ (ok r, v)
      → lookup (concat ("dedupe:" ∷ r.metadata.dedupe_key ∷ [])) (active v.hot) ≡ none
      → lookup r.incident_id v.incidents ≡ none
      → (kept : IncidentRecord) × ((ingest env alert w).0 ≡ ok kept)
        × (kept.metadata ≡ r.metadata)
        × (lookup r.incident_id (ingest env alert w).1.incidents ≡ some kept)
        × (lookup
              (concat ("dedupe:" ∷ r.metadata.dedupe_key ∷ []))
              (active (ingest env alert w).1.hot)
            ≡ some r.incident_id)
  unfolding ingest first_seen set_if_absent upsert get utcnow bump is_invalid
  ingest-fresh {r} {v} h missing free = (
    record r { updated_at = env.clock v.clock_reads },
    grind (arith, lookup-insert_self),
    refl,
    grind (arith, lookup-insert_self),
    grind (arith, lookup-insert_self),
  )

  -- A repeated alert, one whose key the hot state holds, writes nothing and gets the newest stored incident
  -- of its key, or 409 if no stored incident has that key.
  pub ingest-duplicate :
      {r : IncidentRecord} {v : World}
      → normalize env alert w ≡ (ok r, v)
      → is_some (lookup (concat ("dedupe:" ∷ r.metadata.dedupe_key ∷ [])) (active v.hot)) ≡ true
      → ((ingest env alert w).1 ≡ v)
        × ((((ingest env alert w).0 ≡ err (http 409 "duplicate incident"))
              × All (λ s. s.metadata.dedupe_key ≢ r.metadata.dedupe_key) (rows v.incidents))
            ⊎ ((found : IncidentRecord) × ((ingest env alert w).0 ≡ ok found)
                × Newest r.metadata.dedupe_key (rows v.incidents) found))
  unfolding ingest first_seen set_if_absent existing get_by_dedupe_key
  ingest-duplicate {r} {v} h seen =
      let key = r.metadata.dedupe_key in
      elim (Option-cases
        (first (by_recency (select (λ s. s.metadata.dedupe_key == key) (rows v.incidents))))) [
          | inl missing ↦
              (ground arith, inl (ground arith, first-missing key (rows v.incidents) missing))
          | inr (found, e) ↦
              (ground arith, inr (found, ground arith, first-Newest key (rows v.incidents) found e))
        ]
