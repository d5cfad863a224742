-- ===== src/Readiness.antt =====
-- src/src/readiness/workspace.py: the readiness of the checkout service, whose counts are of the incidents.
use ai_assisted_aws_incident.Prelude.{
  ◌+◌, ◌≡◌, Bool, true, false, not, String, List, [], ◌∷◌, ◌==◌, is_empty, length, select, arith,
  if◌then◌else◌,
}
use ai_assisted_aws_incident.Value.{
  Value, Items, nil, cons, Fields, end, field, text, int, pos, dict, list, text_items,
}
use ai_assisted_aws_incident.Contracts.{IncidentRecord, IncidentState, resolved}

abbrev pub is_resolved_state : IncidentState → Bool
is_resolved_state resolved = true
is_resolved_state _ = false

-- `checkout_incidents`, `unresolved` and `resolved`
abbrev pub checkout_incidents : List IncidentRecord → List IncidentRecord
checkout_incidents incidents = select (λ i. i.metadata.service == "checkout-service") incidents

abbrev pub unresolved_of : List IncidentRecord → List IncidentRecord
unresolved_of incidents =
    select (λ i. not (is_resolved_state i.state)) (checkout_incidents incidents)

abbrev pub resolved_of : List IncidentRecord → List IncidentRecord
resolved_of incidents = select (λ i. is_resolved_state i.state) (checkout_incidents incidents)

abbrev count : List IncidentRecord → Value
count xs = int (pos (length xs))

abbrev texts : List String → Value
texts xs = list (text_items xs)

abbrev risk : String → String → String → String → Value
risk id severity owner summary = dict (
    field "id" (text id) (
      field "severity" (text severity) (
        field "owner" (text owner)
          (field "status" (text "open") (field "summary" (text summary) end)))))

abbrev progress : String → String → Value
progress item status = dict (field "item" (text item) (field "status" (text status) end))

abbrev pub slo_summary : List IncidentRecord → Fields
slo_summary incidents = field "checkout_success_rate" (text ">= 99.5%") (
    field "p95_latency" (text "< 300 ms") (
      field "error_rate" (text "< 1%") (
        field "current_incidents" (count (checkout_incidents incidents))
          (field "unresolved_incidents" (count (unresolved_of incidents)) end))))

abbrev observability_readiness : Fields
observability_readiness = field "status" (text "partial") (
    field "coverage"
      (texts
        ("business KPI endpoint" ∷ "latency metric" ∷ "error-rate metric" ∷ "audit trail" ∷ []))
      (field "gaps"
        (texts (
          "AWS dashboard wiring pending"
          ∷ "synthetic checkout probes not yet enforced as release gate" ∷ []))
        end))

abbrev runbook_coverage : Fields
runbook_coverage = field "status" (text "ready-for-demo") (
    field "covered"
      (texts ("deployment regression" ∷ "rollback approval" ∷ "post-action verification" ∷ []))
      (field "missing" (texts ("database outage" ∷ "regional dependency impairment" ∷ [])) end))

abbrev open_risks : Items
open_risks =
    cons
      (risk "RISK-CHECKOUT-CANARY" "high" "application owner"
        "Checkout deployments need an automated canary gate before full promotion.")
      (cons
        (risk "RISK-AWS-DASHBOARD" "medium" "operations"
          "AWS CloudWatch evidence is available only when AWS adapters are configured.")
        nil)

abbrev pub resilience_test_status : List IncidentRecord → Fields
resilience_test_status incidents = field "last_scenario" (text "checkout deployment regression") (
    field "resolved_runs" (count (resolved_of incidents)) (
      field "status" (text (if is_empty (resolved_of incidents) then "not-run" else "passing"))
        end))

abbrev enablement_progress : Items
enablement_progress = cons (progress "Workload criticality documented" "complete") (
    cons (progress "Incident runbook documented" "complete") (
      cons (progress "AWS adapter configuration" "in-progress")
        (cons (progress "Resilience tests beyond deployment regression" "planned") nil)))

-- `build_checkout_readiness`
unfoldable pub build_checkout_readiness : List IncidentRecord → Fields
build_checkout_readiness incidents = field "workload" (text "checkout-service") (
    field "criticality" (text "business-critical customer checkout") (
      field "availability_target" (text "99.9% monthly successful checkout journey availability") (
        field "rto" (text "15 minutes") (
          field "rpo" (text "0 minutes for committed orders; payment retries must be idempotent") (
            field "slo_summary" (dict (slo_summary incidents)) (
              field "observability_readiness" (dict observability_readiness) (
                field "runbook_coverage" (dict runbook_coverage) (
                  field "open_risks" (list open_risks) (
                    field "resilience_test_status" (dict (resilience_test_status incidents)) (
                      field "problem_management_actions"
                        (texts (
                          "Add checkout canary release gate."
                          ∷ "Track recurrence count for deployment-related checkout incidents."
                          ∷ "Review rollback approval latency after each game day." ∷ []))
                        (field "enablement_progress" (list enablement_progress) end)))))))))))

-- The incidents of the checkout service are those that are resolved and those that are not.
readiness-counts :
    (incidents : List IncidentRecord)
    → length (checkout_incidents incidents)
      ≡ length (unresolved_of incidents) + length (resolved_of incidents)
readiness-counts [] = omega arith
readiness-counts (i ∷ incidents) = ground (arith, readiness-counts incidents)
