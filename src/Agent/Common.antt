-- ===== src/Agent/Common.antt =====
-- What the agents share: the validation of answers, and the fallback behind a failed call.
use ai_assisted_aws_incident.Prelude.{suc, none, ℕ, ◌&&◌, String, Option, List, if◌then◌else◌}
use ai_assisted_aws_incident.Value.{Value}
use ai_assisted_aws_incident.Contracts.{EvidenceEntry}
use ai_assisted_aws_incident.Environ.{Environ}
use ai_assisted_aws_incident.Planner.{PlannerOutput, is_caught}
use ai_assisted_aws_incident.Router.{RouterOutput}
use ai_assisted_aws_incident.World.{World, Action, Result, ok, err, fresh_id, ◌>>=◌}

-- `TriageLLMOutput`
pub record TriageOutput : Type 0 where
  pub incident_type : String
  pub priority : String
  pub probable_domains : List String
  pub next_required_evidence : List String

-- `EvidenceLLMItem`
pub record EvidenceItem : Type 0 where
  pub source : String
  pub kind : String
  pub confidence : ℕ
  pub summary : String

-- `ChangeCorrelationLLMOutput`
pub record ChangeOutput : Type 0 where
  pub summary : String
  pub confidence : ℕ
  pub kind : String

-- `RCAHypothesisItem`
pub record RcaItem : Type 0 where
  pub hypothesis : String
  pub confidence : ℕ
  pub supporting_evidence_ids : List String

-- What the evidence agent collected, by key.
pub record Raw : Type 0 where
  pub metrics : Option String
  pub logs : Option String
  pub recent_changes : Option String
  pub topology : Option String

-- `model_validate` of the answers' models; `none` is the ValidationError.
pub record Schemas : Type 0 where
  pub triage_output : Value → Option TriageOutput
  pub evidence_output : Value → Option (List EvidenceItem)
  pub change_output : Value → Option ChangeOutput
  pub rca_output : Value → Option (List RcaItem)
  pub planner_output : Value → Option PlannerOutput
  pub router_output : Value → Option RouterOutput

-- The `except` clause of an agent, on how its `try` ended.
unfoldable pub or_fallback : {A : Type 0} → Environ → Action A → Result A × World → Result A × World
or_fallback env fallback (ok a, w) = (ok a, w)
or_fallback env fallback (err e, w) =
    if is_caught e && env.agent.agentic_stub_fallback then fallback w else (err e, w)

-- `EvidenceEntry(…)` with its fresh id; the time is that of the default.
unfoldable pub new_evidence : Environ → String → String → ℕ → String → Action EvidenceEntry
new_evidence env source kind confidence summary w =
    (fresh_id env "ev_" 10 >>= λ id. λ v. (
      ok (record {
        evidence_id = id;
        source = source;
        kind = kind;
        confidence = confidence;
        summary = summary;
        reference = none;
        created_at = env.clock v.clock_reads;
      }),
      record v { clock_reads = suc v.clock_reads },
    ))
      w
