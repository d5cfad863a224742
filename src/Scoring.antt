-- ===== src/Scoring.antt =====
-- src/eval/scoring/scorecard.py, and `replay_score` of src/apps/api/routers/router/app.py. A float that is
-- the quotient of two counts is the pair of them; the data set is read with all its keys.
pub mod Laws
pub mod Keys
pub mod Replay
pub mod Rounds
pub mod Added
pub mod Totals
pub mod Tests
use ai_assisted_aws_incident.Prelude.{
  ℕ, suc, ◌+◌, Bool, true, false, String, List, [], ◌∷◌, ◌++◌, ◌==◌, any, eqb, leb, length, concat,
  if◌then◌else◌,
}
use ai_assisted_aws_incident.Contracts.{ActionType, run_shell}
use ai_assisted_aws_incident.Plans.{match_response_plan}

-- `a / b`
pub record Ratio : Type 0 where
  pub count : ℕ
  pub of : ℕ

pub record ReplayScore : Type 0 where
  pub routing_precision : Ratio
  pub evidence_completeness : Ratio
  pub duplicate_call_rate : Ratio
  pub policy_violations : ℕ
  pub action_correctness : Ratio
  pub rollback_frequency : Ratio

abbrev pub ratio : ℕ → ℕ → Ratio
ratio a b = record { count = a; of = b }

-- `max(n, 1)`
abbrev pub at_least : ℕ → ℕ
at_least n = if eqb n 0 then 1 else n

unfoldable pub compute_score : ℕ → ℕ → ℕ → ℕ → ℕ → ℕ → ℕ → ReplayScore
compute_score matches total evidence_items duplicates violations rollback_count actions_executed =
    record {
      routing_precision = if eqb total 0 then ratio 0 1 else ratio matches total;
      evidence_completeness =
          if leb (at_least total) evidence_items
          then ratio 1 1
          else ratio evidence_items (at_least total);
      duplicate_call_rate = ratio duplicates (at_least evidence_items);
      policy_violations = violations;
      action_correctness = if eqb violations 0 then ratio 1 1 else ratio 0 1;
      rollback_frequency = ratio rollback_count (at_least actions_executed);
    }

-- An incident of the data set.
pub record Fixture : Type 0 where
  pub incident_id : String
  pub source : String
  pub severity : String
  pub service : String
  pub resource : String
  pub symptom : String
  pub expected_route : String

-- What the loop of `replay_score` counts.
pub record Counts : Type 0 where
  pub matches : ℕ
  pub evidence_items : ℕ
  pub duplicates : ℕ
  pub violations : ℕ
  pub seen : List String

abbrev pub nothing_counted : Counts
nothing_counted = record {
  matches = 0;
  evidence_items = 0;
  duplicates = 0;
  violations = 0;
  seen = [];
}

-- `f"{incident['service']}:{incident['resource']}"`
abbrev pub call_key : Fixture → String
call_key f = concat (f.service ∷ ":" ∷ f.resource ∷ [])

-- `n += 1`, under a test
abbrev pub count_if : Bool → ℕ → ℕ
count_if b n = if b then suc n else n

abbrev pub is_shell : ActionType → Bool
is_shell run_shell = true
is_shell _ = false

-- `key in seen`, and `seen.add(key)`
abbrev pub is_seen : String → List String → Bool
is_seen key seen = any (λ k. k == key) seen

abbrev pub add_seen : String → List String → List String
add_seen key seen = if is_seen key seen then seen else seen ++ key ∷ []

unfoldable pub count_fixture : Fixture → Counts → Counts
count_fixture f c =
    let plan = match_response_plan f.severity f.symptom in
    record {
      matches = count_if (plan.plan_id == f.expected_route) c.matches;
      evidence_items = c.evidence_items + 3;
      duplicates = count_if (is_seen (call_key f) c.seen) c.duplicates;
      violations = count_if (any is_shell plan.allowed_actions) c.violations;
      seen = add_seen (call_key f) c.seen;
    }

unfoldable pub count_fixtures : List Fixture → Counts → Counts
count_fixtures [] c = c
count_fixtures (f ∷ fs) c = count_fixtures fs (count_fixture f c)

-- `replay_score`
unfoldable pub replay_score : List Fixture → ReplayScore
replay_score fixtures =
    let c = count_fixtures fixtures nothing_counted in
    compute_score c.matches (length fixtures) c.evidence_items c.duplicates c.violations 0 0
