-- ===== src/Scoring/Laws.antt =====
-- What the score of a data set counts.
use ai_assisted_aws_incident.Prelude.{
  ℕ, ◌+◌, ◌*◌, ◌≤◌, ◌≡◌, refl, ◌∙◌, Bool, false, String, List, [], ◌∷◌, ◌==◌, any, length, map,
  select, arith,
}
use ai_assisted_aws_incident.Plans.{match_response_plan}
use ai_assisted_aws_incident.Scoring.{
  ratio, ReplayScore, Fixture, Counts, nothing_counted, call_key, count_if, is_shell, count_fixture,
  count_fixtures, compute_score, replay_score,
}
use ai_assisted_aws_incident.Scoring.Keys.{
  length-keys, Keyed, Keyed-none, Keyed-one, Keyed-next, Distinct, Keyed-Distinct,
}

pub no_shell :
    (severity symptom : String)
    → any is_shell (match_response_plan severity symptom).allowed_actions ≡ false
unfolding match_response_plan
no_shell severity symptom = ground arith

-- The fixtures that get the plan that they expect.
abbrev pub is_routed : Fixture → Bool
is_routed f = (match_response_plan f.severity f.symptom).plan_id == f.expected_route

abbrev pub routed : List Fixture → ℕ
routed fs = length (select is_routed fs)

pub routed-next :
    (f : Fixture) (fs : List Fixture) (n : ℕ)
    → count_if (is_routed f) n + routed fs ≡ n + routed (f ∷ fs)
routed-next f fs n = ground arith

-- What the loop adds to the counts.
record Tallied (fs : List Fixture) (b c : Counts) : Type 0 where
  matches : c.matches ≡ b.matches + routed fs
  evidence_items : c.evidence_items ≡ b.evidence_items + 3 * length fs
  keys : Keyed (map call_key fs) b.duplicates b.seen c.duplicates c.seen
  violations : c.violations ≡ b.violations

count_fixtures-Tallied : (fs : List Fixture) (c : Counts) → Tallied fs c (count_fixtures fs c)
unfolding count_fixtures count_fixture
count_fixtures-Tallied [] c = record {
  matches = omega arith;
  evidence_items = omega arith;
  keys = Keyed-none c.duplicates c.seen;
  violations = refl;
}
count_fixtures-Tallied (f ∷ fs) c =
    let rest = count_fixtures-Tallied fs (count_fixture f c) in
    record {
      matches = rest.matches ∙ routed-next f fs c.matches;
      evidence_items = omega (arith, rest.evidence_items);
      keys = Keyed-next (Keyed-one (call_key f) c.duplicates c.seen) rest.keys;
      violations = rest.violations ∙ ground (arith, no_shell f.severity f.symptom);
    }

-- What the score of a data set says of it, whose calls are these, each once.
pub record Scored (fs : List Fixture) (keys : List String) (s : ReplayScore) : Type 0 where
  pub distinct : Distinct fs keys
  pub repeated : s.duplicate_call_rate.count + length keys ≡ length fs
  pub evidence : s.duplicate_call_rate.of ≡ 3 * length fs
  pub routing : s.routing_precision ≡ ratio (routed fs) (length fs)
  pub lawful : s.policy_violations ≡ 0

-- The score of a data set that is not empty: the routing precision is the share of the incidents whose matched
-- plan is the expected one, the duplicates are the incidents less their distinct calls of service
-- and resource, among three pieces of evidence for each, and no policy is violated.
pub replay_score-Scored :
    (fs : List Fixture) → 1 ≤ length fs → (keys : List String) × Scored fs keys (replay_score fs)
unfolding replay_score compute_score
replay_score-Scored fs some_of =
    let t = count_fixtures-Tallied fs nothing_counted in
    (
      (count_fixtures fs nothing_counted).seen,
      record {
        distinct = Keyed-Distinct fs t.keys;
        repeated = omega (arith, (t.keys).total, length-keys fs);
        evidence = ground (arith, t.evidence_items, some_of);
        routing = grind (arith, t.matches, some_of);
        lawful = t.violations;
      },
    )
