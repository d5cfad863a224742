-- ===== src/Scoring/Totals.antt =====
-- What the score of a replay counts over its rounds.
use ai_assisted_aws_incident.Prelude.{◌+◌, ◌≤◌, ◌≡◌, ap, subst, ◌∙◌, String, List, arith, length}
use ai_assisted_aws_incident.Environ.{Environ}
use ai_assisted_aws_incident.Policy.{PolicyEngine}
use ai_assisted_aws_incident.Workflow.{Agents}
use ai_assisted_aws_incident.World.{World, ok, >>=-eq-ok}
use ai_assisted_aws_incident.Scoring.{at_least, ratio, compute_score, Fixture, ReplayScore}
use ai_assisted_aws_incident.Scoring.Keys.{length-keys, Distinct, Keyed-Distinct}
use ai_assisted_aws_incident.Scoring.Laws.{routed}
use ai_assisted_aws_incident.Scoring.Replay.{Tally, nothing_tallied, replay_fixtures, run_replay}
use ai_assisted_aws_incident.Scoring.Rounds.{
  Round, rollbacks, denials, total, PlaysAll, PlaysAll-found,
}
use ai_assisted_aws_incident.Scoring.Added.{Added, answered, replay_fixtures-Added}

-- What the score of a replay says of its data set, whose calls are these, and of its rounds.
pub record Totals (fs : List Fixture) (keys : List String) (rounds : List Round) (s : ReplayScore)
    : Type 0 where
  pub distinct : Distinct fs keys
  pub repeated : s.duplicate_call_rate.count + length keys ≡ length fs
  pub evidence : s.duplicate_call_rate.of ≡ total (λ r. length r.found) rounds
  pub complete : s.evidence_completeness ≡ ratio 1 1
  pub routing : s.routing_precision ≡ ratio (routed fs) (length fs)
  pub violations : s.policy_violations ≡ total (λ r. denials r.decisions) rounds
  pub rolled_back :
      s.rollback_frequency
      ≡ ratio
          (total (λ r. rollbacks r.actions) rounds)
          (at_least (total (λ r. length r.actions) rounds))

totals :
    (fs : List Fixture) (rounds : List Round) (t : Tally)
    → 1 ≤ length fs
    → length fs ≤ total (λ r. length r.found) rounds
    → Added fs rounds nothing_tallied t
    → Totals fs (t.counts).seen rounds (
        compute_score
          (t.counts).matches
          (length fs)
          (t.counts).evidence_items
          (t.counts).duplicates
          (t.counts).violations
          t.rollback_count
          t.actions_executed)
unfolding compute_score
totals fs rounds t some_of found a = record {
  distinct = Keyed-Distinct fs a.keys;
  repeated = omega (arith, (a.keys).total, length-keys fs);
  evidence = ground (arith, a.evidence_items, some_of, found);
  complete = ground (arith, a.evidence_items, some_of, found);
  routing = grind (arith, a.matches, some_of);
  violations = omega (arith, a.violations);
  rolled_back =
      let rolled : t.rollback_count ≡ total (λ r. rollbacks r.actions) rounds =
        omega (arith, a.rollback_count) in
      let acted : t.actions_executed ≡ total (λ r. length r.actions) rounds =
        omega (arith, a.actions_executed) in
      ap (λ n. ratio n (at_least t.actions_executed)) rolled
      ∙ ap (λ n. ratio (total (λ r. rollbacks r.actions) rounds) (at_least n)) acted;
}

-- A replay that runs the agents on a data set that is not empty and ends well has played a round for each
-- incident, in order: the agents investigate it, the planner plans for it, and the policy decides on each
-- action of the plan. The score counts all the evidence, those incidents whose matched plan is the
-- expected one, the incidents less their distinct calls among the pieces of evidence found, the
-- denied actions, and the rollbacks among the planned actions.
pub run_replay-Totals :
    (env : Environ) (engine : PolicyEngine) (agents : Agents) (fs : List Fixture) (w : World)
    {s : ReplayScore} {v : World}
    → 1 ≤ length fs
    → run_replay env engine agents fs w ≡ (ok s, v)
    → (rounds : List Round) × (keys : List String) × PlaysAll env engine agents fs w rounds v
      × Totals fs keys rounds s
unfolding run_replay
run_replay-Totals env engine agents fs w {s} {v} some_of h =
    let (t, u, h₁, n₁) = >>=-eq-ok (replay_fixtures env engine agents fs nothing_tallied) _ w h in
    let (rounds, plays, added) = replay_fixtures-Added env engine agents fs nothing_tallied w h₁ in
    let found = PlaysAll-found env engine agents fs w rounds u plays in
    let (e, same) = answered _ s u v n₁ in
    (
      rounds,
      (t.counts).seen,
      subst (PlaysAll env engine agents fs w rounds) same plays,
      subst (Totals fs (t.counts).seen rounds) e (totals fs rounds t some_of found added),
    )
