-- ===== src/Scoring/Added.antt =====
-- What the rounds of a replay add to its tally: the loops of src/eval/replay/replay_runner.py.
use ai_assisted_aws_incident.Prelude.{
  ◌+◌, ◌≡◌, refl, ap, subst, ◌∙◌, List, [], ◌∷◌, map, arith, length,
}
use ai_assisted_aws_incident.Contracts.{ActionRequest, EvidenceEntry, PolicyDecision, ResponsePlan}
use ai_assisted_aws_incident.Plans.{match_response_plan}
use ai_assisted_aws_incident.Environ.{Environ}
use ai_assisted_aws_incident.Planner
use ai_assisted_aws_incident.Policy.{PolicyEngine}
use ai_assisted_aws_incident.Workflow.{Agents}
use ai_assisted_aws_incident.World.{World, ok, >>=-eq-ok, pure}
use ai_assisted_aws_incident.Scoring.{add_seen, call_key, Fixture}
use ai_assisted_aws_incident.Scoring.Keys.{Keyed, Keyed-none, Keyed-one, Keyed-next}
use ai_assisted_aws_incident.Scoring.Laws.{no_shell, routed, routed-next}
use ai_assisted_aws_incident.Scoring.Replay.{
  tally_action, decide_action, Tally, replayed, investigate, judge, tally_fixture, replay_fixture,
  replay_fixtures,
}
use ai_assisted_aws_incident.Scoring.Rounds.{Round, rollbacks, denials, total, Judged, PlaysAll}

-- What the decisions on a plan's actions add to a tally.
record Decided (actions : List ActionRequest) (decisions : List PolicyDecision) (s t : Tally)
    : Type 0 where
  matches : (t.counts).matches ≡ (s.counts).matches
  evidence_items : (t.counts).evidence_items ≡ (s.counts).evidence_items
  duplicates : (t.counts).duplicates ≡ (s.counts).duplicates
  seen : (t.counts).seen ≡ (s.counts).seen
  violations : (t.counts).violations ≡ (s.counts).violations + denials decisions
  rollback_count : t.rollback_count ≡ s.rollback_count + rollbacks actions
  actions_executed : t.actions_executed ≡ s.actions_executed + length actions

-- What the rounds of a data set add to it.
pub record Added (fs : List Fixture) (rounds : List Round) (s t : Tally) : Type 0 where
  pub matches : (t.counts).matches ≡ (s.counts).matches + routed fs
  pub evidence_items :
      (t.counts).evidence_items ≡ (s.counts).evidence_items + total (λ r. length r.found) rounds
  pub keys :
      Keyed
        (map call_key fs)
        (s.counts).duplicates
        (s.counts).seen
        (t.counts).duplicates
        (t.counts).seen
  pub violations :
      (t.counts).violations ≡ (s.counts).violations + total (λ r. denials r.decisions) rounds
  pub rollback_count : t.rollback_count ≡ s.rollback_count + total (λ r. rollbacks r.actions) rounds
  pub actions_executed :
      t.actions_executed ≡ s.actions_executed + total (λ r. length r.actions) rounds

pub answered : {A : Type 0} (a b : A) (w v : World) → pure a w ≡ (ok b, v) → (a ≡ b) × (w ≡ v)
answered a b w v h = (ground arith, ground arith)

module _ (env : Environ) (engine : PolicyEngine) (agents : Agents) where
  judge-Decided :
      (plan : ResponsePlan) (actions : List ActionRequest) (s : Tally) (w : World) {t : Tally}
      {v : World}
      → judge env engine agents plan actions s w ≡ (ok t, v)
      → (decisions : List PolicyDecision) × Judged env engine agents plan actions decisions w v
        × Decided actions decisions s t
  unfolding judge
  judge-Decided plan [] s w {t} {v} h =
      let (e, same) = answered s t w v h in
      (
        [],
        (refl, same),
        subst (Decided [] [] s) e (record {
          matches = refl;
          evidence_items = refl;
          duplicates = refl;
          seen = refl;
          violations = omega arith;
          rollback_count = omega arith;
          actions_executed = omega arith;
        }),
      )
  judge-Decided plan (a ∷ rest) s w {t} {v} h =
      let (d, u, h₁, n₁) = >>=-eq-ok (decide_action env engine agents plan a) _ w h in
      let (more, judged, added) =
        judge-Decided plan rest (tally_action env engine agents d a s) u n₁ in
      (
        d ∷ more,
        (d, more, u, refl, h₁, judged),
        record {
          matches = added.matches;
          evidence_items = added.evidence_items;
          duplicates = added.duplicates;
          seen = added.seen;
          violations = ground (arith, added.violations);
          rollback_count = ground (arith, added.rollback_count);
          actions_executed = omega (arith, added.actions_executed);
        },
      )

  -- A round, behind which the others go on.
  round-Added :
      (f : Fixture) (fs : List Fixture) (found : List EvidenceEntry) (actions : List ActionRequest)
      (decisions : List PolicyDecision) (rounds : List Round) (s t u : Tally)
      → Decided actions decisions (tally_fixture env engine agents f (length found) s) t
      → Added fs rounds t u
      → Added
          (f ∷ fs)
          (record { found = found; actions = actions; decisions = decisions } ∷ rounds)
          s
          u
  round-Added f fs found actions decisions rounds s t u d a = record {
    matches = a.matches ∙ ap (λ n. n + routed fs) d.matches ∙ routed-next f fs (s.counts).matches;
    evidence_items = omega (arith, d.evidence_items, a.evidence_items);
    keys = Keyed-next (Keyed-one (call_key f) (s.counts).duplicates (s.counts).seen) (
        subst
          (λ n.
            Keyed (map call_key fs) n (add_seen (call_key f) (s.counts).seen) (u.counts).duplicates
              (u.counts).seen)
          d.duplicates
          (subst
            (λ seen.
              Keyed (map call_key fs) (t.counts).duplicates seen (u.counts).duplicates
                (u.counts).seen)
            d.seen a.keys));
    violations = ground (arith, no_shell f.severity f.symptom, d.violations, a.violations);
    rollback_count = omega (arith, d.rollback_count, a.rollback_count);
    actions_executed = omega (arith, d.actions_executed, a.actions_executed);
  }

  pub replay_fixtures-Added :
      (fs : List Fixture) (s : Tally) (w : World) {t : Tally} {v : World}
      → replay_fixtures env engine agents fs s w ≡ (ok t, v)
      → (rounds : List Round) × PlaysAll env engine agents fs w rounds v × Added fs rounds s t
  unfolding replay_fixtures replay_fixture
  replay_fixtures-Added [] s w {t} {v} h =
      let (e, same) = answered s t w v h in
      (
        [],
        (refl, same),
        subst (Added [] [] s) e (record {
          matches = omega arith;
          evidence_items = omega arith;
          keys = Keyed-none (s.counts).duplicates (s.counts).seen;
          violations = omega arith;
          rollback_count = omega arith;
          actions_executed = omega arith;
        }),
      )
  replay_fixtures-Added (f ∷ fs) s w {t} {v} h =
      let (next, u, here, after) = >>=-eq-ok (replay_fixture env engine agents f s) _ w h in
      let (i, v₁, h₁, n₁) = >>=-eq-ok (replayed env engine agents f) _ w here in
      let (j, v₂, h₂, n₂) = >>=-eq-ok (investigate env engine agents i) _ v₁ n₁ in
      let (plan, v₃, h₃, n₃) =
        >>=-eq-ok (ai_assisted_aws_incident.Planner.run env agents.planner_llm j) _ v₂ n₂ in
      let (decisions, judged, decided) =
        judge-Decided (match_response_plan f.severity f.symptom) (plan.0).actions
          (tally_fixture env engine agents f (length j.evidence) s) v₃ n₃ in
      let (rounds, rest, added) = replay_fixtures-Added fs next u after in
      let r : Round = record {
        found = j.evidence;
        actions = (plan.0).actions;
        decisions = decisions;
      } in
      (
        r ∷ rounds,
        (
          r,
          rounds,
          u,
          refl,
          record {
            incident = i;
            investigated = j;
            planned = plan;
            started = v₁;
            gathered = v₂;
            proposed = v₃;
            starts = h₁;
            gathers = h₂;
            proposes = h₃;
            found = refl;
            actions = refl;
            judged = judged;
          },
          rest,
        ),
        round-Added f fs j.evidence (plan.0).actions decisions rounds s next t decided added,
      )
