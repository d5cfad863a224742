-- ===== src/Scoring/Rounds.antt =====
-- The rounds of a replay that runs the agents: `run_replay` of src/eval/replay/replay_runner.py.
use ai_assisted_aws_incident.Prelude.{
  ℕ, ◌+◌, ◌≤◌, ◌≡◌, sym, subst, not, List, [], ◌∷◌, ◌++◌, arith, length, length-append, select,
}
use ai_assisted_aws_incident.Contracts.{
  ActionGraph, ActionRequest, EvidenceEntry, IncidentRecord, PolicyDecision, ResponsePlan,
}
use ai_assisted_aws_incident.Value.{Fields}
use ai_assisted_aws_incident.Plans.{match_response_plan}
use ai_assisted_aws_incident.Environ.{Environ}
use ai_assisted_aws_incident.Planner
use ai_assisted_aws_incident.Policy.{PolicyEngine}
use ai_assisted_aws_incident.Workflow.{Agents}
use ai_assisted_aws_incident.World.{World, ok, >>=-eq-ok, pure}
use ai_assisted_aws_incident.Scoring.{Fixture}
use ai_assisted_aws_incident.Scoring.Replay.{decide_action, investigate, is_rollback, replayed}

-- What a round found, what it planned, and what the policy decided on that.
pub record Round : Type 0 where
  pub found : List EvidenceEntry
  pub actions : List ActionRequest
  pub decisions : List PolicyDecision

-- The numbers of the rollbacks and of the denials.
abbrev pub rollbacks : List ActionRequest → ℕ
rollbacks actions = length (select (λ a. is_rollback a.action_type) actions)

abbrev pub denials : List PolicyDecision → ℕ
denials decisions = length (select (λ d. not d.allowed) decisions)

abbrev pub total : (Round → ℕ) → List Round → ℕ
total n [] = 0
total n (r ∷ rounds) = n r + total n rounds

module _ (env : Environ) (engine : PolicyEngine) (agents : Agents) where
  -- The policy decides on the actions one after the other.
  abbrev pub Judged :
      ResponsePlan → List ActionRequest → List PolicyDecision → World → World → Type 0
  Judged plan [] decisions w v = (decisions ≡ []) × (w ≡ v)
  Judged plan (a ∷ rest) decisions w v =
      (d : PolicyDecision) × (more : List PolicyDecision) × (u : World) × (decisions ≡ d ∷ more)
      × (decide_action env engine agents plan a w ≡ (ok d, u))
      × Judged plan rest more u v

  -- The agents investigate the incident of a fixture, the planner plans for it, and the policy decides.
  pub record Plays (f : Fixture) (w : World) (r : Round) (v : World) : Type 0 where
    pub incident : IncidentRecord
    pub investigated : IncidentRecord
    pub planned : ActionGraph × IncidentRecord
    pub started : World
    pub gathered : World
    pub proposed : World
    pub starts : replayed env engine agents f w ≡ (ok incident, started)
    pub gathers : investigate env engine agents incident started ≡ (ok investigated, gathered)
    pub proposes :
        ai_assisted_aws_incident.Planner.run env agents.planner_llm investigated gathered
        ≡ (ok planned, proposed)
    pub found : r.found ≡ investigated.evidence
    pub actions : r.actions ≡ (planned.0).actions
    pub judged :
        Judged (match_response_plan f.severity f.symptom) (planned.0).actions r.decisions proposed v

  -- The rounds of a data set follow each other.
  abbrev pub PlaysAll : List Fixture → World → List Round → World → Type 0
  PlaysAll [] w rounds v = (rounds ≡ []) × (w ≡ v)
  PlaysAll (f ∷ fs) w rounds v =
      (r : Round) × (more : List Round) × (u : World) × (rounds ≡ r ∷ more)
      × Plays f w r u
      × PlaysAll fs u more v

  evidence-answer :
      (c : IncidentRecord) (more : List Fields) (w : World) {j : IncidentRecord} {v : World}
      → pure {A = IncidentRecord} (record c { hypotheses = more }) w ≡ (ok j, v)
      → j.evidence ≡ c.evidence
  evidence-answer c more w h = ground arith

  investigate-found :
      (i : IncidentRecord) (w : World) {j : IncidentRecord} {v : World}
      → investigate env engine agents i w ≡ (ok j, v)
      → 1 ≤ length j.evidence
  unfolding investigate
  investigate-found i w {j} h =
      let (triaged, v₁, h₁, n₁) = >>=-eq-ok (agents.triage i) _ w h in
      let (collected, v₂, h₂, n₂) = >>=-eq-ok (agents.evidence i) _ v₁ n₁ in
      let (entry, v₃, h₃, n₃) = >>=-eq-ok (agents.change _) _ v₂ n₂ in
      let (found, v₄, h₄, n₄) = >>=-eq-ok (agents.rca _) _ v₃ n₃ in
      let gathered = (collected.1).evidence ++ collected.0 in
      let e : j.evidence ≡ gathered ++ entry ∷ [] =
        evidence-answer (record (collected.1) { evidence = gathered ++ entry ∷ [] })
          ((collected.1).hypotheses ++ found) v₄ n₄ in
      subst (λ es. 1 ≤ length es) (sym e) (omega (arith, length-append gathered (entry ∷ [])))

  -- Every round finds something.
  pub PlaysAll-found :
      (fs : List Fixture) (w : World) (rounds : List Round) (v : World)
      → PlaysAll fs w rounds v
      → length fs ≤ total (λ r. length r.found) rounds
  PlaysAll-found [] w rounds v (none_left, _) = omega arith
  PlaysAll-found (f ∷ fs) w rounds v (r, more, u, e, plays, rest) =
      let here : 1 ≤ length r.found =
        subst (λ es. 1 ≤ length es) (sym plays.found)
          (investigate-found plays.incident plays.started plays.gathers) in
      let later = PlaysAll-found fs u more v rest in
      subst (λ rs. length (f ∷ fs) ≤ total (λ r. length r.found) rs) (sym e)
        (omega (arith, here, later))
