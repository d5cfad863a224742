-- ===== src/Agent/Laws.antt =====
-- The evidence agent leaves the decisions of its incident, and so does the program's decision loop.
use ai_assisted_aws_incident.Prelude.{
  ◌≤◌, length, subst, ℕ, ◌++◌, ◌≡◌, refl, ap, ◌∙◌, String, Option, List, arith, inl, inr,
}
use ai_assisted_aws_incident.Contracts.{ActionType, EvidenceEntry, IncidentRecord}
use ai_assisted_aws_incident.Plans.{match_response_plan}
use ai_assisted_aws_incident.Environ.{Environ}
use ai_assisted_aws_incident.Llm.{Chat}
use ai_assisted_aws_incident.Telemetry.{Collectors, ChangeFeed, telemetry_collectors}
use ai_assisted_aws_incident.Telemetry.Aws.{AwsClients, aws_collectors, aws_change_feed}
use ai_assisted_aws_incident.Workflow.{Agents, write_checkpoint, max_iterations, matched}
use ai_assisted_aws_incident.Workflow.Loop.{rounds, run_decision_loop_route}
use ai_assisted_aws_incident.Workflow.Keeps.{KeepsRecords, upsert-records, checkpoint-records}
use ai_assisted_aws_incident.Workflow.Laws.{Grown, rounds-Grown}
use ai_assisted_aws_incident.Agent.{
  Raw, Schemas, is_nothing, collect, collect_raw, collect_default, resolve_intents, entries_of,
  run_evidence,
}
use ai_assisted_aws_incident.Agent.Program.{program_agents}
use ai_assisted_aws_incident.World.{World, Action, ok, >>=-eq-ok, if-cases, pure}

-- The incident that an action hands on.
handed :
    {A : Type 0} {a b : A} {i j : IncidentRecord} {w v : World}
    → pure {A = A × IncidentRecord} (a, i) w ≡ (ok (b, j), v)
    → j ≡ i
handed h = cc

matched-records :
    (env : Environ) (i : IncidentRecord) → (matched env i).decision_records ≡ i.decision_records
unfolding match_response_plan
matched-records env i = refl

module _ (env : Environ) (aws : Collectors) (aws_feed : ChangeFeed) where
  collect-records :
      (intents : List String) (key : String) (tool : ActionType) (query : Action String)
      (i : IncidentRecord) (w : World) {found : Option String} {j : IncidentRecord} {v : World}
      → collect env aws aws_feed intents key tool query i w ≡ (ok (found, j), v)
      → j.decision_records ≡ i.decision_records
  unfolding collect
  collect-records intents key tool query i w h = ground arith

  default-records :
      (i : IncidentRecord) (w : World) {found : Raw} {j : IncidentRecord} {v : World}
      → collect_default env aws aws_feed i w ≡ (ok (found, j), v)
      → j.decision_records ≡ i.decision_records
  unfolding collect_default
  default-records i w h =
      let (a, v₁, h₁, h₂) =
        >>=-eq-ok
          ((telemetry_collectors env aws).query_metrics i.metadata.service i.metadata.resource) _ w
          h in
      let (b, v₂, h₃, h₄) =
        >>=-eq-ok ((telemetry_collectors env aws).query_logs i.metadata.service i.metadata.resource)
          _ v₁ h₂ in
      ground arith

  collect_raw-records :
      (intents : List String) (i : IncidentRecord) (w : World) {found : Raw} {j : IncidentRecord}
      {v : World}
      → collect_raw env aws aws_feed intents i w ≡ (ok (found, j), v)
      → j.decision_records ≡ i.decision_records
  unfolding collect_raw
  collect_raw-records intents i w {j} h =
      let (a, v₁, h₁, n₁) = >>=-eq-ok (collect env aws aws_feed intents "metrics" _ _ i) _ w h in
      let (b, v₂, h₂, n₂) = >>=-eq-ok (collect env aws aws_feed intents "logs" _ _ (a.1)) _ v₁ n₁ in
      let (c, v₃, h₃, n₃) =
        >>=-eq-ok (collect env aws aws_feed intents "recent_changes" _ _ (b.1)) _ v₂ n₂ in
      let (d, v₄, h₄, n₄) =
        >>=-eq-ok (collect env aws aws_feed intents "topology" _ _ (c.1)) _ v₃ n₃ in
      let before : (d.1).decision_records ≡ i.decision_records =
        collect-records intents "topology" _ _ (c.1) v₃ h₄
        ∙ collect-records intents "recent_changes" _ _ (b.1) v₂ h₃
        ∙ collect-records intents "logs" _ _ (a.1) v₁ h₂
        ∙ collect-records intents "metrics" _ _ i w h₁ in
      elim (if-cases
        (is_nothing (record { metrics = a.0; logs = b.0; recent_changes = c.0; topology = d.0 })) _
        _ v₄ n₄) [
          | inl more ↦ default-records (d.1) v₄ more ∙ before
          | inr here ↦ ap (λ x. x.decision_records) (handed here) ∙ before
        ]

  module _ (chat : Chat) (schemas : Schemas) where
    run_evidence-records :
        (i : IncidentRecord) (w : World) {found : List EvidenceEntry} {j : IncidentRecord}
        {v : World}
        → run_evidence env aws aws_feed chat schemas i w ≡ (ok (found, j), v)
        → j.decision_records ≡ i.decision_records
    unfolding run_evidence
    run_evidence-records i w {j} h =
        let (intents, v₁, h₁, n₁) = >>=-eq-ok (resolve_intents env i) _ w h in
        let (got, v₂, h₂, n₂) = >>=-eq-ok (collect_raw env aws aws_feed intents i) _ v₁ n₁ in
        let (entries, v₃, h₃, n₃) =
          >>=-eq-ok (entries_of env aws aws_feed chat schemas got.1 intents got.0) _ v₂ n₂ in
        ap (λ x. x.decision_records) (handed n₃) ∙ collect_raw-records intents i v₁ h₂

module _ (env : Environ) (clients : AwsClients) (chat : Chat) (schemas : Schemas) where
  abbrev agents : Agents
  agents = program_agents env clients chat schemas

  agents-KeepsRecords : KeepsRecords agents
  agents-KeepsRecords = record {
    records = λ i w h.
        run_evidence-records env (aws_collectors env clients) (aws_change_feed env clients) chat
          schemas i w h;
  }

  -- A decision loop of the program's own agents that ends well has added at most
  -- `ROUTER_MAX_ITERATIONS` decisions to the incident's, and each of them allows only what the
  -- response plan of the incident allows, and asks for neither the planner nor an execution while it
  -- says `investigate_only`.
  pub run_decision_loop_route-Grown :
      (i : IncidentRecord) (w : World) {n : ℕ} {j : IncidentRecord} {v : World}
      → ((u : World) → max_iterations env u ≡ (ok n, u))
      → run_decision_loop_route env agents i w ≡ (ok j, v)
      → Grown (match_response_plan i.metadata.severity i.metadata.symptom) n i j
  unfolding run_decision_loop_route
  run_decision_loop_route-Grown i w {n} {j} limit h =
      let (start, v₁, h₁, n₁) =
        >>=-eq-ok
          (write_checkpoint env agents.checkpoint "match"
            (record (matched env i) { workflow_iteration = 0 }))
          _ w h in
      let (m, v₂, h₂, n₂) = >>=-eq-ok (max_iterations env) _ v₁ n₁ in
      let (last, v₃, h₃, n₃) = >>=-eq-ok (rounds env agents _ m start) _ v₂ n₂ in
      let before =
        checkpoint-records env agents.checkpoint "match"
          (record (matched env i) { workflow_iteration = 0 }) w h₁ in
      let after = upsert-records env (record last { control_plane_version = "v1" }) v₃ n₃ in
      let same : m ≡ n = ground (arith, limit v₁) in
      let loop = rounds-Grown env agents agents-KeepsRecords _ m start v₂ h₃ in
      record {
        added = loop.added;
        grown = after ∙ loop.grown ∙ ap (λ x. x ++ loop.added) (before ∙ matched-records env i);
        bounded = subst (λ k. length loop.added ≤ k) same loop.bounded;
        safe = loop.safe;
      }
