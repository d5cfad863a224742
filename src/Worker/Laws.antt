-- ===== src/Worker/Laws.antt =====
-- What the worker does with a job.
use ai_assisted_aws_incident.Prelude.{
  false, ◌≡◌, refl, ap, ◌∙◌, String, none, some, List, [], ◌∷◌, ◌++◌, true, arith, inl, inr,
  Option-cases, suc, if◌then◌else◌,
}
use ai_assisted_aws_incident.Value.{end, field, text, dict}
use ai_assisted_aws_incident.Contracts.{IncidentRecord, state_value}
use ai_assisted_aws_incident.Environ.{Environ, env_flag}
use ai_assisted_aws_incident.Dict.{lookup}
use ai_assisted_aws_incident.Store.{get, upsert}
use ai_assisted_aws_incident.Store.Laws.{upsert-Stored}
use ai_assisted_aws_incident.Plans.{match_response_plan}
use ai_assisted_aws_incident.Workflow.{
  max_iterations, change_step, evidence_step, triage_step, matched, write_checkpoint, Agents,
  run_linear_route,
}
use ai_assisted_aws_incident.Workflow.Loop.{rounds, run_decision_loop_route}
use ai_assisted_aws_incident.Workflow.Routes.{execute_route}
use ai_assisted_aws_incident.World.{
  with_budget-ok, run_rest, World, Failure, Result, ok, err, append_audit, about, >>=-eq-ok,
  if-cases,
}
use ai_assisted_aws_incident.Worker.{
  complete, as_worker, job_text, push, enqueue_route, process_incident, handle, serve, serve_all,
}

module _ (env : Environ) (agents : Agents) where
  -- Jobs behind others: the worker serves the queue in its order, and no job keeps it from the next.
  serve_all-append :
      (jobs : List String) (more : List String) (w : World)
      → serve_all env agents (jobs ++ more) w
        ≡ serve_all env agents more (serve_all env agents jobs w).1
  unfolding serve_all serve
  serve_all-append [] more w = refl
  serve_all-append (job ∷ jobs) more w = serve_all-append jobs more (handle env agents job w).1

  -- A job for a stored incident is queued behind the others while Redis answers, and no incident changes.
  -- Whenever the worker then serves the queue, it serves the jobs in front, however they end, and
  -- then processes this incident as they have left it; the text of the job has to read as the
  -- incident's id, which it does for an id without quotes and backslashes.
  pub enqueue_route-served :
      (id : String) (jobs : List String) (w u : World) {found : IncidentRecord}
      → lookup id w.incidents ≡ some found
      → w.hot.up ≡ true
      → env.loads (job_text id) ≡ some (dict (field "incident_id" (text id) end))
      → (v : World) × (enqueue_route env id jobs w ≡ (ok (jobs ++ job_text id ∷ []), v))
        × (v.incidents ≡ w.incidents)
        × (serve_all env agents (jobs ++ job_text id ∷ []) u
            ≡ (ok tt, (process_incident env agents id (serve_all env agents jobs u).1).1))
  unfolding enqueue_route get push append_audit serve_all serve handle
  enqueue_route-served id jobs w u stored up reads =
      let v = serve_all-append jobs (job_text id ∷ []) u in
      let here = (serve_all env agents jobs u).1 in
      let one : handle env agents (job_text id) here ≡ process_incident env agents id here =
        ground (arith, reads) in
      (
        (append_audit env "worker_job_enqueued" (about id end) w).1,
        ground (arith, stored, up),
        refl,
        v ∙ ap (λ (o : Result (Unit {0}) × World). (ok tt, o.1)) one,
      )

  upsert-reads :
      (i : IncidentRecord) (w : World) {j : IncidentRecord} {v : World}
      → upsert env i w ≡ (ok j, v)
      → lookup j.incident_id v.incidents ≡ some j
  upsert-reads i w {j} {v} h =
      let kept = upsert-Stored env i w h in
      ap (λ k. lookup k v.incidents) kept.same_id ∙ kept.reads_back

  loop-reads :
      (i : IncidentRecord) (w : World) {j : IncidentRecord} {v : World}
      → run_decision_loop_route env agents i w ≡ (ok j, v)
      → lookup j.incident_id v.incidents ≡ some j
  unfolding run_decision_loop_route
  loop-reads i w h =
      let plan = match_response_plan i.metadata.severity i.metadata.symptom in
      let (start, v₁, h₁, n₁) =
        >>=-eq-ok
          (write_checkpoint env agents.checkpoint "match"
            (record (matched env i) { workflow_iteration = 0 }))
          _ w h in
      let (limit, v₂, h₂, n₂) = >>=-eq-ok (max_iterations env) _ v₁ n₁ in
      let (last, v₃, h₃, n₃) = >>=-eq-ok (rounds env agents plan limit start) _ v₂ n₂ in
      upsert-reads (record last { control_plane_version = "v1" }) v₃ n₃

  linear-reads :
      (i : IncidentRecord) (w : World) {j : IncidentRecord} {v : World}
      → run_linear_route env agents i w ≡ (ok j, v)
      → lookup j.incident_id v.incidents ≡ some j
  unfolding run_linear_route
  linear-reads i w h =
      let (a, v₁, h₁, n₁) =
        >>=-eq-ok (write_checkpoint env agents.checkpoint "match" (matched env i)) _ w h in
      let (b, v₂, h₂, n₂) = >>=-eq-ok (triage_step env agents a) _ v₁ n₁ in
      let (c, v₃, h₃, n₃) = >>=-eq-ok (evidence_step env agents false b) _ v₂ n₂ in
      let (d, v₄, h₄, n₄) = >>=-eq-ok (change_step env agents c) _ v₃ n₃ in
      let (found, v₅, h₅, n₅) = >>=-eq-ok (agents.rca d) _ v₄ n₄ in
      let (e, v₆, h₆, n₆) =
        >>=-eq-ok
          (write_checkpoint env agents.checkpoint "rca"
            (record d { hypotheses = d.hypotheses ++ found }))
          _ v₅ n₅ in
      upsert-reads (record e { control_plane_version = "v1" }) v₆ n₆

  -- A route that ends well has stored its answer.
  pub execute_route-reads :
      (i : IncidentRecord) (w : World) {j : IncidentRecord} {v : World}
      → execute_route env agents i w ≡ (ok j, v)
      → lookup j.incident_id v.incidents ≡ some j
  unfolding execute_route
  execute_route-reads i w {j} h =
      let (u, t, ran, same) =
        with_budget-ok env
          (if env_flag env "ROUTER_DECISION_LOOP_ENABLED" "false"
            then run_decision_loop_route env agents i
            else run_linear_route env agents i)
          w h in
      let reads : lookup j.incident_id t.incidents ≡ some j =
        elim (if-cases (env_flag env "ROUTER_DECISION_LOOP_ENABLED" "false") _ _ u ran) [
          | inl loop ↦ loop-reads i u loop
          | inr linear ↦ linear-reads i u linear
        ] in
      ap (lookup j.incident_id) same ∙ reads

module _ (env : Environ) (agents : Agents) where
  -- How a job ends.
  pub data Handled (id : String) (w : World) : Result (Unit {0}) × World → Type 0 where
    missing :
        {v : World}
        → lookup id w.incidents ≡ none
        → v.incidents ≡ w.incidents
        → (now : _) × (v.audit
            ≡ w.audit
              ++ record {
                event_type = "worker_job_failed";
                payload = about id (field "reason" (text "incident_not_found") end);
                created_at = now;
              }
                ∷ [])
        → Handled id w (ok tt, v)
    completed :
        {found updated : IncidentRecord} {u v : World}
        → lookup id w.incidents ≡ some found
        → execute_route env (as_worker agents) found w ≡ (ok updated, u)
        → lookup updated.incident_id v.incidents ≡ some updated
        → (now : _) × (v.audit
            ≡ u.audit
              ++ record {
                event_type = "worker_job_completed";
                payload =
                    about updated.incident_id
                      (field "state" (text (state_value updated.state)) end);
                created_at = now;
              }
                ∷ [])
        → Handled id w (ok tt, v)
    raised :
        {found : IncidentRecord} {e : Failure} {u : World}
        → lookup id w.incidents ≡ some found
        → execute_route env (as_worker agents) found w ≡ (err e, u)
        → Handled id w (err e, u)

  complete-Handled :
      (id : String) (w : World) {found : IncidentRecord} (o : Result IncidentRecord × World)
      → lookup id w.incidents ≡ some found
      → execute_route env (as_worker agents) found w ≡ o
      → Handled id w (run_rest (complete env) o)
  unfolding complete append_audit
  complete-Handled id w (err e, u) stored ran = raised stored ran
  complete-Handled id w (ok updated, u) stored ran =
      completed stored ran (execute_route-reads env (as_worker agents) _ w ran)
        (env.clock (suc u.clock_reads), refl)

  -- A job for an unknown incident changes no incident and leaves an event that it failed; one for a stored
  -- incident ends as its route does: with the error that was raised, or with the answer stored
  -- under its id and its state in the last event.
  pub process_incident-Handled :
      (id : String) (w : World) → Handled id w (process_incident env agents id w)
  unfolding process_incident get append_audit
  process_incident-Handled id w = elim (Option-cases (lookup id w.incidents)) [
    | inl e ↦ rw e (missing e refl (env.clock (suc w.clock_reads), refl))
    | inr (found, e) ↦ rw e (complete-Handled id w _ e refl)
  ]
