-- ===== src/Worker.antt =====
-- apps/worker/main.py: the worker behind the queue `incident-routing-jobs`, and `enqueue_route` of
-- apps/api/main.py, which fills it. The queue is the list of its payloads, the oldest first; the wait of
-- `blpop` on an empty queue and the log lines are left out.
pub mod Laws
pub mod Tests
use ai_assisted_aws_incident.Prelude.{
  true, String, Option, none, some, List, [], ◌∷◌, ◌++◌, concat, if◌then◌else◌,
}
use ai_assisted_aws_incident.Value.{Value, Fields, end, field, text, boolean, dict, as_dict, get}
use ai_assisted_aws_incident.Contracts.{IncidentRecord, state_value}
use ai_assisted_aws_incident.Environ.{Environ, str_of}
use ai_assisted_aws_incident.Store
use ai_assisted_aws_incident.Workflow.{Agents}
use ai_assisted_aws_incident.Workflow.Routes.{execute_route}
use ai_assisted_aws_incident.World.{
  World, Action, http, value_error, type_error, key_error, connection_error, or_raise, raise, pure,
  gets, append_audit, about, ok, ◌>>=◌, ◌>>◌,
}

-- The agents of the route as the worker passes them: its `_write_checkpoint` marks its events.
abbrev pub as_worker : Agents → Agents
as_worker agents = record agents { checkpoint = field "worker" (boolean true) end }

-- `f'{{"incident_id":"{incident_id}"}}'`
unfoldable pub job_text : String → String
job_text incident_id = concat ("{\"incident_id\":\"" ∷ incident_id ∷ "\"}" ∷ [])

module _ (env : Environ) where
  -- `client.rpush(…)`
  unfoldable pub push : String → List String → Action (List String)
  push job jobs = do
    up ← gets (λ w. w.hot.up)
    if up then pure (jobs ++ job ∷ []) else raise connection_error

  -- `enqueue_route`, with the queue behind it
  unfoldable pub enqueue_route : String → List String → Action (List String)
  enqueue_route incident_id jobs = do
    found ← ai_assisted_aws_incident.Store.get incident_id
    or_raise found (http 404 "incident not found")
    queued ← push (job_text incident_id) jobs
    append_audit env "worker_job_enqueued" (about incident_id end)
    pure queued

  -- `decoded["incident_id"]`
  abbrev pub id_field : Value → Action Value
  id_field (dict fs) = or_raise (get "incident_id" fs) key_error
  id_field _ = raise type_error

  -- The end of `_process_incident`.
  unfoldable pub complete : IncidentRecord → Action (Unit {0})
  complete updated =
      append_audit env "worker_job_completed"
        (about updated.incident_id (field "state" (text (state_value updated.state)) end))

  -- `_process_incident`
  unfoldable pub process_incident : Agents → String → Action (Unit {0})
  process_incident agents incident_id = do
    found ← ai_assisted_aws_incident.Store.get incident_id
    elim found [
      | none ↦
          append_audit env "worker_job_failed"
            (about incident_id (field "reason" (text "incident_not_found") end))
      | some incident ↦ execute_route env (as_worker agents) incident >>= complete
    ]

  -- The body of the `try`.
  unfoldable pub handle : Agents → String → Action (Unit {0})
  handle agents payload = do
    decoded ← or_raise (env.loads payload) value_error
    incident_id ← id_field decoded
    process_incident agents (str_of env incident_id)

  -- One payload of `run_forever`: whatever is raised goes to the log.
  unfoldable pub serve : Agents → String → Action (Unit {0})
  serve agents payload w = let (_, v) = handle agents payload w in (ok tt, v)

  -- `run_forever` until the queue is empty, with no job pushed meanwhile
  unfoldable pub serve_all : Agents → List String → Action (Unit {0})
  serve_all agents [] = pure tt
  serve_all agents (payload ∷ jobs) = serve agents payload >> serve_all agents jobs
