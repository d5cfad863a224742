-- ===== src/Scenario/Tests.antt =====
-- The repair of the demo, on an incident that is planned.
use ai_assisted_aws_incident.Adapters.{can_access_target, are_valid_parameters, run_local}
use ai_assisted_aws_incident.Executor.{run_agent, claim, run_with_retries, attempts}
use ai_assisted_aws_incident.Dict.{lookup, insert}
use ai_assisted_aws_incident.Store.{upsert, is_invalid, may_follow, bump}
use ai_assisted_aws_incident.Execute.{trace_entry}
use ai_assisted_aws_incident.Prelude.{refl, false}
use ai_assisted_aws_incident.Contracts.{
  ActionType-discrete, IncidentState-discrete, ActionRequest, IncidentRecord, opened, planned,
}
use ai_assisted_aws_incident.World.{fresh_id, utcnow, append_audit, World, Result}
use ai_assisted_aws_incident.World.Workload.{verify_recovery, rollback, CheckoutState}
use ai_assisted_aws_incident.Samples.{env, action, incident, world, ecs, on_time, value_or}
use ai_assisted_aws_incident.Scenario.{record_verification, verify, finish, repair}
use ai_assisted_aws_incident.Scenario.Laws.{Repaired, repair-Repaired}

abbrev rollback_now : ActionRequest
rollback_now = record action { dry_run = false }

abbrev demo : Result (CheckoutState × IncidentRecord) × World
demo = repair env ecs on_time rollback_now (incident planned) (world planned)

abbrev done : CheckoutState × IncidentRecord
done = value_or demo.0 ((world opened).workload, incident opened)

repair-Repaired_example : Repaired demo.1 done.0 done.1
unfolding repair verify verify_recovery record_verification finish trace_entry fresh_id utcnow
    append_audit upsert is_invalid may_follow lookup insert bump ai_assisted_aws_incident.Store.get
    run_agent ai_assisted_aws_incident.Executor.execute claim
    ai_assisted_aws_incident.Executor.perform run_with_retries attempts
    ai_assisted_aws_incident.Adapters.run can_access_target are_valid_parameters run_local rollback
    ActionType-discrete IncidentState-discrete
repair-Repaired_example =
    repair-Repaired env ecs on_time rollback_now (incident planned) (world planned) {m = done.0}
      {j = done.1} {v = demo.1} refl
