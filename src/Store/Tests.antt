-- ===== src/Store/Tests.antt =====
-- Writes of an incident.
use ai_assisted_aws_incident.Prelude.{◌≡◌, ◌↔◌, refl, true, some, [], ◌∷◌}
use ai_assisted_aws_incident.Contracts.{
  IncidentRecord, investigating, planned, resolved, waiting_approval, IncidentState-discrete,
}
use ai_assisted_aws_incident.Dict.{lookup}
use ai_assisted_aws_incident.World.{utcnow}
use ai_assisted_aws_incident.Store.{upsert, get, is_invalid, may_follow, bump}
use ai_assisted_aws_incident.Store.Transitions.{Step, may_follow_iff}
use ai_assisted_aws_incident.Store.Laws.{Stored, upsert-Stored}
use ai_assisted_aws_incident.Store.Fallback.{
  Heap, get_fallback, upsert_fallback, assign, upsert_fallback-accepts,
}
use ai_assisted_aws_incident.Samples.{env, world, incident, value_or}

may_follow_iff_example : (may_follow planned resolved ≡ true) ↔ Step planned resolved
may_follow_iff_example = may_follow_iff planned resolved

abbrev kept : IncidentRecord
kept = value_or (upsert env (incident planned) (world investigating)).0 (incident planned)

upsert-Stored_example :
    Stored env
      (incident planned)
      (world investigating)
      kept
      (upsert env (incident planned) (world investigating)).1
unfolding upsert get is_invalid may_follow bump utcnow lookup IncidentState-discrete
upsert-Stored_example = upsert-Stored env (incident planned) (world investigating) refl

abbrev heap : Heap
heap = record { objects = λ _. incident resolved; store = ("inc_1", 7) ∷ [] }

upsert_fallback-accepts_example :
    (h : Heap) × (upsert_fallback 5 7 (assign 7 (λ r. record r { state = waiting_approval }) heap)
      ≡ some h)
    × (get_fallback "inc_1" h ≡ some 7)
    × ((h.objects 7).state ≡ waiting_approval)
unfolding get_fallback lookup
upsert_fallback-accepts_example =
    upsert_fallback-accepts "inc_1" 5 7 waiting_approval heap refl refl
