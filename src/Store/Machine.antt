-- ===== src/Store/Machine.antt =====
-- `_allowed_transitions` and `_validate_state_transition` of
-- apps/api/routers/incident_store/repository.py.
use ai_assisted_aws_incident.Prelude.{
  Bool, false, not, ◌||◌, Option, none, some, List, [], ◌∷◌, contains, holds,
}
use ai_assisted_aws_incident.Contracts.{
  IncidentRecord, IncidentState, IncidentState-discrete, opened, investigating, planned,
  waiting_approval, executing, resolved, reopened,
}

abbrev pub allowed_transitions : IncidentState → List IncidentState
allowed_transitions opened = investigating ∷ reopened ∷ []
allowed_transitions investigating =
    planned ∷ waiting_approval ∷ executing ∷ resolved ∷ reopened ∷ []
allowed_transitions planned = waiting_approval ∷ executing ∷ resolved ∷ investigating ∷ []
allowed_transitions waiting_approval = planned ∷ executing ∷ investigating ∷ []
allowed_transitions executing = resolved ∷ investigating ∷ reopened ∷ []
allowed_transitions resolved = reopened ∷ investigating ∷ []
allowed_transitions reopened = investigating ∷ planned ∷ []

unfoldable pub may_follow : IncidentState → IncidentState → Bool
unfolding IncidentState-discrete
may_follow previous next =
    holds (IncidentState-discrete previous next)
    || contains IncidentState-discrete next (allowed_transitions previous)

-- `_validate_state_transition` raises.
unfoldable pub is_invalid : Option IncidentRecord → IncidentRecord → Bool
is_invalid none next = false
is_invalid (some previous) next = not (may_follow previous.state next.state)
