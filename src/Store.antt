-- ===== src/Store.antt =====
-- `IncidentRepository` of apps/api/routers/incident_store/repository.py with the database at hand:
-- a row holds a copy of the record (`model_dump_json`), and `get` reads a fresh one.
-- `Store/Fallback` has the in-memory mode, where the store and the caller share the object.
mod Machine
pub mod Recency
pub mod Transitions
pub mod Laws
pub mod Fallback
pub mod Tests
unfoldable pub use Machine.*
use ai_assisted_aws_incident.Prelude.{
  ℕ, ◌+◌, Bool, true, false, String, Option, none, some, List, [], ◌∷◌, ◌==◌, leb, take, select,
  if◌then◌else◌,
}
use ai_assisted_aws_incident.Contracts.{IncidentRecord}
use ai_assisted_aws_incident.Environ.{Environ}
use ai_assisted_aws_incident.Dict.{Dict, lookup, insert}
use ai_assisted_aws_incident.World.{
  World, Action, Failure, value_error, ok, err, pure, raise, raise_if, gets, modify, utcnow, ◌>>=◌,
  ◌>>◌,
}

-- `get`
unfoldable pub get : String → Action (Option IncidentRecord)
get incident_id w = gets (λ v. lookup incident_id v.incidents) w

-- What `upsert` writes to the record: `updated_at` and the version behind the stored one.
unfoldable pub bump : Option IncidentRecord → ℕ → IncidentRecord → IncidentRecord
bump none now incident = record incident { updated_at = now }
bump (some previous) now incident = record incident {
  updated_at = now;
  version = previous.version + 1;
}

abbrev pub put_row : IncidentRecord → World → World
put_row incident w = record w { incidents = insert incident.incident_id incident w.incidents }

-- `upsert`, whose result is the record that it has written to and stored
unfoldable pub upsert : Environ → IncidentRecord → Action IncidentRecord
unfolding get
upsert env incident = do
  previous ← get incident.incident_id
  raise_if (is_invalid previous incident) value_error
  now ← utcnow env
  let stored = bump previous now incident
  modify (put_row stored)
  pure stored

-- The record that comes first in `ORDER BY updated_at DESC`: rows of one time keep their order.
unfoldable pub insert_recent : IncidentRecord → List IncidentRecord → List IncidentRecord
insert_recent r [] = r ∷ []
insert_recent r (s ∷ rs) =
    if leb s.updated_at r.updated_at then r ∷ s ∷ rs else s ∷ insert_recent r rs

abbrev pub rows : Dict IncidentRecord → List IncidentRecord
rows [] = []
rows ((_, r) ∷ d) = r ∷ rows d

unfoldable pub by_recency : List IncidentRecord → List IncidentRecord
unfolding insert_recent
by_recency [] = []
by_recency (r ∷ rs) = insert_recent r (by_recency rs)

-- `list_recent(limit)`
unfoldable pub list_recent : ℕ → Action (List IncidentRecord)
unfolding by_recency
list_recent limit w = gets (λ v. take limit (by_recency (rows v.incidents))) w

abbrev pub first : List IncidentRecord → Option IncidentRecord
first [] = none
first (r ∷ _) = some r

-- `get_by_dedupe_key`
unfoldable pub get_by_dedupe_key : String → Action (Option IncidentRecord)
unfolding by_recency
get_by_dedupe_key key w =
    gets (λ v. first (by_recency (select (λ r. r.metadata.dedupe_key == key) (rows v.incidents)))) w
