-- ===== src/Memory.antt =====
-- The search of src/src/persistence/memory: `InMemoryKnowledgeProvider.search` of providers.py and
-- `search_incident_memory` of working_memory.py; and the values in JSON of providers.py. `Workflow.Loop` has the index.
pub mod Laws
pub mod Tests
use ai_assisted_aws_incident.Prelude.{
  ℕ, Bool, not, String, Option, none, some, List, [], ◌∷◌, ◌++◌, select, take, lower, has_part,
  concat, if◌then◌else◌,
}
use ai_assisted_aws_incident.Dict.{Dict, lookup}
use ai_assisted_aws_incident.Environ.{Environ, env_flag}
use ai_assisted_aws_incident.Value.{Fields, as_dict}
use ai_assisted_aws_incident.HotState
use ai_assisted_aws_incident.HotState.{set_text}
use ai_assisted_aws_incident.World.{World, Action, value_error, gets, or_raise, pure, ◌>>=◌}

-- `values.items()`, of which only the contents are read
abbrev pub contents : Option (Dict String) → List String
contents none = []
contents (some []) = []
contents (some ((_, content) ∷ d)) = content ∷ contents (some d)

-- `query_text in item[1].lower()`
abbrev pub hits : String → String → Bool
hits query content = has_part (lower query) (lower content)

-- `sorted(…, key=…, reverse=True)`: those that have the query come first, and otherwise the order stays.
abbrev pub rank : String → List String → List String
rank query found = select (hits query) found ++ select (λ c. not (hits query c)) found

-- `search`
unfoldable pub search : String → String → ℕ → Dict (Dict String) → List String
search namespace query limit store = take limit (rank query (contents (lookup namespace store)))

-- `search_incident_memory`
unfoldable pub search_incident_memory : Environ → String → String → ℕ → World → List String
search_incident_memory env incident_id query limit w =
    if env_flag env "WORKING_MEMORY_ENABLED" "true"
    then search "incidents" (concat (incident_id ∷ " " ∷ query ∷ [])) limit w.memory
    else []

-- `set_json` and `get_json` of `RedisHotStateProvider`
unfoldable pub set_json : Environ → String → Fields → Option ℕ → World → World
set_json env key value expire_seconds w = record w {
  hot = set_text key (env.dumps_plain value) expire_seconds w.hot;
}

unfoldable pub get_json : Environ → String → Action (Option Fields)
get_json env key = do
  payload ← gets (λ w. ai_assisted_aws_incident.HotState.get key w.hot)
  elim payload [
    | none ↦ pure none
    | some p ↦ or_raise (env.loads p) value_error >>= λ decoded. pure (as_dict decoded)
  ]
