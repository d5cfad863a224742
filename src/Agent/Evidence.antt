-- ===== src/Agent/Evidence.antt =====
-- `EvidenceAgent` of src/agents/evidence/agent.py. An incident that a method changes is handed on.
use ai_assisted_aws_incident.Prelude.{
  ℕ, Bool, not, ◌||◌, String, Option, none, some, or_else, List, [], ◌∷◌, ◌++◌, ◌==◌, any, is_empty,
  is_some, append_new, if◌then◌else◌,
}
use ai_assisted_aws_incident.Value.{cons, nil, Items, Value, text, list, get, items}
use ai_assisted_aws_incident.Contracts.{
  ActionType, ActionType-discrete, EvidenceEntry, IncidentRecord, RouterDecision, ToolPlanItem,
  query_metrics, query_logs, get_recent_deployments, get_topology,
}
use ai_assisted_aws_incident.Environ.{Environ, str_of}
use ai_assisted_aws_incident.Llm.{Chat, complete_json}
use ai_assisted_aws_incident.Router.{add_key, normalize_evidence_intents, triage_of}
use ai_assisted_aws_incident.Telemetry.{
  Collectors, ChangeFeed, telemetry_collectors, change_feed_client,
}
use ai_assisted_aws_incident.World.{Action, structured_llm_error, pure, raise, ◌>>=◌}
use ai_assisted_aws_incident.Agent.Prompts.{evidence_user}
use ai_assisted_aws_incident.Agent.Common.{Raw, EvidenceItem, Schemas, or_fallback, new_evidence}

-- The keys that a tool plan asks for.
abbrev pub key_of : ActionType → Option String
key_of query_metrics = some "metrics"
key_of query_logs = some "logs"
key_of get_recent_deployments = some "recent_changes"
key_of get_topology = some "topology"
key_of _ = none

abbrev pub plan_keys : List ToolPlanItem → List String → List String
plan_keys [] keys = keys
plan_keys (it ∷ rest) keys =
    plan_keys rest (elim (key_of it.tool) [ none ↦ keys | some k ↦ add_key k keys ])

abbrev pub planned_keys : Option RouterDecision → List String
planned_keys none = []
planned_keys (some d) = elim d.tool_plan [ none ↦ [] | some p ↦ plan_keys p.items [] ]

-- `[str(x) for x in raw]`, and None for anything but a list
abbrev pub as_texts : Environ → Option Value → Option Value
as_texts env (some (list vs)) = some (list (texts (items vs)))
  where
    texts : List Value → Items
    texts [] = nil
    texts (v ∷ rest) = cons (text (str_of env v)) (texts rest)
as_texts env _ = none

-- `_resolve_intents`
unfoldable pub resolve_intents : Environ → IncidentRecord → Action (List String)
resolve_intents env incident =
    if is_empty (planned_keys incident.latest_router_decision)
    then normalize_evidence_intents
        (as_texts env (get "next_required_evidence" (triage_of incident.hypotheses)))
    else pure (planned_keys incident.latest_router_decision)

abbrev pub nothing_raw : Raw
nothing_raw = record { metrics = none; logs = none; recent_changes = none; topology = none }

-- `not raw`
abbrev pub is_nothing : Raw → Bool
is_nothing raw =
    not (
      is_some raw.metrics || is_some raw.logs || is_some raw.recent_changes || is_some raw.topology)

-- `_record_tool`
abbrev pub record_tool : ActionType → IncidentRecord → IncidentRecord
record_tool tool incident = record incident {
  tools_used = append_new ActionType-discrete tool incident.tools_used;
}

module _ (env : Environ) (aws : Collectors) (aws_feed : ChangeFeed) where
  -- One `if key in intents: …` of `_collect_raw`
  unfoldable pub collect :
      List String
      → String
      → ActionType
      → Action String
      → IncidentRecord
      → Action (Option String × IncidentRecord)
  collect intents key tool query incident =
      if any (λ k. k == key) intents
      then (query >>= λ found. pure (some found, record_tool tool incident))
      else pure (none, incident)

  -- The queries of the `if not raw`.
  unfoldable pub collect_default : IncidentRecord → Action (Raw × IncidentRecord)
  collect_default incident = do
    let tools = telemetry_collectors env aws
    metrics ← tools.query_metrics incident.metadata.service incident.metadata.resource
    logs ← tools.query_logs incident.metadata.service incident.metadata.resource
    pure (
      record nothing_raw { metrics = some metrics; logs = some logs },
      record_tool query_logs (record_tool query_metrics incident),
    )

  -- `_collect_raw`
  unfoldable pub collect_raw : List String → IncidentRecord → Action (Raw × IncidentRecord)
  collect_raw intents incident = do
    let tools = telemetry_collectors env aws
    let service = incident.metadata.service
    let resource = incident.metadata.resource
    a ← collect intents "metrics" query_metrics (tools.query_metrics service resource) incident
    b ← collect intents "logs" query_logs (tools.query_logs service resource) (a.1)
    c ←
        collect intents "recent_changes" get_recent_deployments
          ((change_feed_client env aws_feed).get_recent_deployments service) (b.1)
    d ← collect intents "topology" get_topology (tools.query_topology service resource) (c.1)
    let raw : Raw = record { metrics = a.0; logs = b.0; recent_changes = c.0; topology = d.0 }
    if is_nothing raw then collect_default (d.1) else pure (raw, d.1)

  -- One `if key in raw: …` of `_from_raw_dict`
  unfoldable pub entry_of : Option String → String → String → ℕ → Action (List EvidenceEntry)
  entry_of none source kind confidence = pure []
  entry_of (some found) source kind confidence =
      new_evidence env source kind confidence found >>= λ e. pure (e ∷ [])

  -- `_from_raw_legacy`
  unfoldable pub from_raw_legacy : Raw → Action (List EvidenceEntry)
  from_raw_legacy raw = do
    a ← new_evidence env "metrics" "timeseries" 8200 (or_else raw.metrics "")
    b ← new_evidence env "logs" "log-sample" 7400 (or_else raw.logs "")
    pure (a ∷ b ∷ [])

  -- `_from_raw_dict`
  unfoldable pub from_raw_dict : Raw → Action (List EvidenceEntry)
  from_raw_dict raw = do
    a ← entry_of raw.metrics "metrics" "timeseries" 8200
    b ← entry_of raw.logs "logs" "log-sample" 7400
    c ← entry_of raw.recent_changes "deployments" "deployment-history" 7000
    d ← entry_of raw.topology "topology" "graph" 6800
    let out = a ++ b ++ c ++ d
    if is_empty out then from_raw_legacy raw else pure out

  -- The entries of the language model's items.
  unfoldable pub built_entries : List EvidenceItem → Action (List EvidenceEntry)
  built_entries [] = pure []
  built_entries (e ∷ rest) = do
    entry ← new_evidence env e.source e.kind e.confidence e.summary
    more ← built_entries rest
    pure (entry ∷ more)

  module _ (chat : Chat) (schemas : Schemas) where
    -- The body of the `try`
    unfoldable pub ask_evidence : IncidentRecord → List String → Raw → Action (List EvidenceEntry)
    ask_evidence incident intents raw = do
      out ←
          complete_json env chat schemas.evidence_output "evidence"
            (evidence_user env incident intents raw)
      entries ← built_entries out
      if is_empty entries
          then (if env.agent.agentic_stub_fallback
              then from_raw_dict raw
              else raise structured_llm_error)
          else pure entries

    unfoldable pub entries_of : IncidentRecord → List String → Raw → Action (List EvidenceEntry)
    entries_of incident intents raw w =
        if env.agent.agentic_enabled
        then or_fallback env (from_raw_dict raw) (ask_evidence incident intents raw w)
        else from_raw_dict raw w

    -- `EvidenceAgent.run`, with the incident whose tools it records
    unfoldable pub run_evidence : IncidentRecord → Action (List EvidenceEntry × IncidentRecord)
    run_evidence incident = do
      intents ← resolve_intents env incident
      collected ← collect_raw intents incident
      entries ← entries_of collected.1 intents collected.0
      pure (entries, collected.1)
