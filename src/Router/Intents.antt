-- ===== src/Router/Intents.antt =====
-- src/agents/triage/evidence_intents.py: the evidence that a triage asks for, as collector keys.
use ai_assisted_aws_incident.Prelude.{
  String, Option, none, some, List, [], ◌∷◌, ◌++◌, ◌==◌, any, is_empty, or_list, lower, strip,
  is_blank, if◌then◌else◌,
}
use ai_assisted_aws_incident.Value.{
  Value, Fields, end, null, boolean, int, float, text, list, dict, get, items, as_dict,
}
use ai_assisted_aws_incident.World.{Action, attribute_error, raise, pure, ◌>>=◌}

-- `a or b` on reasons
abbrev pub or_reason : Option String → Option String → Option String
or_reason none b = b
or_reason (some a) b = if is_blank a then b else some a

-- The collector of a key that was asked for; another key stands for itself.
unfoldable pub collector : String → String
collector key =
    if any (λ k. k == key) ("metric" ∷ "metrics" ∷ "timeseries" ∷ [])
    then "metrics"
    else if any (λ k. k == key) ("log" ∷ "logs" ∷ "logging" ∷ [])
    then "logs"
    else if any (λ k. k == key)
        ("recent_changes" ∷ "deployments" ∷ "deployment" ∷ "change" ∷ "changes" ∷ [])
    then "recent_changes"
    else if any (λ k. k == key) ("topology" ∷ "topo" ∷ "dependencies" ∷ [])
    then "topology"
    else key

-- `if key not in out: out.append(key)`
abbrev pub add_key : String → List String → List String
add_key key out = if any (λ k. k == key) out then out else out ++ key ∷ []

-- The loop: an item that is no text has no `strip`.
unfoldable pub collect_intents : List Value → List String → Action (List String)
collect_intents [] out = pure out
collect_intents (text s ∷ rest) out =
    collect_intents rest (add_key (collector (lower (strip s))) out)
collect_intents (null ∷ rest) out = raise attribute_error
collect_intents (boolean _ ∷ rest) out = raise attribute_error
collect_intents (int _ ∷ rest) out = raise attribute_error
collect_intents (float _ ∷ rest) out = raise attribute_error
collect_intents (list _ ∷ rest) out = raise attribute_error
collect_intents (dict _ ∷ rest) out = raise attribute_error

abbrev pub requested : Option Value → List Value
requested (some (list vs)) = items vs
requested _ = []

-- `normalize_evidence_intents` on the triage's list, and on None for anything else
unfoldable pub normalize_evidence_intents : Option Value → Action (List String)
normalize_evidence_intents raw =
    if is_empty (requested raw)
    then pure ("metrics" ∷ "logs" ∷ "recent_changes" ∷ [])
    else collect_intents (requested raw) [] >>= λ out. pure (or_list out ("metrics" ∷ "logs" ∷ []))

-- `extract_triage_dict(hypotheses) or {}`
unfoldable pub triage_of : List Fields → Fields
triage_of [] = end
triage_of (block ∷ rest) =
    let others = triage_of rest in
    elim (get "triage" block) [
      | none ↦ others
      | some v ↦ elim (as_dict v) [ none ↦ others | some triage ↦ triage ]
    ]
