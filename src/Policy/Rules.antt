-- ===== src/Policy/Rules.antt =====
-- The approval rules of src/domain/policies/engine.py: `_action_in_rule`, `_when_matches`, and the
-- loop of `evaluate` over the rules.
use ai_assisted_aws_incident.Prelude.{
  ℕ, Bool, true, false, not, ◌&&◌, String, Option, none, some, List, [], ◌∷◌, ltb, any, ◌==◌,
  if◌then◌else◌, strip, lower, find_first,
}
use ai_assisted_aws_incident.Value.{
  Value, Fields, end, list, dict, nil, get, get_or, as_list, as_dict, present,
}
use ai_assisted_aws_incident.Contracts.{ActionRequest, action_value}
use ai_assisted_aws_incident.Environ.{Environ, str_of, float_of}

-- The keyword arguments of `evaluate`.
pub record Context : Type 0 where
  pub planner_confidence : Option ℕ
  pub blast_radius : Option String
  pub severity : Option String
  pub evidence_coverage : Option ℕ

-- `raw if isinstance(raw, list) else []`
abbrev pub listed : Value → List Value
listed v = elim (as_list v) [ none ↦ [] | some vs ↦ vs ]

module _ (env : Environ) where
  -- `_action_in_rule(action, [str(x) for x in values])`
  abbrev pub action_in_rule : ActionRequest → List Value → Bool
  action_in_rule action values =
      any (λ v. strip (str_of env v) == action_value action.action_type) values

  abbrev pub action_type_fits : ActionRequest → List Value → Bool
  action_type_fits action [] = true
  action_type_fits action (v ∷ vs) = action_in_rule action (v ∷ vs)

  abbrev pub parsed_fits : ℕ → Option ℕ → Bool
  parsed_fits confidence none = false
  parsed_fits confidence (some least) = not (ltb confidence least)

  abbrev pub confidence_fits : Option Value → Option ℕ → Bool
  confidence_fits none confidence = true
  confidence_fits (some least) none = false
  confidence_fits (some least) (some confidence) = parsed_fits confidence (float_of env least)

  abbrev pub blast_fits : Option Value → Option String → Bool
  blast_fits none blast = true
  blast_fits (some wanted) none = false
  blast_fits (some wanted) (some blast) = lower (strip (str_of env wanted)) == lower (strip blast)

  abbrev pub severity_fits : List Value → Option String → Bool
  severity_fits [] severity = true
  severity_fits (v ∷ vs) none = true
  severity_fits (v ∷ vs) (some severity) = any (λ x. str_of env x == severity) (v ∷ vs)

  -- `_when_matches`
  unfoldable pub when_matches : Fields → ActionRequest → Context → Bool
  when_matches when action ctx =
      action_type_fits action (listed (get_or "actionTypeIn" (list nil) when))
      && confidence_fits (present (get "confidenceMin" when)) ctx.planner_confidence
      && blast_fits (present (get "blastRadius" when)) ctx.blast_radius
      && severity_fits (listed (get_or "severityIn" (list nil) when)) ctx.severity

  -- The test of one round of the loop: a rule that is no map, or whose `when` is none, is passed over.
  unfoldable pub rule_matches : ActionRequest → Context → Value → Bool
  rule_matches action ctx rule = elim (as_dict rule) [
    | none ↦ false
    | some fields ↦ elim (as_dict (get_or "when" (dict end) fields)) [
      | none ↦ false
      | some when ↦ when_matches when action ctx
    ]
  ]

  -- The loop, up to its `break`.
  abbrev pub first_rule : ActionRequest → Context → List Value → Option Value
  first_rule action ctx rules = find_first (rule_matches action ctx) rules

-- The fields of a rule that has matched.
abbrev pub rule_fields : Value → Fields
rule_fields v = elim (as_dict v) [ none ↦ end | some fs ↦ fs ]

-- `str(rule.get("name", "")) or None`
abbrev pub name_or_none : String → Option String
name_or_none s = if s == "" then none else some s
