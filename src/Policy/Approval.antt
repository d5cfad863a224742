-- ===== src/Policy/Approval.antt =====
-- Who may skip the approval, and which rule decides.
use ai_assisted_aws_incident.Prelude.{
  ◌∙◌, ◌≢◌, ℕ, ◌≡◌, refl, inl, inr, Bool, true, false, not, ◌&&◌, String, Option, none, some, List,
  [], ◌∷◌, arith, find_first, if◌then◌else◌, Bool-cases,
}
use ai_assisted_aws_incident.Value.{Value, boolean, list, nil, get_or, truthy}
use ai_assisted_aws_incident.Contracts.{ActionRequest, PolicyDecision, ResponsePlan}
use ai_assisted_aws_incident.Environ.{Environ}
use ai_assisted_aws_incident.Policy.{
  approval, by_rule, PolicyEngine, Context, Check, raised, denies, passes, checks, evaluate, decide,
  listed, rule_matches, rule_fields, matched_rule, is_read_only,
}

-- The first rule that matches, as the loop reads the file: the rules in front of it do not match.
pub data Decides (fits : Value → Bool) : List Value → Option Value → Type 0 where
  nobody : Decides fits [] none
  this :
      {rule : Value} {rules : List Value}
      → fits rule ≡ true
      → Decides fits (rule ∷ rules) (some rule)
  later :
      {rule : Value} {rules : List Value} {found : Option Value}
      → fits rule ≡ false
      → Decides fits rules found
      → Decides fits (rule ∷ rules) found

find_first-Decides :
    (fits : Value → Bool) (rules : List Value) → Decides fits rules (find_first fits rules)
find_first-Decides fits [] = nobody
find_first-Decides fits (rule ∷ rules) = elim (Bool-cases (fits rule)) [
  | inl hit ↦ rw hit (this hit)
  | inr miss ↦ rw miss (later miss (find_first-Decides fits rules))
]

-- What the approval rests on, by the rule that decides.
abbrev pub needs_approval : ResponsePlan → Option Value → Bool
needs_approval plan none = not (is_read_only plan.policy_class)
needs_approval plan (some rule) =
    truthy
      (get_or "requireApproval" (boolean (not (is_read_only plan.policy_class))) (rule_fields rule))

by_rule-needs_approval :
    (env : Environ) (engine : PolicyEngine) (plan : ResponsePlan) (rule : Option Value)
    → (by_rule env engine (not (is_read_only plan.policy_class)) rule).0 ≡ needs_approval plan rule
by_rule-needs_approval env engine plan none = refl
by_rule-needs_approval env engine plan (some rule) = refl

module _ (env : Environ) (engine : PolicyEngine) (stamp : String × ℕ) (plan : ResponsePlan)
    (action : ActionRequest) (ctx : Context) where
  decide-approval :
      (autonomous : Bool) (c : Check) (d : PolicyDecision)
      → decide env engine stamp plan action autonomous ctx c ≡ some d
      → d.allowed ≡ true
      → d.requires_approval ≡ (
          if autonomous && not (is_read_only plan.policy_class)
          then false
          else (approval env engine plan action ctx).0)
  decide-approval autonomous raised d e a = cc
  decide-approval autonomous (denies _ _) d e a = ground arith
  decide-approval autonomous passes d e a = cc

  -- Without autonomy an allowed action needs an approval exactly as the first matching rule of the
  -- policy file says; with no matching rule, exactly under a plan that is not read-only.
  pub evaluate-Decides :
      (d : PolicyDecision)
      → evaluate env engine stamp plan action false ctx ≡ some d
      → d.allowed ≡ true
      → (rule : Option Value) × Decides
          (rule_matches env action ctx)
          (listed (get_or "rules" (list nil) engine.approval_policy))
          rule
        × (d.requires_approval ≡ needs_approval plan rule)
  unfolding evaluate
  evaluate-Decides d e a =
      let rule = matched_rule env engine action ctx in
      (
        rule,
        find_first-Decides _ _,
        decide-approval false _ d e a ∙ by_rule-needs_approval env engine plan rule,
      )

-- A denied decision never asks for an approval, and says why.
pub evaluate-denied :
    (env : Environ) (engine : PolicyEngine) (stamp : String × ℕ) (plan : ResponsePlan)
    (action : ActionRequest) (autonomous : Bool) (ctx : Context) (d : PolicyDecision)
    → evaluate env engine stamp plan action autonomous ctx ≡ some d
    → d.allowed ≡ false
    → (d.requires_approval ≡ false) × (d.deny_reason_code ≢ none)
unfolding evaluate
evaluate-denied env engine stamp plan action autonomous ctx d e a =
    denied (checks env engine plan action autonomous ctx) e
  where
    denied :
        (c : Check)
        → decide env engine stamp plan action autonomous ctx c ≡ some d
        → (d.requires_approval ≡ false) × (d.deny_reason_code ≢ none)
    denied raised h = cc
    denied (denies _ _) h = ground arith
    denied passes h = ground arith
