-- ===== src/Router/Laws.antt =====
-- The router's decisions.
use ai_assisted_aws_incident.Router.{
  go_to, Choice, normalize_evidence_intents, triage_of, decision_of, final_choice, is_hypothesis,
  choose, merge_router_allowed_with_plan, is_change, deterministic_next_step,
}
use ai_assisted_aws_incident.Prelude.{
  ◌≢◌, ◌≡◌, refl, ap, ◌⊎◌, inl, inr, Bool, true, false, not, ◌&&◌, ◌||◌, String, List, [], ◌∷◌, All,
  arith, contains, select, holds, or_list, any, is_empty, Bool-cases, ◌==◌, if◌then◌else◌, eq_iff,
  lower,
}
use ai_assisted_aws_incident.Value.{get, get_or, text}
use ai_assisted_aws_incident.Contracts.{
  ActionType, ActionType-discrete, IncidentRecord, ResponsePlan, RouterDecision,
}
use ai_assisted_aws_incident.Environ.{Environ, str_of}
use ai_assisted_aws_incident.Policy.{is_read_only}
use ai_assisted_aws_incident.World.{World, ok, >>=-eq-ok, fresh_id, utcnow}

All-select : {A : Type 0} (p : A → Bool) (xs : List A) → All (λ x. p x ≡ true) (select p xs)
All-select p [] = tt
All-select p (x ∷ xs) = elim (Bool-cases (p x)) [
  | inl h ↦ rw h (h, All-select p xs)
  | inr h ↦ rw h (All-select p xs)
]

All-or_list :
    {A : Type 0} (P : A → Type 0) (xs ys : List A) → All P xs → All P ys → All P (or_list xs ys)
All-or_list P [] ys hx hy = hy
All-or_list P (x ∷ xs) ys hx hy = hx

All-weaken :
    {A : Type 0} (p q : A → Bool) (xs : List A)
    → ((x : A) → p x ≡ true → q x ≡ true)
    → All (λ x. p x ≡ true) xs
    → All (λ x. q x ≡ true) xs
All-weaken p q [] f hs = tt
All-weaken p q (x ∷ xs) f (h, hs) = (f x h, All-weaken p q xs f hs)

holds-true : {P : Type 0} (d : Dec P) → P → holds d ≡ true
holds-true (yes _) p = refl
holds-true (no n) p = absurd (n p)

contains_self : (xs : List ActionType) → All (λ a. contains ActionType-discrete a xs ≡ true) xs
contains_self [] = tt
contains_self (x ∷ xs) = (
  ap (λ b. b || contains ActionType-discrete x xs) (holds-true (ActionType-discrete x x) refl),
  All-weaken (λ a. contains ActionType-discrete a xs) (λ a. contains ActionType-discrete a (x ∷ xs))
      xs (λ a h. ground arith) (contains_self xs),
)

-- Behind the merge a decision allows only actions that the response plan allows, and it allows some
-- when the plan does, whatever the language model said.
pub merge_router_allowed_with_plan-allowed :
    (d : RouterDecision) (plan : ResponsePlan)
    → All
        (λ a. contains ActionType-discrete a plan.allowed_actions ≡ true)
        (merge_router_allowed_with_plan d plan).allowed_actions
      × (is_empty (merge_router_allowed_with_plan d plan).allowed_actions ≡ true
          → is_empty plan.allowed_actions ≡ true)
unfolding merge_router_allowed_with_plan
merge_router_allowed_with_plan-allowed d plan =
    let some_kept =
      select (λ a. contains ActionType-discrete a plan.allowed_actions) d.allowed_actions in
    (
      All-or_list _ some_kept plan.allowed_actions (All-select _ d.allowed_actions)
          (contains_self plan.allowed_actions),
      empty some_kept,
    )
  where
    empty :
        (xs : List ActionType)
        → is_empty (or_list xs plan.allowed_actions) ≡ true
        → is_empty plan.allowed_actions ≡ true
    empty [] h = h
    empty (x ∷ xs) h = absurd (ground arith)

-- What an investigation holds before a plan is made of it.
pub record IsComplete (incident : IncidentRecord) : Type 0 where
  pub triaged : is_empty incident.hypotheses ≡ false
  pub observed : is_empty incident.evidence ≡ false
  pub compared : any is_change incident.evidence ≡ true
  pub explained : any is_hypothesis incident.hypotheses ≡ true

not_planner : (s : String) → (s == "planner") ≡ false → s ≢ "planner"
not_planner s no_match e = ground (arith, ap (λ t. t == "planner") e, no_match)

chain-planner :
    (a b c e : Bool) (last : Choice)
    → (if a
        then go_to "triage"
        else if b
        then go_to "evidence"
        else if not c
        then go_to "change"
        else if not e
        then go_to "rca"
        else last).step
      ≡ "planner"
    → (a ≡ false) × (b ≡ false) × (c ≡ true) × (e ≡ true) × (last.step ≡ "planner")
chain-planner true b c e last h = absurd (not_planner "triage" refl h)
chain-planner false true c e last h = absurd (not_planner "evidence" refl h)
chain-planner false false false e last h = absurd (not_planner "change" refl h)
chain-planner false false true false last h = absurd (not_planner "rca" refl h)
chain-planner false false true true last h = (refl, refl, refl, refl, h)

middle-planner :
    (x y : Bool) (a b c : Choice)
    → (a.step == "planner") ≡ false
    → (c.step == "planner") ≡ false
    → (if x then a else if y then b else c).step ≡ "planner"
    → (x ≡ false) × (y ≡ true)
middle-planner true y a b c na nc h = absurd (not_planner a.step na h)
middle-planner false true a b c na nc h = (refl, refl)
middle-planner false false a b c na nc h = absurd (not_planner c.step nc h)

final_choice-planner :
    (only : Bool) (kind priority : String)
    → (final_choice only kind priority).step ≡ "planner"
    → (only ≡ false) × (kind ≡ "performance") × ((priority ≡ "p1") ⊎ (priority ≡ "p2"))
unfolding final_choice
final_choice-planner only kind priority h =
    let (unheld, both) =
      middle-planner (only || priority == "p3")
        (kind == "performance" && (priority == "p1" || priority == "p2")) _ _ _ refl refl h in
    (
      ground arith,
      ground (arith, eq_iff kind "performance"),
      ground (arith, eq_iff priority "p1", eq_iff priority "p2"),
    )

choose-planner :
    (incident : IncidentRecord) (only : Bool) (kind priority : String)
    → (choose incident only kind priority).step ≡ "planner"
    → IsComplete incident
      × (only ≡ false)
      × (kind ≡ "performance")
      × ((priority ≡ "p1") ⊎ (priority ≡ "p2"))
unfolding choose
choose-planner incident only kind priority h =
    let (triaged, observed, compared, explained, last) = chain-planner _ _ _ _ _ h in
    let (stays, performance, urgent) = final_choice-planner only kind priority last in
    (
      record { triaged = triaged; observed = observed; compared = compared; explained = explained },
      stays,
      performance,
      urgent,
    )

module _ (env : Environ) where
  -- The rules ask for a plan only behind a triage, evidence, a comparison with changes and a hypothesis,
  -- under a plan that is not read-only, and for a performance incident of priority p1 or p2.
  pub deterministic_next_step-planner :
      (incident : IncidentRecord) (plan : ResponsePlan) (w : World) {d : RouterDecision} {v : World}
      → deterministic_next_step env incident plan w ≡ (ok d, v)
      → d.next_workflow ≡ "planner"
      → IsComplete incident
        × (is_read_only plan.policy_class ≡ false)
        × (lower (str_of env (get_or "incident_type" (text "") (triage_of incident.hypotheses)))
            ≡ "performance")
        × (let priority =
              lower (str_of env (get_or "priority" (text "p2") (triage_of incident.hypotheses))) in
            (priority ≡ "p1") ⊎ (priority ≡ "p2"))
  unfolding deterministic_next_step decision_of fresh_id utcnow
  deterministic_next_step-planner incident plan w {d} {v} h p =
      let (intents, v₁, _, h₁) =
        >>=-eq-ok
          (normalize_evidence_intents
            (get "next_required_evidence" (triage_of incident.hypotheses)))
          _ w h in
      choose-planner incident _ _ _ (ground arith)
