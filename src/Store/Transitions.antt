-- ===== src/Store/Transitions.antt =====
-- The life of an incident as a relation, and what the stored states can do.
use ai_assisted_aws_incident.Prelude.{◌≡◌, refl, ◌↔◌, ◌⊎◌, true, arith}
use ai_assisted_aws_incident.Contracts.{
  IncidentState, opened, investigating, planned, waiting_approval, executing, resolved, reopened,
}
use ai_assisted_aws_incident.Store.Machine.{may_follow}

-- The edges of the life cycle.
pub data Step : IncidentState → IncidentState → Type 0 where
  stay : {s : IncidentState} → Step s s
  investigate : {s : IncidentState} → Step s investigating
  plan :
      {s : IncidentState}
      → (s ≡ investigating) ⊎ ((s ≡ waiting_approval) ⊎ (s ≡ reopened))
      → Step s planned
  ask : {s : IncidentState} → (s ≡ investigating) ⊎ (s ≡ planned) → Step s waiting_approval
  execute :
      {s : IncidentState}
      → (s ≡ investigating) ⊎ ((s ≡ planned) ⊎ (s ≡ waiting_approval))
      → Step s executing
  resolve :
      {s : IncidentState}
      → (s ≡ investigating) ⊎ ((s ≡ planned) ⊎ (s ≡ executing))
      → Step s resolved
  reopen :
      {s : IncidentState}
      → (s ≡ opened) ⊎ ((s ≡ investigating) ⊎ ((s ≡ executing) ⊎ (s ≡ resolved)))
      → Step s reopened

may_follow-Step : (s t : IncidentState) → may_follow s t ≡ true → Step s t
unfolding may_follow
may_follow-Step opened opened h = stay
may_follow-Step _ opened h = cc
may_follow-Step s investigating h = investigate
may_follow-Step planned planned h = stay
may_follow-Step _ planned h = plan (ground arith)
may_follow-Step waiting_approval waiting_approval h = stay
may_follow-Step _ waiting_approval h = ask (ground arith)
may_follow-Step executing executing h = stay
may_follow-Step _ executing h = execute (ground arith)
may_follow-Step resolved resolved h = stay
may_follow-Step _ resolved h = resolve (ground arith)
may_follow-Step reopened reopened h = stay
may_follow-Step _ reopened h = reopen (ground arith)

may_follow_refl : (s : IncidentState) → may_follow s s ≡ true
unfolding may_follow
may_follow_refl opened = refl
may_follow_refl _ = refl

may_follow-investigating : (s : IncidentState) → may_follow s investigating ≡ true
unfolding may_follow
may_follow-investigating opened = refl
may_follow-investigating _ = refl

Step-may_follow : {s t : IncidentState} → Step s t → may_follow s t ≡ true
unfolding may_follow
Step-may_follow (stay {s}) = may_follow_refl s
Step-may_follow (investigate {s}) = may_follow-investigating s
Step-may_follow (plan {s} h) = ground arith
Step-may_follow (ask {s} h) = ground arith
Step-may_follow (execute {s} h) = ground arith
Step-may_follow (resolve {s} h) = ground arith
Step-may_follow (reopen {s} h) = ground arith

-- The validation accepts a change of state exactly when it is an edge of the life cycle.
pub may_follow_iff : (s t : IncidentState) → (may_follow s t ≡ true) ↔ Step s t
may_follow_iff s t = (may_follow-Step s t, Step-may_follow)

pub data Reach (s : IncidentState) : IncidentState → Type 0 where
  here : Reach s s
  next : {t u : IncidentState} → Reach s t → Step t u → Reach s u
