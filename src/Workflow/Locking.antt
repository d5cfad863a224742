-- ===== src/Workflow/Locking.antt =====
-- The lock around a route, and the plans that the table refuses.
use ai_assisted_aws_incident.Prelude.{
  not, none, Option, suc, sym, subst, eq_refl, ◌≡◌, ap, ◌⊎◌, inl, inr, true, false, String, some,
  [], ◌∷◌, arith, concat, is_some,
}
use Prim.Native.String.{slice}
use ai_assisted_aws_incident.Contracts.{
  ActionGraph, IncidentRecord, opened, resolved, waiting_approval,
}
use ai_assisted_aws_incident.Environ.{Environ}
use ai_assisted_aws_incident.Dict.{lookup, lookup-erase}
use ai_assisted_aws_incident.HotState.{
  HotState, active, is_token, acquire_lock, release_lock, set_if_absent,
}
use ai_assisted_aws_incident.Planner.{run}
use ai_assisted_aws_incident.Store.{get, may_follow}
use ai_assisted_aws_incident.Store.Laws.{upsert-refused}
use ai_assisted_aws_incident.World.{
  raise_if, with_budget, World, http, value_error, ok, err, fresh_id, ◌>>=◌,
}
use ai_assisted_aws_incident.Workflow.{Agents}
use ai_assisted_aws_incident.Workflow.Routes.{
  route_locked, with_plan, plan_found, route_found, route_incident, create_plan, acquire, lock_key,
}

abbrev pub token_of : Environ → World → String
token_of env w = concat ("token_" ∷ slice (env.uuid_hex w.uuids) 0 32 ∷ [])

release_lock-frees :
    (key token : String) (h : HotState)
    → is_token (lookup key (active (release_lock key token h).1)) token ≡ false
unfolding release_lock
release_lock-frees key token h = grind (arith, lookup-erase, eq_refl key)

acquire_lock-free :
    (key token : String) (h : HotState)
    → is_some (lookup key (active h)) ≡ false
    → (acquire_lock key token 30 h).0 ≡ true
unfolding acquire_lock set_if_absent
acquire_lock-free key token h free = ground arith

module _ (env : Environ) (agents : Agents) (id : String) (w : World) where
  -- A route of an incident whose lock is held is refused, and changes no incident and no lock.
  pub route_incident-locked :
      is_some (lookup (lock_key id) (active w.hot)) ≡ true
      → ((route_incident env agents id w).0 ≡ err (http 423 "incident is currently being routed"))
        × ((route_incident env agents id w).1.incidents ≡ w.incidents)
        × ((route_incident env agents id w).1.hot ≡ w.hot)
  unfolding route_incident fresh_id acquire acquire_lock set_if_absent
  route_incident-locked held = ground arith

  -- The world behind the lock.
  abbrev locked : World
  locked = record w {
    hot = (acquire_lock (lock_key id) (token_of env w) 30 w.hot).1;
    uuids = suc w.uuids;
  }

  route_incident-takes :
      is_some (lookup (lock_key id) (active w.hot)) ≡ false
      → route_incident env agents id w
        ≡ route_locked env agents id (token_of env w) (lookup id w.incidents) locked
  unfolding route_incident fresh_id acquire get
  route_incident-takes free =
      ap
        (λ b.
          (raise_if (not b) (http 423 "incident is currently being routed") >>= λ _.
          get id >>= λ found. route_locked env agents id (token_of env w) found)
            locked)
        (acquire_lock-free (lock_key id) (token_of env w) w.hot free)

  route_locked-frees :
      (token : String) (found : Option IncidentRecord) (u : World)
      → is_token
          (lookup (lock_key id) (active (route_locked env agents id token found u).1.hot))
          token
        ≡ false
  unfolding route_locked
  route_locked-frees token none u = release_lock-frees (lock_key id) token u.hot
  route_locked-frees token (some incident) u =
      release_lock-frees (lock_key id) token (route_found env agents id incident u).1.hot

  -- A route that finds the lock free lets go of it: its token holds no lock of the incident at the end, whether the
  -- incident is unknown or is stored, and its route ends well or raises; the database answers the
  -- read of the incident, and Redis is reached throughout or not at all.
  pub route_incident-releases :
      is_some (lookup (lock_key id) (active w.hot)) ≡ false
      → is_token
          (lookup (lock_key id) (active (route_incident env agents id w).1.hot))
          (token_of env w)
        ≡ false
  route_incident-releases free =
      subst (λ o. is_token (lookup (lock_key id) (active (o.1).hot)) (token_of env w) ≡ false)
        (sym (route_incident-takes free))
        (route_locked-frees (token_of env w) (lookup id w.incidents) locked)

  -- A plan of an incident that is open or resolved is refused by the table behind the planner's run, with
  -- a ValueError.
  pub create_plan-refused :
      {found : IncidentRecord} {done : ActionGraph × IncidentRecord} {v : World}
      {row : IncidentRecord}
      → lookup id w.incidents ≡ some found
      → with_budget env (run env agents.planner_llm found) w ≡ (ok done, v)
      → lookup (done.1).incident_id v.incidents ≡ some row
      → (row.state ≡ opened) ⊎ (row.state ≡ resolved)
      → create_plan env agents id w ≡ (err value_error, v)
  unfolding create_plan plan_found get may_follow
  create_plan-refused {found} {done} {v} {row} known planned stored was =
      let next = with_plan done in
      let bad : may_follow row.state waiting_approval ≡ false = elim was [
        | inl e ↦ ap (λ s. may_follow s waiting_approval) e
        | inr e ↦ ap (λ s. may_follow s waiting_approval) e
      ] in
      let refused = upsert-refused env next v row stored bad in ground arith
