-- ===== src/HotState/Refines.antt =====
-- The hot state's locks implement the tables of their holders.
use mathlib.Core.Path.{fun_ext}
use ai_assisted_aws_incident.Prelude.{
  ℕ, ◌+◌, Bool, true, false, ◌≡◌, refl, ap, ◌∙◌, String, Option, none, some, List, [], ◌∷◌,
  if◌then◌else◌, is_some, arith, eq_iff,
}
use ai_assisted_aws_incident.Dict.{Dict, lookup, insert, erase, lookup-insert, lookup-erase}
use ai_assisted_aws_incident.HotState.{
  is_token, HotState, is_due, drop_due, set_if_absent, acquire_lock, release_lock, renew_lock,
}
use ai_assisted_aws_incident.HotState.Table.{
  Call, set_absent, take_lock, give_back, extend_lock, elapse, reach, serve, serve_all, Table,
  holders, assign, allot, allot_all,
}

-- A key is gone from Redis once it is due.
pub lookup-drop_due :
    (now : ℕ) (deadlines : Dict ℕ) (k : String) (d : Dict String)
    → lookup k (drop_due now deadlines d)
      ≡ (if is_due now (lookup k deadlines) then none else lookup k d)
unfolding drop_due lookup
lookup-drop_due now deadlines k [] = ground arith
lookup-drop_due now deadlines k ((j, v) ∷ d) =
    grind (arith, eq_iff j k, lookup-drop_due now deadlines k d)

inserted :
    {A : Type 0} (key : String) (a : A) (d : Dict A)
    → (λ k. lookup k (insert key a d)) ≡ assign key (some a) (λ k. lookup k d)
inserted key a d = fun_ext λ k. lookup-insert key k a d

erased :
    {A : Type 0} (key : String) (d : Dict A)
    → (λ k. lookup k (erase key d)) ≡ assign key none (λ k. lookup k d)
erased key d = fun_ext λ k. lookup-erase key k d

abbrev table :
    Bool → ℕ → (String → Option String) → (String → Option ℕ) → (String → Option String) → Table
table up now owner until own = record {
  up = up;
  now = now;
  owner = owner;
  until = until;
  own = own;
}

abbrev hot : Bool → ℕ → Dict String → Dict ℕ → Dict String → HotState
hot up now remote deadlines fallback = record {
  up = up;
  seconds = now;
  remote = remote;
  deadlines = deadlines;
  fallback = fallback;
}

abbrev view : Bool × HotState → Bool × Table
view (b, h) = (b, holders h)

same_remote :
    (up : Bool) (now : ℕ) {o p : String → Option String} {u v : String → Option ℕ}
    (own : String → Option String)
    → o ≡ p
    → u ≡ v
    → table up now o u own ≡ table up now p v own
same_remote up now {o} {p} {u} {v} own e e' =
    ap (λ x. table up now x u own) e ∙ ap (λ x. table up now p x own) e'

same_own :
    (up : Bool) (now : ℕ) (o : String → Option String) (u : String → Option ℕ)
    {own other : String → Option String}
    → own ≡ other
    → table up now o u own ≡ table up now o u other
same_own up now o u e = ap (table up now o u) e

-- A call that does its work under a test, and nothing else.
view-if :
    (c : Bool) (h g : HotState) {t : Table}
    → holders h ≡ t
    → view (if c then (true, h) else (false, g)) ≡ (if c then (true, t) else (false, holders g))
view-if true h g e = ap (λ t. (true, t)) e
view-if false h g e = refl

view-unless :
    (c : Bool) (h g : HotState) {t : Table}
    → holders h ≡ t
    → view (if c then (false, g) else (true, h)) ≡ (if c then (false, holders g) else (true, t))
view-unless true h g e = refl
view-unless false h g e = ap (λ t. (true, t)) e

claim-allot :
    (key value : String) (s : ℕ) (up : Bool) (now : ℕ) (r : Dict String) (d : Dict ℕ)
    (f : Dict String)
    → view (set_if_absent key value s (hot up now r d f))
      ≡ allot (set_absent key value s) (holders (hot up now r d f))
unfolding allot set_if_absent
claim-allot key value s true now r d f =
    view-unless (is_some (lookup key r)) _ _
      (same_remote true now (λ k. lookup k f) (inserted key value r) (inserted key (now + s) d))
claim-allot key value s false now r d f =
    view-unless (is_some (lookup key f)) _ _
      (same_own false now (λ k. lookup k r) (λ k. lookup k d) (inserted key value f))

renew-allot :
    (key token : String) (s : ℕ) (up : Bool) (now : ℕ) (r : Dict String) (d : Dict ℕ)
    (f : Dict String)
    → view (renew_lock key token s (hot up now r d f))
      ≡ allot (extend_lock key token s) (holders (hot up now r d f))
unfolding allot renew_lock
renew-allot key token s true now r d f =
    view-if (is_token (lookup key r) token) _ _
      (same_remote true now (λ k. lookup k f) refl (inserted key (now + s) d))
renew-allot key token s false now r d f = view-if (is_token (lookup key f) token) _ _ refl

release-allot :
    (key token : String) (up : Bool) (now : ℕ) (r : Dict String) (d : Dict ℕ) (f : Dict String)
    → view (release_lock key token (hot up now r d f))
      ≡ allot (give_back key token) (holders (hot up now r d f))
unfolding allot release_lock
release-allot key token true now r d f =
    view-if (is_token (lookup key r) token) _ _
      (same_remote true now (λ k. lookup k f) (erased key r) (erased key d))
release-allot key token false now r d f =
    view-if (is_token (lookup key f) token) _ _
      (same_own false now (λ k. lookup k r) (λ k. lookup k d) (erased key f))

serve-allot : (c : Call) (h : HotState) → view (serve c h) ≡ allot c (holders h)
unfolding serve allot acquire_lock
serve-allot (set_absent key value s) h =
    claim-allot key value s h.up h.seconds h.remote h.deadlines h.fallback
serve-allot (take_lock key token s) h =
    claim-allot key token s h.up h.seconds h.remote h.deadlines h.fallback
serve-allot (extend_lock key token s) h =
    renew-allot key token s h.up h.seconds h.remote h.deadlines h.fallback
serve-allot (give_back key token) h =
    release-allot key token h.up h.seconds h.remote h.deadlines h.fallback
serve-allot (elapse n) h =
    ap
      (λ o.
        (true, table h.up (h.seconds + n) o (λ k. lookup k h.deadlines) (λ k. lookup k h.fallback)))
      (fun_ext λ k. lookup-drop_due (h.seconds + n) h.deadlines k h.remote)
serve-allot (reach b) h = refl

-- Every run of calls, of the passing of time and of changes to whether Redis is reached gives each client the
-- answer that the tables give, and leaves the tables' holders and deadlines.
pub serve_all-allot_all :
    (cs : List Call) (h : HotState)
    → ((serve_all cs h).0 ≡ (allot_all cs (holders h)).0)
      × (holders (serve_all cs h).1 ≡ (allot_all cs (holders h)).1)
unfolding serve_all allot_all
serve_all-allot_all [] h = (refl, refl)
serve_all-allot_all (c ∷ cs) h =
    let first = serve-allot c h in
    let h' = (serve c h).1 in
    let (answers, last) = serve_all-allot_all cs h' in
    let e : (serve c h).0 ≡ (allot c (holders h)).0 = ap (λ o. o.0) first in
    let same : holders h' ≡ (allot c (holders h)).1 = ap (λ o. o.1) first in
    (cc (e, answers, same), last ∙ ap (λ t. (allot_all cs t).1) same)
