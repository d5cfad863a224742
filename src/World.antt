-- ===== src/World.antt =====
-- The state that the handlers share, and a handler as a state and exception monad. What was
-- written before a raise stays written.
pub mod Workload
use ai_assisted_aws_incident.Prelude.{
  true, false, ◌⊎◌, inl, inr, refl, ap, sym, ◌≡◌, ℕ, suc, Bool, String, Option, none, some, List,
  [], ◌∷◌, ◌++◌, if◌then◌else◌, concat,
}
use Prim.Native.String.{slice}
use ai_assisted_aws_incident.Value.{Value, Fields, end, field, text}
use ai_assisted_aws_incident.Contracts.{IncidentRecord}
use ai_assisted_aws_incident.Environ.{Environ}
use ai_assisted_aws_incident.Dict.{Dict}
use ai_assisted_aws_incident.Budget.{LlmBudget}
use ai_assisted_aws_incident.HotState.{HotState}
use Workload.{CheckoutState}

-- An event of src `audit_store.append(event_type, payload)`.
pub record AuditEvent : Type 0 where
  pub event_type : String
  pub payload : Fields
  pub created_at : ℕ

pub record World : Type 0 where
  pub incidents : Dict IncidentRecord  -- the table `incidents`, by primary key
  pub audit : List AuditEvent  -- the table `audit_events`, oldest first
  pub claims : Dict String  -- the table `idempotency_keys`: key and action id
  pub hot : HotState
  pub workload : CheckoutState  -- the checkout service behind `CheckoutServiceClient`
  pub memory : Dict (Dict String)  -- `InMemoryKnowledgeProvider.store`
  pub budget : Option LlmBudget  -- the context variable `_llm_budget_var`
  pub posts : ℕ  -- the requests sent to the language model
  pub clock_reads : ℕ
  pub uuids : ℕ

-- What a handler raises: `HTTPException(status, detail)`, or another exception by its class.
pub data Failure : Type 0 where
  http : ℕ → String → Failure
  value_error type_error runtime_error validation_error : Failure
  structured_llm_error attribute_error index_error key_error : Failure
  http_error timed_out connection_error : Failure

pub data Result (A : Type 0) : Type 0 where
  ok : A → Result A
  err : Failure → Result A

abbrev pub Action : Type 0 → Type 0
Action A = World → Result A × World

module _ {A : Type 0} where
  abbrev pub pure : A → Action A
  pure a w = (ok a, w)

  abbrev pub raise : Failure → Action A
  raise e w = (err e, w)

  abbrev pub gets : (World → A) → Action A
  gets f w = (ok (f w), w)

  abbrev pub or_raise : Option A → Failure → Action A
  or_raise none e w = (err e, w)
  or_raise (some a) e w = (ok a, w)

-- What comes behind an action, on how that ended.
abbrev pub run_rest : {A B : Type 0} → (A → Action B) → Result A × World → Result B × World
run_rest f (ok a, w) = f a w
run_rest f (err e, w) = (err e, w)

infixl 5 ◌>>=◌ ◌>>◌
abbrev pub ◌>>=◌ : {A B : Type 0} → Action A → (A → Action B) → Action B
◌>>=◌ m f w = run_rest f (m w)

abbrev pub ◌>>◌ : {A B : Type 0} → Action A → Action B → Action B
m >> k = m >>= λ _. k

-- A bind by how its first action ended.
pub >>=-ok :
    {A B : Type 0} (m : Action A) (f : A → Action B) {w w' : World} {a : A}
    → m w ≡ (ok a, w')
    → (m >>= f) w ≡ f a w'
>>=-ok m f h = ap (run_rest f) h

pub >>=-err :
    {A B : Type 0} (m : Action A) (f : A → Action B) {w w' : World} {e : Failure}
    → m w ≡ (err e, w')
    → (m >>= f) w ≡ (err e, w')
>>=-err m f h = ap (run_rest f) h

run_rest-eq-ok :
    {A B : Type 0} (o : Result A × World) (f : A → Action B) {w' : World} {b : B}
    → run_rest f o ≡ (ok b, w')
    → (a : A) × (v : World) × (o ≡ (ok a, v)) × (f a v ≡ (ok b, w'))
run_rest-eq-ok (ok a, v) f h = (a, v, refl, h)
run_rest-eq-ok (err e, v) f h = cc

-- A bind that ended well: its first action did, and the rest from where that ended.
pub >>=-eq-ok :
    {A B : Type 0} (m : Action A) (f : A → Action B) (w : World) {w' : World} {b : B}
    → (m >>= f) w ≡ (ok b, w')
    → (a : A) × (v : World) × (m w ≡ (ok a, v)) × (f a v ≡ (ok b, w'))
>>=-eq-ok m f w h = run_rest-eq-ok (m w) f h

abbrev pub raise_if : Bool → Failure → Action (Unit {0})
raise_if b e w = if b then (err e, w) else (ok tt, w)

abbrev pub modify : (World → World) → Action (Unit {0})
modify f w = (ok tt, f w)

-- `try: m finally: last`
abbrev pub finally : {A : Type 0} → Action A → (World → World) → Action A
finally m last w = let (r, w') = m w in (r, last w')

-- `with llm_budget_context(): m`
unfoldable pub with_budget : {A : Type 0} → Environ → Action A → Action A
with_budget env m w =
    let (r, w') = m (record w {
      budget = some (record {
        max_calls = env.agent.llm_max_calls_per_route;
        max_tokens = env.agent.llm_max_tokens_per_route;
        calls = 0;
        tokens_used = 0;
      });
    }) in
    (r, record w' { budget = w.budget })

module _ (env : Environ) where
  -- `datetime.utcnow()`
  unfoldable pub utcnow : Action ℕ
  utcnow w = (ok (env.clock w.clock_reads), record w { clock_reads = suc w.clock_reads })

  -- `f"{prefix}{uuid4().hex[:digits]}"`
  unfoldable pub fresh_id : String → ℕ → Action String
  fresh_id prefix digits w = (
    ok (concat (prefix ∷ slice (env.uuid_hex w.uuids) 0 digits ∷ [])),
    record w { uuids = suc w.uuids },
  )

  -- `audit_store.append(event_type, payload)` with the database at hand; the row has the second of the
  -- two times that it reads
  unfoldable pub append_audit : String → Fields → Action (Unit {0})
  append_audit event_type payload w = (
    ok tt,
    record w {
      audit =
          w.audit
          ++ record {
            event_type = event_type;
            payload = payload;
            created_at = env.clock (suc w.clock_reads);
          }
            ∷ [];
      clock_reads = suc (suc w.clock_reads);
    },
  )

-- `{"incident_id": incident_id, …}`
abbrev pub about : String → Fields → Fields
about incident_id more = field "incident_id" (text incident_id) more

-- How a conditional ended: the way that one of its branches did.
pub if-cases :
    {A : Type 0} (c : Bool) (m k : Action A) (w : World) {o : Result A × World}
    → (if c then m else k) w ≡ o
    → (m w ≡ o) ⊎ (k w ≡ o)
if-cases true m k w h = inl h
if-cases false m k w h = inr h

-- An action under a budget that ended well.
pub with_budget-ok :
    {A : Type 0} (env : Environ) (m : Action A) (w : World) {a : A} {v : World}
    → with_budget env m w ≡ (ok a, v)
    → (u t : World) × (m u ≡ (ok a, t)) × (v.incidents ≡ t.incidents)
unfolding with_budget
with_budget-ok env m w h =
    let started = record w {
      budget = some (record {
        max_calls = env.agent.llm_max_calls_per_route;
        max_tokens = env.agent.llm_max_tokens_per_route;
        calls = 0;
        tokens_used = 0;
      });
    } in
    (
      started,
      (m started).1,
      ap (λ r. (r, (m started).1)) (ap (λ o. o.0) h),
      ap (λ o. o.1.incidents) (sym h),
    )
