-- ===== src/Idempotency.antt =====
-- `IdempotencyStore` of src/src/persistence/idempotency.py with both of its places: the table, and the set that
-- stands in for it in demo mode. `Executor` has `claim` on the table alone.
pub mod Laws
pub mod Tests
use ai_assisted_aws_incident.Prelude.{
  ◌+◌, ℕ, Bool, true, false, not, String, Option, none, some, List, [], ◌∷◌, any, ◌==◌, is_some,
  if◌then◌else◌,
}
use ai_assisted_aws_incident.Dict.{Dict, lookup, insert}

-- The store, whose engine is there whenever its schema is ready.
pub record Keys : Type 0 where
  pub schema_ready : Bool
  pub fallback : List String
  pub table : Dict String

-- Whether `_ensure_schema` and the insertion reach the database at a call.
pub record Reach : Type 0 where
  pub schema_made : Bool
  pub inserted : Bool

-- `_ensure_schema`: `false` is an exception.
unfoldable pub ensure_schema : Bool → Keys → Bool × Keys
ensure_schema made keys =
    if keys.schema_ready
    then (true, keys)
    else if made
    then (true, record keys { schema_ready = true })
    else (false, keys)

-- `INSERT … ON CONFLICT (key) DO NOTHING` and `result.rowcount == 1`; `none` is an exception.
unfoldable pub insert_key : Bool → String → String → Keys → Option Bool × Keys
insert_key reached key action_id keys =
    if not reached
    then (none, keys)
    else if is_some (lookup key keys.table)
    then (some false, keys)
    else (some true, record keys { table = insert key action_id keys.table })

-- The handler of the exception, in demo mode.
unfoldable pub claim_fallback : String → Keys → Bool × Keys
claim_fallback key keys =
    if any (λ k. k == key) keys.fallback
    then (false, keys)
    else (true, record keys { fallback = key ∷ keys.fallback })

-- The answer to a call whose `_ensure_schema` raised.
unfoldable pub claim_without : Bool → String → Keys → Option Bool × Keys
claim_without demo_mode key keys =
    if demo_mode
    then (let (granted, kept) = claim_fallback key keys in (some granted, kept))
    else (none, keys)

-- `claim`
unfoldable pub claim : Bool → Reach → String → String → Keys → Option Bool × Keys
claim demo_mode reach key action_id keys =
    let (ready, entered) = ensure_schema reach.schema_made keys in
    if ready
    then insert_key reach.inserted key action_id entered
    else claim_without demo_mode key entered

-- A call of `claim`.
pub record Call : Type 0 where
  pub reach : Reach
  pub key : String
  pub action_id : String

-- How often a key is granted in a run of calls.
abbrev pub grants_of : Option Bool × Keys → String → Call → ℕ
grants_of (some true, _) key c = if c.key == key then 1 else 0
grants_of _ key c = 0

unfoldable pub grants : Bool → String → List Call → Keys → ℕ
grants demo_mode key [] keys = 0
grants demo_mode key (c ∷ cs) keys =
    let answer = claim demo_mode c.reach c.key c.action_id keys in
    grants_of answer key c + grants demo_mode key cs answer.1
