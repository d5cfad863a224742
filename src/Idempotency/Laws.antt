-- ===== src/Idempotency/Laws.antt =====
-- How often a key is granted.
use ai_assisted_aws_incident.Prelude.{
  Bool-cases, inl, inr, ◌≡◌, ℕ, ◌+◌, ◌≤◌, Bool, true, false, String, some, List, [], ◌∷◌, any, ◌==◌,
  is_some, ◌||◌, not, arith, if◌then◌else◌, eq_iff,
}
use ai_assisted_aws_incident.Executor
use ai_assisted_aws_incident.World.{World, ok}
use ai_assisted_aws_incident.Dict.{lookup, lookup-insert}
use ai_assisted_aws_incident.Idempotency.{
  Keys, Call, ensure_schema, insert_key, claim_fallback, claim_without, claim, grants_of, grants,
}

-- What the table, and what the set, can still grant of a key.
abbrev pub left_in_table : String → Keys → ℕ
left_in_table key keys = if is_some (lookup key keys.table) then 0 else 1

abbrev pub left_in_memory : Bool → String → Keys → ℕ
left_in_memory demo_mode key keys =
    if keys.schema_ready || not demo_mode
    then 0
    else if any (λ k. k == key) keys.fallback
    then 0
    else 1

abbrev pub left : Bool → String → Keys → ℕ
left demo_mode key keys = left_in_table key keys + left_in_memory demo_mode key keys

insert_key-left :
    (demo_mode reached : Bool) (key : String) (c : Call) (keys : Keys)
    → grants_of (insert_key reached c.key c.action_id keys) key c
        + left demo_mode key (insert_key reached c.key c.action_id keys).1
      ≤ left demo_mode key keys
unfolding insert_key
insert_key-left demo_mode reached key c keys = grind (arith, lookup-insert, eq_iff c.key key)

claim_fallback-left :
    (key : String) (c : Call) (keys : Keys)
    → keys.schema_ready ≡ false
    → grants_of (some (claim_fallback c.key keys).0, (claim_fallback c.key keys).1) key c
        + left true key (claim_fallback c.key keys).1
      ≤ left true key keys
unfolding claim_fallback
claim_fallback-left key c keys unready = grind (arith, eq_iff c.key key)

ensure_schema-left :
    (demo_mode made : Bool) (key : String) (keys : Keys)
    → left demo_mode key (ensure_schema made keys).1 ≤ left demo_mode key keys
unfolding ensure_schema
ensure_schema-left demo_mode made key keys = ground arith

ensure_schema-unready :
    (made : Bool) (keys : Keys)
    → (ensure_schema made keys).0 ≡ false
    → (ensure_schema made keys).1.schema_ready ≡ false
unfolding ensure_schema
ensure_schema-unready made keys h = ground arith

-- The rest of a call, from the end of `_ensure_schema`.
rest-left :
    (demo_mode : Bool) (key : String) (c : Call) (keys : Keys)
    → keys.schema_ready ≡ false
    → grants_of (claim_without demo_mode c.key keys) key c
        + left demo_mode key (claim_without demo_mode c.key keys).1
      ≤ left demo_mode key keys
unfolding claim_without
rest-left true key c keys unready = claim_fallback-left key c keys unready
rest-left false key c keys unready = omega arith

claim-left :
    (demo_mode : Bool) (key : String) (c : Call) (keys : Keys)
    → grants_of (claim demo_mode c.reach c.key c.action_id keys) key c
        + left demo_mode key (claim demo_mode c.reach c.key c.action_id keys).1
      ≤ left demo_mode key keys
unfolding claim
claim-left demo_mode key c keys =
    let made = c.reach.schema_made in
    let entered = (ensure_schema made keys).1 in
    let fewer = ensure_schema-left demo_mode made key keys in
    elim (Bool-cases (ensure_schema made keys).0) [
      | inl ready ↦
          let inserted = insert_key-left demo_mode c.reach.inserted key c entered in
          rw ready (omega (arith, inserted, fewer))
      | inr unready ↦
          let kept = rest-left demo_mode key c entered (ensure_schema-unready made keys unready) in
          rw unready (omega (arith, kept, fewer))
    ]

-- However the database comes and goes, a key that is in neither place is granted at most once from the table,
-- and in demo mode, while no call has found the table, at most once more from memory; a key that is in
-- the table, or in the set while only that is read, is not granted from there.
pub grants-bound :
    (demo_mode : Bool) (key : String) (cs : List Call) (keys : Keys)
    → grants demo_mode key cs keys ≤ left demo_mode key keys
unfolding grants
grants-bound demo_mode key [] keys = omega arith
grants-bound demo_mode key (c ∷ cs) keys = omega (
  arith,
  claim-left demo_mode key c keys,
  grants-bound demo_mode key cs (claim demo_mode c.reach c.key c.action_id keys).1,
)

-- With the tables made and the database at hand, a call answers and writes as the executor's `claim`.
claim-table :
    (demo_mode made : Bool) (key action_id : String) (memory : List String) (w : World)
    → (granted : Bool) × (ai_assisted_aws_incident.Executor.claim key action_id w
        ≡ (ok granted, (ai_assisted_aws_incident.Executor.claim key action_id w).1))
      × (claim demo_mode
            (record { schema_made = made; inserted = true })
            key
            action_id
            (record { schema_ready = true; fallback = memory; table = w.claims })
          ≡ (
            some granted,
            record {
              schema_ready = true;
              fallback = memory;
              table = (ai_assisted_aws_incident.Executor.claim key action_id w).1.claims;
            },
          ))
unfolding claim ensure_schema insert_key ai_assisted_aws_incident.Executor.claim
claim-table demo_mode made key action_id memory w =
    elim (Bool-cases (is_some (lookup key w.claims))) [
      | inl taken ↦ (false, ground (arith, taken), ground (arith, taken))
      | inr free ↦ (true, ground (arith, free), ground (arith, free))
    ]
