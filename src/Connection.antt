-- ===== src/Connection.antt =====
-- `_ensure_schema`, which `IncidentRepository` of apps/api/routers/incident_store/repository.py and
-- `AuditStore` of apps/api/routers/audit/store.py share word for word: the first call decides whether a store
-- works on the database or, in demo mode only, in memory. How the engine and the tables fare at
-- a call is an argument.
pub mod Laws
pub mod Tests
use ai_assisted_aws_incident.Prelude.{Bool, true, false, List, [], ◌∷◌, if◌then◌else◌}

-- The fields `_engine is not None`, `_schema_ready` and `_fallback_mode`.
pub record Link : Type 0 where
  pub engine : Bool
  pub schema_ready : Bool
  pub fallback_mode : Bool

-- `__init__`
abbrev pub unlinked : Link
unlinked = record { engine = false; schema_ready = false; fallback_mode = false }

-- Whether `create_async_engine` and the statements that create the table return at a call.
pub record Attempt : Type 0 where
  pub engine_made : Bool
  pub schema_made : Bool

-- The `except` blocks: `false` is the exception raised again.
unfoldable pub fall_back : Bool → Link → Bool × Link
fall_back demo_mode link =
    if demo_mode
    then (true, record link { fallback_mode = true; schema_ready = true })
    else (false, link)

unfoldable pub create_schema : Bool → Attempt → Link → Bool × Link
create_schema demo_mode attempt link =
    if attempt.schema_made
    then (true, record link { schema_ready = true })
    else fall_back demo_mode link

-- `_ensure_schema`
unfoldable pub ensure_schema : Bool → Attempt → Link → Bool × Link
ensure_schema demo_mode attempt link =
    if link.schema_ready
    then (true, link)
    else if link.engine
    then create_schema demo_mode attempt link
    else if attempt.engine_made
    then create_schema demo_mode attempt (record link { engine = true })
    else fall_back demo_mode link

-- What a call of the store works on, where it does.
pub data Mode : Type 0 where
  raised memory database unasserted : Mode

-- The start of `append`, `list_events`, `upsert`, `get`, `list_recent` and `get_by_dedupe_key`: the schema, the
-- test of `_fallback_mode`, and `assert engine is not None`, which fails as `unasserted`.
abbrev pub mode_of : Bool × Link → Mode
mode_of (false, link) = raised
mode_of (true, link) =
    if link.fallback_mode then memory else if link.engine then database else unasserted

-- The modes of one call after another.
unfoldable pub calls : Bool → List Attempt → Link → List Mode
calls demo_mode [] link = []
calls demo_mode (attempt ∷ attempts) link =
    let entered = ensure_schema demo_mode attempt link in
    mode_of entered ∷ calls demo_mode attempts entered.1
