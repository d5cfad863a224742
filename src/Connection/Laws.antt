-- ===== src/Connection/Laws.antt =====
-- A store works on one and the same thing from its first call that does not raise.
use ai_assisted_aws_incident.Prelude.{
  subst, ◌≡◌, refl, Bool, true, false, List, [], ◌∷◌, All, arith, if◌then◌else◌,
}
use ai_assisted_aws_incident.Connection.{
  Link, unlinked, Attempt, fall_back, create_schema, ensure_schema, Mode, raised, memory, database,
  mode_of, calls,
}

-- The modes of a store's calls: exceptions outside the demo mode, then the database, or memory in demo
-- mode, at every call.
pub data Steady (demo_mode : Bool) : List Mode → Type 0 where
  done : Steady demo_mode []
  waits :
      {modes : List Mode}
      → demo_mode ≡ false
      → Steady demo_mode modes
      → Steady demo_mode (raised ∷ modes)
  works : {modes : List Mode} → All (λ m. m ≡ database) modes → Steady demo_mode (database ∷ modes)
  forgets :
      {modes : List Mode}
      → demo_mode ≡ true
      → All (λ m. m ≡ memory) modes
      → Steady demo_mode (memory ∷ modes)

-- A link before its first success.
record Pending (link : Link) : Type 0 where
  unready : link.schema_ready ≡ false
  remote : link.fallback_mode ≡ false

ready-database :
    (demo_mode : Bool) (attempts : List Attempt) (link : Link)
    → link.schema_ready ≡ true
    → link.fallback_mode ≡ false
    → link.engine ≡ true
    → All (λ m. m ≡ database) (calls demo_mode attempts link)
unfolding calls ensure_schema
ready-database demo_mode [] link r f e = tt
ready-database demo_mode (a ∷ rest) link r f e =
    let same : ensure_schema demo_mode a link ≡ (true, link) = ground (arith, r) in
    rw same (ground (arith, f, e), ready-database demo_mode rest link r f e)

ready-memory :
    (demo_mode : Bool) (attempts : List Attempt) (link : Link)
    → link.schema_ready ≡ true
    → link.fallback_mode ≡ true
    → All (λ m. m ≡ memory) (calls demo_mode attempts link)
unfolding calls ensure_schema
ready-memory demo_mode [] link r f = tt
ready-memory demo_mode (a ∷ rest) link r f =
    let same : ensure_schema demo_mode a link ≡ (true, link) = ground (arith, r) in
    rw same (ground (arith, f), ready-memory demo_mode rest link r f)

-- How a call on a pending link ends.
data Ends (demo_mode : Bool) : Bool × Link → Type 0 where
  linked :
      {link : Link}
      → link.schema_ready ≡ true
      → link.fallback_mode ≡ false
      → link.engine ≡ true
      → Ends demo_mode (true, link)
  kept_local :
      {link : Link}
      → demo_mode ≡ true
      → link.schema_ready ≡ true
      → link.fallback_mode ≡ true
      → Ends demo_mode (true, link)
  failed : {link : Link} → demo_mode ≡ false → Pending link → Ends demo_mode (false, link)

fall_back-Ends :
    (demo_mode : Bool) (link : Link) → Pending link → Ends demo_mode (fall_back demo_mode link)
unfolding fall_back
fall_back-Ends true link p = kept_local refl refl refl
fall_back-Ends false link p = failed refl p

if-Ends :
    (demo_mode b : Bool) {x y : Bool × Link}
    → (b ≡ true → Ends demo_mode x)
    → (b ≡ false → Ends demo_mode y)
    → Ends demo_mode (if b then x else y)
if-Ends demo_mode true f g = f refl
if-Ends demo_mode false f g = g refl

create_schema-Ends :
    (demo_mode : Bool) (a : Attempt) (link : Link)
    → link.engine ≡ true
    → Pending link
    → Ends demo_mode (create_schema demo_mode a link)
unfolding create_schema
create_schema-Ends demo_mode a link e p =
    if-Ends demo_mode a.schema_made (λ _. linked refl p.remote e)
      (λ _. fall_back-Ends demo_mode link p)

ensure_schema-Ends :
    (demo_mode : Bool) (a : Attempt) (link : Link)
    → Pending link
    → Ends demo_mode (ensure_schema demo_mode a link)
unfolding ensure_schema
ensure_schema-Ends demo_mode a link p =
    let fresh : Pending (record link { engine = true }) = record {
      unready = p.unready;
      remote = p.remote;
    } in
    if-Ends demo_mode link.schema_ready (λ ready. absurd (ground (arith, ready, p.unready)))
      (λ _.
        if-Ends demo_mode link.engine (λ there. create_schema-Ends demo_mode a link there p)
          (λ _.
            if-Ends demo_mode a.engine_made
              (λ _. create_schema-Ends demo_mode a (record link { engine = true }) refl fresh)
              (λ _. fall_back-Ends demo_mode link p)))

ended-Steady :
    (demo_mode : Bool) (rest : List Attempt) (o : Bool × Link)
    → Ends demo_mode o
    → ((link : Link) → Pending link → Steady demo_mode (calls demo_mode rest link))
    → Steady demo_mode (mode_of o ∷ calls demo_mode rest o.1)
ended-Steady demo_mode rest _ (linked {link} r f e) later =
    let here : database ≡ mode_of (true, link) = ground (arith, f, e) in
    subst (λ m. Steady demo_mode (m ∷ calls demo_mode rest link)) here
      (works (ready-database demo_mode rest link r f e))
ended-Steady demo_mode rest _ (kept_local {link} d r f) later =
    let here : memory ≡ mode_of (true, link) = ground (arith, f) in
    subst (λ m. Steady demo_mode (m ∷ calls demo_mode rest link)) here
      (forgets d (ready-memory demo_mode rest link r f))
ended-Steady demo_mode rest _ (failed {link} d p) later = waits d (later link p)

pending-Steady :
    (demo_mode : Bool) (attempts : List Attempt) (link : Link)
    → Pending link
    → Steady demo_mode (calls demo_mode attempts link)
unfolding calls
pending-Steady demo_mode [] link p = done
pending-Steady demo_mode (a ∷ rest) link p =
    ended-Steady demo_mode rest (ensure_schema demo_mode a link)
      (ensure_schema-Ends demo_mode a link p) (λ next. pending-Steady demo_mode rest next)

-- From the start, whatever fails at which call, a store raises until its first success, which is on the
-- database, or, in demo mode only, in memory, and every later call works on the same; no assertion
-- fails.
pub calls-Steady :
    (demo_mode : Bool) (attempts : List Attempt)
    → Steady demo_mode (calls demo_mode attempts unlinked)
calls-Steady demo_mode attempts =
    pending-Steady demo_mode attempts unlinked (record { unready = refl; remote = refl })
