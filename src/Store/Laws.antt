-- ===== src/Store/Laws.antt =====
-- `upsert` against the table: when it is accepted, what it writes, and what it leaves.
use ai_assisted_aws_incident.Prelude.{
  suc, true, refl, some, ◌∙◌, ap, suc, ◌+◌, ◌≡◌, ◌≢◌, false, String, some, arith,
}
use ai_assisted_aws_incident.Contracts.{IncidentRecord}
use ai_assisted_aws_incident.Environ.{Environ}
use ai_assisted_aws_incident.Dict.{lookup-insert_other, lookup, lookup-insert_self, insert}
use ai_assisted_aws_incident.World.{World, ok, err, value_error, utcnow}
use ai_assisted_aws_incident.Store.{get, upsert, bump, is_invalid, may_follow}
use ai_assisted_aws_incident.Store.Transitions.{Step, may_follow_iff}

module _ (env : Environ) (r : IncidentRecord) (w : World) where
  -- A write that the life cycle refuses raises ValueError and changes nothing.
  pub upsert-refused :
      (row : IncidentRecord)
      → lookup r.incident_id w.incidents ≡ some row
      → may_follow row.state r.state ≡ false
      → upsert env r w ≡ (err value_error, w)
  unfolding upsert is_invalid
  upsert-refused row stored bad = ground arith

  -- A write along an edge of the life cycle is accepted.
  pub upsert-accepted :
      (row : IncidentRecord)
      → lookup r.incident_id w.incidents ≡ some row
      → may_follow row.state r.state ≡ true
      → (v : World) × (upsert env r w ≡ (ok (bump (some row) (env.clock w.clock_reads) r), v))
        × (lookup r.incident_id v.incidents ≡ some (bump (some row) (env.clock w.clock_reads) r))
        × (v.workload ≡ w.workload)
        × (v.claims ≡ w.claims)
  unfolding upsert is_invalid bump utcnow get
  upsert-accepted row stored good =
      let kept = bump (some row) (env.clock w.clock_reads) r in
      (
        record w {
          incidents = insert r.incident_id kept w.incidents;
          clock_reads = suc w.clock_reads;
        },
        ground (arith, stored, good),
        lookup-insert_self r.incident_id kept w.incidents,
        refl,
        refl,
      )

  -- What an accepted write has done.
  pub record Stored (kept : IncidentRecord) (w' : World) : Type 0 where
    pub reads_back : lookup r.incident_id w'.incidents ≡ some kept
    pub only : kept ≡ record r { updated_at = kept.updated_at; version = kept.version }
    pub same_id : kept.incident_id ≡ r.incident_id
    pub same_state : kept.state ≡ r.state
    pub counted :
        (row : IncidentRecord)
        → lookup r.incident_id w.incidents ≡ some row
        → kept.version ≡ row.version + 1
    pub legal :
        (row : IncidentRecord)
        → lookup r.incident_id w.incidents ≡ some row
        → Step row.state r.state
    pub others : (id : String) → id ≢ r.incident_id → lookup id w'.incidents ≡ lookup id w.incidents

  -- An accepted write is read back with the state given and a version one above the stored one, was
  -- along an edge of the life cycle, and leaves every other incident alone.
  pub upsert-Stored :
      {kept : IncidentRecord} {w' : World} → upsert env r w ≡ (ok kept, w') → Stored kept w'
  unfolding upsert is_invalid bump utcnow get
  upsert-Stored {kept} {w'} h =
      let same : kept.incident_id ≡ r.incident_id = ground arith in
      let written : w'.incidents ≡ insert kept.incident_id kept w.incidents = ground arith in
      record {
        reads_back = grind (arith, lookup-insert_self);
        only = ground arith;
        same_id = same;
        same_state = ground arith;
        counted = λ row stored. ground arith;
        legal = λ row stored. (may_follow_iff row.state r.state).0 (ground arith);
        others = λ id other.
            ap (lookup id) written
            ∙ lookup-insert_other kept.incident_id id kept w.incidents (λ e. other (e ∙ same));
      }
