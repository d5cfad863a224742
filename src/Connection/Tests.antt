-- ===== src/Connection/Tests.antt =====
-- Calls while the database comes up, outside the demo mode.
use ai_assisted_aws_incident.Prelude.{true, false, [], ◌∷◌, List}
use ai_assisted_aws_incident.Connection.{
  fall_back, create_schema, ensure_schema, Attempt, calls, raised, database,
}
use ai_assisted_aws_incident.Connection.Laws.{Steady, calls-Steady}

-- No engine, no tables, both, and neither again.
abbrev attempts : List Attempt
attempts =
    record { engine_made = false; schema_made = false }
    ∷ record { engine_made = true; schema_made = false }
    ∷ record { engine_made = true; schema_made = true }
    ∷ record { engine_made = false; schema_made = false }
    ∷ []

calls-Steady_example : Steady false (raised ∷ raised ∷ database ∷ database ∷ [])
unfolding calls ensure_schema create_schema fall_back
calls-Steady_example = calls-Steady false attempts
