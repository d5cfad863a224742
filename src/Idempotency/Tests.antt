-- ===== src/Idempotency/Tests.antt =====
-- A key that is claimed in demo mode while the database is away, and again when it is there.
use ai_assisted_aws_incident.Prelude.{◌≡◌, refl, ◌≤◌, true, false, [], ◌∷◌, List}
use ai_assisted_aws_incident.Dict.{lookup, insert}
use ai_assisted_aws_incident.Idempotency.{
  Keys, Call, claim, claim_without, claim_fallback, ensure_schema, insert_key, grants,
}
use ai_assisted_aws_incident.Idempotency.Laws.{grants-bound}

abbrev fresh : Keys
fresh = record { schema_ready = false; fallback = []; table = [] }

abbrev away : Call
away = record {
  reach = record { schema_made = false; inserted = false };
  key = "k";
  action_id = "act_1";
}

abbrev there : Call
there = record {
  reach = record { schema_made = true; inserted = true };
  key = "k";
  action_id = "act_1";
}

abbrev run : List Call
run = away ∷ away ∷ there ∷ there ∷ []

granted_twice : grants true "k" run fresh ≡ 2
unfolding grants claim ensure_schema claim_without claim_fallback insert_key lookup insert
granted_twice = refl

granted_once : grants false "k" run fresh ≡ 1
unfolding grants claim ensure_schema claim_without claim_fallback insert_key lookup insert
granted_once = refl

grants-bound_example : grants true "k" run fresh ≤ 2
unfolding lookup
grants-bound_example = grants-bound true "k" run fresh
