-- ===== src/Memory/Tests.antt =====
-- A snippet of one incident, and the search of another.
use mathlib.Core.List.{Memᴰ}
use ai_assisted_aws_incident.Prelude.{
  refl, arith, lower, lower_char, strip, strip_left, strip_right, is_space,
}
use ai_assisted_aws_incident.Dict.{lookup}
use ai_assisted_aws_incident.World.{World}
use ai_assisted_aws_incident.Workflow.Loop.{index_incident_snippet}
use ai_assisted_aws_incident.Memory.{search_incident_memory}
use ai_assisted_aws_incident.Memory.Laws.{search_incident_memory-index}
use ai_assisted_aws_incident.Samples.{env, empty_world}

abbrev indexed : World
indexed = (index_incident_snippet env "inc_1" "iter 1 next triage" empty_world).1

search_incident_memory-index_example :
    Memᴰ "iter 1 next triage" (search_incident_memory env "inc_2" "latency" 3 indexed)
unfolding lower lower_char strip strip_left strip_right is_space lookup
search_incident_memory-index_example =
    search_incident_memory-index env "inc_1" "inc_2" "latency" "iter 1 next triage" 3 empty_world
      refl refl (omega arith)
