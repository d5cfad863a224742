-- ===== src/Contracts/Kinds.antt =====
-- The enumerations of src/domain/contracts/models.py and their texts.
use ai_assisted_aws_incident.Prelude.{String, Option, List, [], ◌∷◌, find_first, ◌==◌}

pub data PolicyClass : Type 0 where
  read_only review_required privileged : PolicyClass

pub data IncidentState : Type 0 where
  opened investigating planned waiting_approval executing resolved reopened : IncidentState

pub data ActionType : Type 0 where
  query_metrics query_logs get_recent_deployments get_topology restart_service scale_workload :
      ActionType
  rollback_deployment drain_node open_ticket page_human run_ansible_job run_shell : ActionType

unfoldable pub PolicyClass-discrete : Discrete PolicyClass
PolicyClass-discrete = hlevel

unfoldable pub IncidentState-discrete : Discrete IncidentState
IncidentState-discrete = hlevel

unfoldable pub ActionType-discrete : Discrete ActionType
ActionType-discrete = hlevel

-- `state.value`
abbrev pub state_value : IncidentState → String
state_value opened = "open"
state_value investigating = "investigating"
state_value planned = "planned"
state_value waiting_approval = "waiting_approval"
state_value executing = "executing"
state_value resolved = "resolved"
state_value reopened = "reopened"

-- `policy_class.value`
abbrev pub class_value : PolicyClass → String
class_value read_only = "read_only"
class_value review_required = "review_required"
class_value privileged = "privileged"

-- `action_type.value`
abbrev pub action_value : ActionType → String
action_value query_metrics = "QueryMetrics"
action_value query_logs = "QueryLogs"
action_value get_recent_deployments = "GetRecentDeployments"
action_value get_topology = "GetTopology"
action_value restart_service = "RestartService"
action_value scale_workload = "ScaleWorkload"
action_value rollback_deployment = "RollbackDeployment"
action_value drain_node = "DrainNode"
action_value open_ticket = "OpenTicket"
action_value page_human = "PageHuman"
action_value run_ansible_job = "RunAnsibleJob"
action_value run_shell = "RunShell"

abbrev pub all_actions : List ActionType
all_actions =
    query_metrics ∷ query_logs ∷ get_recent_deployments ∷ get_topology ∷ restart_service
    ∷ scale_workload ∷ rollback_deployment ∷ drain_node ∷ open_ticket ∷ page_human ∷ run_ansible_job
    ∷ run_shell ∷ []

-- `ActionType(raw)`; `none` is the ValueError.
abbrev pub action_of_value : String → Option ActionType
action_of_value raw = find_first (λ a. action_value a == raw) all_actions
