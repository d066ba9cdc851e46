-- ===== src/Domain/State.antt =====
-- internal/domain/state.go: the states of a deployment and the table of transitions.
pub mod Lifecycle
use centralcloud_agent.Prelude.{Bool, true, false, Bytes, codes, Option, none, some, ◌++◌}
use centralcloud_agent.Errors.{Err, plain}

pub data State : Type 0 where
  pending creating_database pulling_image creating_container starting migrating : State
  healthchecking active stopped updating failed deleting deleted : State

-- The text of a state, as the database holds it.
unfoldable pub state_text : State → Bytes
state_text pending = codes "pending"
state_text creating_database = codes "creating_database"
state_text pulling_image = codes "pulling_image"
state_text creating_container = codes "creating_container"
state_text starting = codes "starting"
state_text migrating = codes "migrating"
state_text healthchecking = codes "healthchecking"
state_text active = codes "active"
state_text stopped = codes "stopped"
state_text updating = codes "updating"
state_text failed = codes "failed"
state_text deleting = codes "deleting"
state_text deleted = codes "deleted"

-- transitions[from][to]
unfoldable pub can_transition : State → State → Bool
can_transition pending creating_database = true
can_transition pending failed = true
can_transition pending deleting = true
can_transition creating_database pulling_image = true
can_transition creating_database failed = true
can_transition pulling_image creating_container = true
can_transition pulling_image failed = true
can_transition creating_container starting = true
can_transition creating_container failed = true
can_transition starting migrating = true
can_transition starting healthchecking = true
can_transition starting failed = true
can_transition migrating healthchecking = true
can_transition migrating failed = true
can_transition healthchecking active = true
can_transition healthchecking stopped = true
can_transition healthchecking failed = true
can_transition active stopped = true
can_transition active starting = true
can_transition active updating = true
can_transition active deleting = true
can_transition active failed = true
can_transition stopped starting = true
can_transition stopped updating = true
can_transition stopped deleting = true
can_transition stopped failed = true
can_transition updating active = true
can_transition updating stopped = true
can_transition updating failed = true
can_transition failed pending = true
can_transition failed deleting = true
can_transition deleting deleted = true
can_transition deleting failed = true
can_transition deleted pending = true
can_transition deleted deleting = true
can_transition _ _ = false

unfoldable pub validate_transition : State → State → Option Err
unfolding can_transition state_text
validate_transition from to = elim (can_transition from to) [
  | true ↦ none
  | false ↦ some (
      plain (
        codes "invalid deployment transition: "
        ++ (state_text from ++ (codes " -> " ++ state_text to))))
]

-- from == to
unfoldable pub same_state : State → State → Bool
same_state pending pending = true
same_state creating_database creating_database = true
same_state pulling_image pulling_image = true
same_state creating_container creating_container = true
same_state starting starting = true
same_state migrating migrating = true
same_state healthchecking healthchecking = true
same_state active active = true
same_state stopped stopped = true
same_state updating updating = true
same_state failed failed = true
same_state deleting deleting = true
same_state deleted deleted = true
same_state _ _ = false
