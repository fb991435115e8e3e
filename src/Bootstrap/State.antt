-- ===== src/Bootstrap/State.antt =====
-- backend/internal/bootstrap/state.go: the transition graph of a node's lifecycle.
-- A `State` is a Go string, so every function takes any text, and a set is a map to `Unit`.
pub mod Graph
mod Tests
use aegis_panel.Common.{
  String, String_discrete, GoMap, get, put, Bool, true, false, Option, none, some, List, [], ◌∷◌,
  is_some, ite, if◌then◌else◌,
}

abbrev pub State : Type 0
State = String

abbrev pub state_new : State
state_new = "new"

abbrev pub state_online : State
state_online = "online"

abbrev pub state_offline : State
state_offline = "offline"

abbrev pub state_draining : State
state_draining = "draining"

abbrev pub state_disabled : State
state_disabled = "disabled"

pub record StateMachine : Type 0 where
  pub transitions : GoMap State (GoMap State (Unit {0}))

-- The inner map is made on the first edge out of a state.
targets : Option (GoMap State (Unit {0})) → GoMap State (Unit {0})
targets none = []
targets (some next) = next

pub allow : State → State → StateMachine → StateMachine
unfolding targets get put
allow from to sm = record {
  transitions =
      put String_discrete from
        (put String_discrete to tt (targets (get String_discrete from sm.transitions)))
        sm.transitions;
}

pub new_state_machine : StateMachine
unfolding allow String_discrete
new_state_machine = allow state_draining state_new (
    allow state_disabled state_new (
      allow state_draining state_disabled (
        allow state_online state_offline (
          allow state_online state_draining (
            allow state_offline state_new (
              allow state_new state_offline
                (allow state_new state_online (record { transitions = [] }))))))))

has_edge : Option (GoMap State (Unit {0})) → State → Bool
unfolding get
has_edge none to = false
has_edge (some next) to = is_some (get String_discrete to next)

pub can_transition : StateMachine → State → State → Bool
unfolding has_edge get
can_transition sm from to =
    ite (String_discrete from to) true (has_edge (get String_discrete from sm.transitions) to)

-- ErrInvalidTransition, with the two states of its message.
pub data TransitionError : Type 0 where
  invalid_transition : State → State → TransitionError

pub transition : StateMachine → State → State → State × Option TransitionError
unfolding can_transition
transition sm from to =
    if can_transition sm from to then (to, none) else (from, some (invalid_transition from to))

keys : GoMap State (Unit {0}) → List State
keys [] = []
keys ((s, _) ∷ m) = s ∷ keys m

pub allowed_from : StateMachine → State → List State
unfolding keys targets get
allowed_from sm from = keys (targets (get String_discrete from sm.transitions))
