-- ===== src/Bootstrap/State/Tests.antt =====
-- The transition graph at concrete states, and the theorems at them.
use aegis_panel.Common.{◌≡◌, refl, [], ◌∷◌, some}
use aegis_panel.Bootstrap.State.{
  state_new, state_online, state_draining, state_disabled, new_state_machine, transition,
  invalid_transition, allowed_from,
}
use aegis_panel.Bootstrap.State.Graph.{Outcome, transition_outcome}

no_way_back :
    transition new_state_machine state_online state_new
    ≡ (state_online, some (invalid_transition state_online state_new))
unfolding transition new_state_machine
no_way_back = refl

drains_to : allowed_from new_state_machine state_draining ≡ state_new ∷ state_disabled ∷ []
unfolding allowed_from new_state_machine
drains_to = refl

transition_outcome_example : Outcome state_online state_new
transition_outcome_example = transition_outcome state_online state_new
