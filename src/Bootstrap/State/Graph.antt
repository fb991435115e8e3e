-- ===== src/Bootstrap/State/Graph.antt =====
-- What the transition graph allows, against its edges written out.
use aegis_panel.Common.{
  ◌≡◌, refl, ◌⊎◌, ◌↔◌, inl, inr, Bool-cases, subst, true, none, some, arith, if_pos,
}
use aegis_panel.Bootstrap.State.{
  State, StateMachine, state_new, state_online, state_offline, state_draining, state_disabled,
  new_state_machine, can_transition, invalid_transition, transition,
}

-- The edges, one for each `allow` call.
infix 40 ◌⟶◌
pub data ◌⟶◌ (s t : State) : Type 0 where
  install_ok : s ≡ state_new → t ≡ state_online → s ⟶ t
  install_failed : s ≡ state_new → t ≡ state_offline → s ⟶ t
  retry : s ≡ state_offline → t ≡ state_new → s ⟶ t
  drain : s ≡ state_online → t ≡ state_draining → s ⟶ t
  heartbeat_miss : s ≡ state_online → t ≡ state_offline → s ⟶ t
  disable : s ≡ state_draining → t ≡ state_disabled → s ⟶ t
  recommission : s ≡ state_disabled → t ≡ state_new → s ⟶ t
  undrain : s ≡ state_draining → t ≡ state_new → s ⟶ t

can_transition_sound :
    (s t : State) → can_transition new_state_machine s t ≡ true → (s ≡ t) ⊎ (s ⟶ t)
unfolding can_transition new_state_machine
can_transition_sound s t h = grind (
  arith, install_ok, install_failed, retry, drain, heartbeat_miss, disable, recommission, undrain,
)

same_state : (sm : StateMachine) (s t : State) → s ≡ t → can_transition sm s t ≡ true
unfolding can_transition
same_state sm s t e = rw (if_pos _ e)

can_transition_complete :
    (s t : State) → (s ≡ t) ⊎ (s ⟶ t) → can_transition new_state_machine s t ≡ true
unfolding can_transition new_state_machine
can_transition_complete s t (inl e) = same_state new_state_machine s t e
can_transition_complete s t (inr (install_ok a b)) = rw (a, b) refl
can_transition_complete s t (inr (install_failed a b)) = rw (a, b) refl
can_transition_complete s t (inr (retry a b)) = rw (a, b) refl
can_transition_complete s t (inr (drain a b)) = rw (a, b) refl
can_transition_complete s t (inr (heartbeat_miss a b)) = rw (a, b) refl
can_transition_complete s t (inr (disable a b)) = rw (a, b) refl
can_transition_complete s t (inr (recommission a b)) = rw (a, b) refl
can_transition_complete s t (inr (undrain a b)) = rw (a, b) refl

-- A transition is allowed exactly when it stays where it is or follows one of the eight edges.
pub can_transition-Edge :
    (s t : State) → (can_transition new_state_machine s t ≡ true) ↔ ((s ≡ t) ⊎ (s ⟶ t))
can_transition-Edge s t = (can_transition_sound s t, can_transition_complete s t)

-- The two ways a transition goes.
abbrev pub Outcome : State → State → Type 0
Outcome s t =
    (((s ≡ t) ⊎ (s ⟶ t)) × (transition new_state_machine s t ≡ (t, none)))
    ⊎ (¬ ((s ≡ t) ⊎ (s ⟶ t))
        × (transition new_state_machine s t ≡ (s, some (invalid_transition s t))))

-- `Transition` moves to the target with no error when the step is allowed, and otherwise stays and
-- names both states in its error.
pub transition_outcome : (s t : State) → Outcome s t
unfolding transition
transition_outcome s t = elim (Bool-cases (can_transition new_state_machine s t)) [
  | inl e ↦ inl (can_transition_sound s t e, rw (e, transition))
  | inr e ↦ inr (λ h. ground (arith, can_transition_complete s t h), rw (e, transition))
]

-- A node's life: transitions that the machine accepts, one after another.
pub data Reaches (s : State) : State → Type 0 where
  here : Reaches s s
  next : {t u : State} → Reaches s t → transition new_state_machine t u ≡ (u, none) → Reaches s u

pub data Known : State → Type 0 where
  is_new : Known state_new
  is_online : Known state_online
  is_offline : Known state_offline
  is_draining : Known state_draining
  is_disabled : Known state_disabled

edge-transition : {s t : State} → s ⟶ t → transition new_state_machine s t ≡ (t, none)
unfolding transition
edge-transition {s} {t} e = rw (can_transition_complete s t (inr e), transition)

-- Every known state can be brought back to `new`.
to_new : {s : State} → Known s → Reaches s state_new
to_new is_new = here
to_new is_online =
    next (next here (edge-transition (heartbeat_miss refl refl)))
      (edge-transition (retry refl refl))
to_new is_offline = next here (edge-transition (retry refl refl))
to_new is_draining = next here (edge-transition (undrain refl refl))
to_new is_disabled = next here (edge-transition (recommission refl refl))

Reaches-online : {s : State} → Reaches s state_new → Reaches s state_online
Reaches-online r = next r (edge-transition (install_ok refl refl))

from_new : {s t : State} → Reaches s state_new → Known t → Reaches s t
from_new r is_new = r
from_new r is_online = Reaches-online r
from_new r is_offline = next r (edge-transition (install_failed refl refl))
from_new r is_draining = next (Reaches-online r) (edge-transition (drain refl refl))
from_new r is_disabled =
    next (next (Reaches-online r) (edge-transition (drain refl refl)))
      (edge-transition (disable refl refl))

-- No state traps a node: each of the five states can be reached from each of them.
pub every_state_reachable : {s t : State} → Known s → Known t → Reaches s t
every_state_reachable a b = from_new (to_new a) b

edge-Known : {s t : State} → s ⟶ t → Known t
edge-Known (install_ok a b) = rw b is_online
edge-Known (install_failed a b) = rw b is_offline
edge-Known (retry a b) = rw b is_new
edge-Known (drain a b) = rw b is_draining
edge-Known (heartbeat_miss a b) = rw b is_offline
edge-Known (disable a b) = rw b is_disabled
edge-Known (recommission a b) = rw b is_new
edge-Known (undrain a b) = rw b is_new

step-Known : {s t : State} → Known s → transition new_state_machine s t ≡ (t, none) → Known t
step-Known {s} {t} k e = elim (transition_outcome s t) [
  | inl (inl p, _) ↦ subst Known p k
  | inl (inr p, _) ↦ edge-Known p
  | inr (_, q) ↦ absurd (ground arith)
]

-- A machine that starts in a known state never leaves the closed set of five.
pub Reaches-Known : {s t : State} → Known s → Reaches s t → Known t
Reaches-Known k here = k
Reaches-Known k (next r e) = step-Known (Reaches-Known k r) e
