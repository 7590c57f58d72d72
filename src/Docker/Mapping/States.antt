-- ===== src/Docker/Mapping/States.antt =====
-- The states of the runtime and those of the domain.
use compose_monitor.Base.{◌≡◌, ◌≢◌, refl, list_beq}
use compose_monitor.Domain.{
  State, state_text, running, paused, restarting, removing, exited, dead, unknown, no_state,
}
use compose_monitor.Docker.Mapping.{to_state}

-- Each state is read back from its own text, but for the empty one, which the runtime does not use.
pub to_state-state_text : (s : State) → s ≢ no_state → to_state (state_text s) ≡ s
unfolding to_state state_text list_beq
to_state-state_text State.created named = refl
to_state-state_text running named = refl
to_state-state_text paused named = refl
to_state-state_text restarting named = refl
to_state-state_text removing named = refl
to_state-state_text exited named = refl
to_state-state_text dead named = refl
to_state-state_text unknown named = refl
to_state-state_text no_state named = absurd (named refl)
