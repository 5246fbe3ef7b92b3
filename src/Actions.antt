-- ===== src/Actions.antt =====
-- Human actions: core/governance/action_state.py (State), core/governance/action_effects.py (Effects) and
-- the resolution of an action in core/governance/action_resolution.py (Resolution, Answer).
pub mod State
pub mod Effects
pub mod Resolution
pub mod Answer
