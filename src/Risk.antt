-- ===== src/Risk.antt =====
-- core/risk: six factor scores become a risk tier, which a human may override, and the tier
-- chooses the gates of stage 3.
pub mod Rules
pub mod Inference
pub mod Assessment
pub mod Profile
pub mod Bounds
pub mod Overrides
pub mod Signals
pub mod Authority
pub mod Monotone
