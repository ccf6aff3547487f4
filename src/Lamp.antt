-- ===== src/Lamp.antt =====
-- components/lamp_control: the lamp's state policy over the PWM layer.
pub mod Types
pub mod Hal
pub mod Duty
pub mod Rounding
pub mod Control
pub mod Operations
pub mod Release
pub mod Valid
pub mod Off
pub mod Quiet
pub mod Electric
pub mod Start
pub mod Trace
pub mod Barrier
pub mod Outcome
pub mod MockHal
pub mod Lock
pub mod Samples
mod Tests
mod Examples
