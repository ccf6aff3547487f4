-- ===== src/TbApplication.antt =====
-- components/tb_application: the lamp behind ThingsBoard.
pub mod Parse
pub mod Updates
pub mod Module
pub mod Fields
pub mod Rpc
pub mod Handlers
pub mod Responses
pub mod Sound
pub mod Trace
mod Samples
mod Tests
mod Examples
pub mod Restart
pub mod Offline
pub mod Agreement
pub mod Applied
pub mod Telemetry
pub mod OtaUpdates
pub mod ParseBounds
pub mod Lifecycle
