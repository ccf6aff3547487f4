-- ===== src/MqttCfg.antt =====
-- components/mqtt_cfg: the endpoint's configuration.
pub mod Fields
pub mod Names
pub mod Types
pub mod Document
pub mod Validation
pub mod Platform
pub mod Load
pub mod Apply
pub mod Connect
pub mod Waiting
pub mod Dark
pub mod Callbacks
pub mod Preserved
pub mod Kept
pub mod Trace
pub mod Invariants
pub mod Refused
pub mod Failed
pub mod Established
pub mod Paths
pub mod Policy
pub mod Parsed
pub mod Strict
pub mod Accepts
pub mod Address
pub mod Applied
pub mod Closed
pub mod Handed
pub mod Publish
pub mod Published
pub mod MockBroker
mod Races
mod Runs
mod Sessions
mod Tests
