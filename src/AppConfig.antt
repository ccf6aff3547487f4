-- ===== src/AppConfig.antt =====
-- components/app_config: the stored configuration documents.
pub mod Types
pub mod Fields
pub mod Device
pub mod Manufacturing
pub mod Storage
pub mod Stored
pub mod Typed
pub mod Load
pub mod ReadAll
pub mod Loads
pub mod Untouched
pub mod Committed
pub mod ReadBack
pub mod RoundTrip
pub mod Store
pub mod Refinement
pub mod Strings
pub mod Keys
pub mod Accepted
pub mod Exact
mod MemoryStore
mod StoreTests
mod Tests
