-- ===== src/TbProvisioning.antt =====
-- components/tb_provisioning: the credentials of the enrollment, and the identity that it stores.
pub mod Config
pub mod Identity
pub mod Loaded
pub mod Exact
pub mod Atomic
mod Tests
