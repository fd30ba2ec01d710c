-- ===== src/Core.antt =====
-- core/: how a lab is put together from the parts.
pub mod Dependencies
pub mod Config
pub mod NodeSettings
pub mod Restoring
pub mod Scheduling
mod Samples
