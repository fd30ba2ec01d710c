-- ===== src/DependencyManager.antt =====
-- core/dependency_manager/: which node waits for which, stage by stage.
pub mod Acyclic
pub mod Node
pub mod Check
mod Samples
