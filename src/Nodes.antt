-- ===== src/Nodes.antt =====
-- nodes/: the methods that all kinds of nodes share.
pub mod Lifecycle
pub mod Int64
pub mod Interfaces
pub mod Registry
pub mod InterfaceSamples
pub mod Samples
