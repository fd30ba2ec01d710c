-- ===== src/Types.antt =====
-- types/: the data of a lab definition and the rules that resolve it.
pub mod Text
pub mod Number
pub mod Stages
pub mod NodeDefinition
pub mod Bind
pub mod Topology
