-- ===== src/Utils.antt =====
-- utils/: helpers on maps and slices that the topology getters are built from.
pub mod Env
