-- ===== src/Pm.antt =====
-- Power management (drivers/bus/mhi/core/pm.c).
pub mod State
pub mod Graph
