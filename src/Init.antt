-- ===== src/Init.antt =====
-- Setting the device up (drivers/bus/mhi/core/init.c).
pub mod Layout
pub mod Mmio
