-- ===== src/DevState.antt =====
-- `enum mhi_state` (include/linux/mhi.h): the states that the device reports.
use mhi_for_quectel_modem.Base.{ℕ}

abbrev pub reset : ℕ
reset = 0x0

abbrev pub ready : ℕ
ready = 0x1

abbrev pub m0 : ℕ
m0 = 0x2

abbrev pub m1 : ℕ
m1 = 0x3

abbrev pub m2 : ℕ
m2 = 0x4

abbrev pub m3 : ℕ
m3 = 0x5

abbrev pub sys_err : ℕ
sys_err = 0xFF

abbrev pub max : ℕ
max = 0x100
