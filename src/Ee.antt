-- ===== src/Ee.antt =====
-- `enum mhi_ee_type` (include/linux/mhi.h) and the tests on it (drivers/bus/mhi/core/internal.h).
use mhi_for_quectel_modem.Base.{ℕ, Bool, ◌||◌, ◌==◌}

abbrev pub pbl : ℕ
pbl = 0

abbrev pub sbl : ℕ
sbl = 1

abbrev pub amss : ℕ
amss = 2

abbrev pub rddm : ℕ
rddm = 3

abbrev pub wfw : ℕ
wfw = 4

abbrev pub pthru : ℕ
pthru = 5

abbrev pub edl : ℕ
edl = 6

abbrev pub fp : ℕ
fp = 7

abbrev pub disable_transition : ℕ
disable_transition = 8

abbrev pub max : ℕ
max = 10

abbrev pub in_pbl : ℕ → Bool
in_pbl ee = (ee == pbl) || (ee == pthru) || (ee == edl)

abbrev pub in_mission_mode : ℕ → Bool
in_mission_mode ee = (ee == amss) || (ee == wfw)
