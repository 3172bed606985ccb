-- ===== src/Pm/State.antt =====
-- The power states of `mhi_cntrl->pm_state` and the table of the transitions that the host may make
-- (drivers/bus/mhi/core/pm.c, and the MHI_PM_* bits and tests of drivers/bus/mhi/core/internal.h).
use mhi_for_quectel_modem.Base.{
  ℕ, zero, suc, ◌/◌, ◌%◌, ◌^◌, bit_or, Bool, ◌||◌, none, some, List, [], ◌∷◌, length, get_elem?,
  leb, ◌==◌, not, test, if◌then◌else◌,
}

-- The values that `pm_state` takes. Each stands for one bit.
pub data PmState : Type 0 where
  disable por m0 m2 m3_enter m3 m3_exit fw_dl_err : PmState
  sys_err_detect sys_err_process shutdown_process ld_err_fatal_detect : PmState

pub PmState-discrete : Discrete PmState
PmState-discrete = hlevel

abbrev pub bit : PmState → ℕ
bit disable = 0x1
bit por = 0x2
bit m0 = 0x4
bit m2 = 0x8
bit m3_enter = 0x10
bit m3 = 0x20
bit m3_exit = 0x40
bit fw_dl_err = 0x80
bit sys_err_detect = 0x100
bit sys_err_process = 0x200
bit shutdown_process = 0x400
bit ld_err_fatal_detect = 0x800

-- `a | b | ...`
abbrev mask : List PmState → ℕ
mask [] = 0
mask (s ∷ ss) = bit_or (bit s) (mask ss)

-- Each row: `from_state`, `to_states`.
dev_state_transitions : List (PmState × ℕ)
dev_state_transitions =
    (disable, mask (por ∷ []))
    ∷ (
      por,
      mask (
          por ∷ disable ∷ m0 ∷ sys_err_detect ∷ shutdown_process ∷ ld_err_fatal_detect ∷ fw_dl_err
          ∷ []),
    )
    ∷ (
      m0,
      mask (
          m0 ∷ m2 ∷ m3_enter ∷ sys_err_detect ∷ shutdown_process ∷ ld_err_fatal_detect ∷ fw_dl_err
          ∷ []),
    )
    ∷ (m2, mask (m0 ∷ sys_err_detect ∷ shutdown_process ∷ ld_err_fatal_detect ∷ []))
    ∷ (m3_enter, mask (m3 ∷ sys_err_detect ∷ shutdown_process ∷ ld_err_fatal_detect ∷ []))
    ∷ (m3, mask (m3_exit ∷ sys_err_detect ∷ shutdown_process ∷ ld_err_fatal_detect ∷ []))
    ∷ (m3_exit, mask (m0 ∷ sys_err_detect ∷ shutdown_process ∷ ld_err_fatal_detect ∷ []))
    ∷ (fw_dl_err, mask (fw_dl_err ∷ sys_err_detect ∷ shutdown_process ∷ ld_err_fatal_detect ∷ []))
    ∷ (sys_err_detect, mask (sys_err_process ∷ shutdown_process ∷ ld_err_fatal_detect ∷ []))
    ∷ (sys_err_process, mask (por ∷ shutdown_process ∷ ld_err_fatal_detect ∷ []))
    ∷ (shutdown_process, mask (disable ∷ ld_err_fatal_detect ∷ []))
    ∷ (ld_err_fatal_detect, mask (ld_err_fatal_detect ∷ shutdown_process ∷ []))
    ∷ []

-- The kernel's `find_last_bit`: the highest set bit below `size`, or `size`.
find_last_bit_below : ℕ → ℕ → ℕ → ℕ
find_last_bit_below word size zero = size
find_last_bit_below word size (suc i) =
    let rest = find_last_bit_below word size i in if (word / 2 ^ i) % 2 == 1 then i else rest

find_last_bit : ℕ → ℕ → ℕ
unfolding find_last_bit_below
find_last_bit word size = find_last_bit_below word size size

-- `mhi_tryset_pm_state`: the state after an attempt to go from `cur` to `state`, which is also what
-- the function returns.
unfoldable pub tryset_pm_state : PmState → PmState → PmState
unfolding find_last_bit dev_state_transitions
tryset_pm_state cur state =
    let index = find_last_bit (bit cur) 32 in
    if leb (length dev_state_transitions) index
    then cur
    else elim (get_elem? dev_state_transitions index) [
      | none ↦ cur
      | some (from_state, to_states) ↦
          if not (bit from_state == bit cur)
          then cur
          else if not (test to_states (bit state))
          then cur
          else state
    ]

-- The tests that the driver makes on a power state.
abbrev pub reg_access_valid : PmState → Bool
reg_access_valid s = test (bit s) (
    mask (
      por ∷ m0 ∷ m2 ∷ m3_enter ∷ m3_exit ∷ sys_err_detect ∷ sys_err_process ∷ shutdown_process
      ∷ fw_dl_err ∷ []))

abbrev pub in_error_state : PmState → Bool
in_error_state s = leb (bit fw_dl_err) (bit s)

abbrev pub in_fatal_state : PmState → Bool
in_fatal_state s = bit s == bit ld_err_fatal_detect

abbrev pub wake_db_clear_valid : PmState → Bool
wake_db_clear_valid s = test (bit s) (mask (m0 ∷ m2 ∷ m3_exit ∷ []))

abbrev pub wake_db_set_valid : PmState → Bool
wake_db_set_valid s = test (bit s) (bit m2)

abbrev pub wake_db_force_set_valid : PmState → Bool
wake_db_force_set_valid s = wake_db_clear_valid s

abbrev pub event_access_invalid : PmState → Bool
event_access_invalid s = (bit s == bit disable) || in_error_state s

abbrev pub in_suspend_state : PmState → Bool
in_suspend_state s = test (bit s) (mask (m3_enter ∷ m3 ∷ []))
