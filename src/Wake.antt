-- ===== src/Wake.antt =====
-- The device wake doorbell and its reference count (drivers/bus/mhi/core/pm.c).
pub mod Mirror
pub mod Count
use mhi_for_quectel_modem.Base.{
  ℕ, ◌+◌, ◌-◌, ◌%◌, ◌^◌, Bool, true, false, not, ◌&&◌, List, ◌∷◌, test, ◌==◌, if◌then◌else◌,
}
use mhi_for_quectel_modem.Base.Word.{u32}
use mhi_for_quectel_modem.Regs.{Act, trigger_resume, write_db}
use mhi_for_quectel_modem.Pm.State.{
  bit, m2, wake_db_clear_valid, wake_db_set_valid, wake_db_force_set_valid, in_suspend_state,
}
use mhi_for_quectel_modem.Ctrl.{Ctrl, act}

-- `atomic_inc` and `atomic_dec` on a 32-bit pattern.
abbrev pub inc : ℕ → ℕ
inc v = u32 (v + 1)

abbrev pub dec : ℕ → ℕ
dec v = u32 (v + 2 ^ 32 - 1)

-- `mhi_write_db(mhi_cntrl, mhi_cntrl->wake_db, v); mhi_cntrl->wake_set = ...;`
abbrev ring_wake : Ctrl → ℕ → Bool → Ctrl
unfolding write_db
ring_wake c v set = record c { log = write_db c.log c.wake_db v; wake_set = set }

-- `mhi_assert_dev_wake`, which is `wake_get`. Without `force`, a count that is not 0 is only
-- incremented (`atomic_add_unless`).
unfoldable pub assert_dev_wake : Ctrl → Bool → Ctrl
unfolding write_db
assert_dev_wake c force =
    let c' = record c { dev_wake = inc c.dev_wake } in
    if force
    then if wake_db_force_set_valid c.pm_state && not c.wake_set then ring_wake c' 1 true else c'
    else if not (c.dev_wake == 0)
    then c'
    else if (c'.dev_wake == 1) && wake_db_set_valid c.pm_state && not c.wake_set
    then ring_wake c' 1 true
    else c'

-- `mhi_deassert_dev_wake`, which is `wake_put`. A count that is not 1 is only decremented.
unfoldable pub deassert_dev_wake : Ctrl → Bool → Ctrl
unfolding write_db
deassert_dev_wake c override =
    let c' = record c { dev_wake = dec c.dev_wake } in
    if not (c.dev_wake == 1)
    then c'
    else if (c'.dev_wake == 0) && wake_db_clear_valid c.pm_state && not override && c.wake_set
    then ring_wake c' 0 false
    else c'

-- `wake_toggle`: `mhi_toggle_dev_wake`, or the empty `mhi_toggle_dev_wake_nop` where the host may
-- ring doorbells in M2.
unfoldable pub wake_toggle : Ctrl → Ctrl
wake_toggle c =
    if test c.db_access (bit m2) then c else deassert_dev_wake (assert_dev_wake c false) true

-- `mhi_trigger_resume`, if the controller is in M3 or about to be.
abbrev pub resume_if_suspended : Ctrl → Ctrl
resume_if_suspended c = if in_suspend_state c.pm_state then act trigger_resume c else c

-- `mhi_device_get` and `mhi_device_put`, with the count of the client device.
unfoldable pub device_get : Ctrl → ℕ → Ctrl × ℕ
device_get c dev_wake = (assert_dev_wake (resume_if_suspended c) true, inc dev_wake)

unfoldable pub device_put : Ctrl → ℕ → Ctrl × ℕ
device_put c dev_wake = (deassert_dev_wake (resume_if_suspended c) false, dec dev_wake)
