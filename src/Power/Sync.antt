-- ===== src/Power/Sync.antt =====
-- The client's synchronous wake-up, and the forced RDDM mode (drivers/bus/mhi/core/pm.c).
use mhi_for_quectel_modem.Base.{ℕ, ◌+◌, ◌^◌, ◌<◌, Bool, ◌==◌, if◌then◌else◌, ◌≡◌, ◌⊎◌, arith}
use mhi_for_quectel_modem.Regs.{Device}
use mhi_for_quectel_modem.DevState
use mhi_for_quectel_modem.Ee
use mhi_for_quectel_modem.Ctrl.{Ctrl, Code, ok, err, eio}
use mhi_for_quectel_modem.Wake.{inc}
use mhi_for_quectel_modem.Wait.{Wait, Condition, IsWait}
use mhi_for_quectel_modem.Power.{set_mhi_state}
use mhi_for_quectel_modem.Power.Suspend.{until, waiting, get_sync}
use mhi_for_quectel_modem.Power.Suspend.Results.{get_sync-count, holds}

-- `mhi_device_get_sync`, with the count of the client device.
unfoldable pub device_get_sync : Device → Wait → Ctrl → ℕ → Ctrl × ℕ × Code
device_get_sync dev wait c dev_wake =
    let (c', ret) = get_sync dev wait c in
    elim ret [ ok ↦ (c', inc dev_wake, ok) | err e ↦ (c', dev_wake, err e) ]

abbrev is_rddm : Ctrl → Bool
is_rddm c = c.ee == Ee.rddm

-- `mhi_force_rddm_mode`
unfoldable pub force_rddm_mode : Device → Wait → Ctrl → Ctrl × Code
force_rddm_mode dev wait c =
    if is_rddm c
    then (c, ok)
    else (let (s, ret) = wait (until is_rddm) (waiting (set_mhi_state dev c DevState.sys_err)) in
        (s.ctrl, if ret == 0 then err eio else ok))

-- Where the other threads leave the wake count alone during the wait and one more reference
-- overflows neither count, `mhi_device_get_sync` moves the client's count and the controller's
-- together: both by one when it returns 0, neither when it fails (EIO).
pub device_get_sync-count :
    (dev : Device) (wait : Wait) (c : Ctrl) (dev_wake : ℕ)
    → c.dev_wake + 1 < 2 ^ 32
    → dev_wake + 1 < 2 ^ 32
    → ((cond : Condition) (s : _) → (wait cond s).0.ctrl.dev_wake ≡ s.ctrl.dev_wake)
    → let (c', dev_wake', ret) = device_get_sync dev wait c dev_wake in
      ((ret ≡ ok) × (c'.dev_wake ≡ c.dev_wake + 1) × (dev_wake' ≡ dev_wake + 1))
      ⊎ ((ret ≡ err eio) × (c'.dev_wake ≡ c.dev_wake) × (dev_wake' ≡ dev_wake))
unfolding device_get_sync
device_get_sync-count dev wait c dev_wake h k frozen =
    ground (arith, get_sync-count dev wait c h frozen)

-- With a wait that keeps its contract, `mhi_force_rddm_mode` returns 0 only with the device in
-- RDDM.
pub force_rddm_mode_ok :
    (dev : Device) (wait : Wait) (law : IsWait wait) (c : Ctrl)
    → (force_rddm_mode dev wait c).1 ≡ ok
    → (force_rddm_mode dev wait c).0.ee ≡ Ee.rddm
unfolding force_rddm_mode
force_rddm_mode_ok dev wait law c h =
    ground (arith, holds dev wait law is_rddm (waiting (set_mhi_state dev c DevState.sys_err)))
