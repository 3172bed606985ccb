-- ===== src/Interrupt.antt =====
-- The interrupt handlers of the controller: `mhi_intvec_handler` and `mhi_intvec_threaded_handler` of
-- drivers/bus/mhi/core/main.c.
pub mod Results
use mhi_for_quectel_modem.Base.{ℕ, Bool, true, false, not, ◌&&◌, ◌==◌, if◌then◌else◌}
use mhi_for_quectel_modem.Regs.{Device, status_cb, ee_rddm, fatal_error, wake_up_all}
use mhi_for_quectel_modem.Pm.State.{bit, sys_err_detect, reg_access_valid}
use mhi_for_quectel_modem.DevState
use mhi_for_quectel_modem.Ee
use mhi_for_quectel_modem.Ctrl.{Ctrl, DevTransition, act, tryset}
use mhi_for_quectel_modem.Power.{get_mhi_state, get_exec_env}
use mhi_for_quectel_modem.Events.{queue_state_transition, sys_err_handler}

-- The part of `mhi_intvec_threaded_handler` that deals with a system error that was accepted.
unfoldable pub report_sys_err : Bool → Ctrl → Ctrl
report_sys_err allocated c =
    let c₁ = act wake_up_all c in
    if Ee.in_pbl c₁.ee then act (status_cb fatal_error) c₁ else sys_err_handler allocated c₁

-- What the handler makes of the power state, for the state that was read and the environment from before.
unfoldable pub take_state : Bool → ℕ → ℕ → Ctrl → Ctrl
take_state allocated state ee c =
    if state == DevState.sys_err
    then tryset sys_err_detect c
    else if (state == DevState.ready) && (ee == Ee.edl) && (c.ee == Ee.fp)
    then (queue_state_transition allocated c DevTransition.ready).0
    else c

-- What it does after that.
unfoldable pub report_state : Bool → ℕ → ℕ → Ctrl → Ctrl
report_state allocated state ee c =
    if c.has_rddm_image
    then if (c.ee == Ee.rddm) && not (c.ee == ee)
      then act wake_up_all (act (status_cb ee_rddm) c)
      else c
    else if (state == DevState.sys_err) && (bit c.pm_state == bit sys_err_detect)
    then report_sys_err allocated c
    else c

-- `mhi_intvec_threaded_handler`
unfoldable pub intvec_threaded_handler : Bool → Device → Ctrl → Ctrl
intvec_threaded_handler allocated dev c =
    if not (reg_access_valid c.pm_state)
    then c
    else (let (c₁, state) = get_mhi_state dev c in
        let (c₂, exec) = get_exec_env dev c₁ in
        report_state allocated state c.ee
          (take_state allocated state c.ee (record c₂ { ee = exec })))

-- `mhi_intvec_handler`
unfoldable pub intvec_handler : Ctrl → Ctrl
intvec_handler c = act wake_up_all c
