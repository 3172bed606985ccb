-- ===== src/Tests/StartUp.antt =====
-- Powering up and down, and the transitions of the worker.
use mhi_for_quectel_modem.Base.{
  true, false, some, All, [], ◌∷◌, ◌++◌, ◌≡◌, ◌≢◌, refl, ◌==◌, if◌then◌else◌,
}
use mhi_for_quectel_modem.Regs.{Device}
use mhi_for_quectel_modem.Pm.State.{por, disable, in_fatal_state, shutdown_process, tryset_pm_state}
use mhi_for_quectel_modem.DevState
use mhi_for_quectel_modem.Ee
use mhi_for_quectel_modem.Ctrl.{Ctrl, DevTransition, ok, err, eio}
use mhi_for_quectel_modem.Wait.{Wait}
use mhi_for_quectel_modem.Power.{set_mhi_state, get_mhi_state}
use mhi_for_quectel_modem.Transition.{
  Outside, waiting_with, is_ready, ready_state_transition, mission_mode_transition,
  disable_transition,
}
use mhi_for_quectel_modem.Transition.Results.{IsReset, IsResetEvent, disable_transition-shutdown}
use mhi_for_quectel_modem.PowerUp.{
  Resources, read_offsets, enter_por, is_out_of_reset, power_up_device, sync_power_up,
}
use mhi_for_quectel_modem.Power.Suspend.Cycle.{answered, answered-IsWait}
use mhi_for_quectel_modem.PowerUp.Results.{may_start, power_up_device-sys_err, power_up_device_ok}
use mhi_for_quectel_modem.Tests.Data.{served, memory}

-- A wait that times out at once, one in which the device comes up, and one in which it gets ready.
abbrev timed_out : Wait
timed_out cond s = (s, 0)

abbrev comes_up : Wait
comes_up cond s = (record s { ctrl = record (s.ctrl) { ee = 2 } }, 1)

abbrev gets_ready : Wait
gets_ready cond s = (record s { out0 = 0; out1 = 1 }, 1)

-- Drivers and firmware that do nothing.
abbrev nothing : Outside
nothing = record { create_devices = λ c. c; destroy_devices = λ c. c; fw_load_handler = λ c. c }

abbrev resources : Resources
resources = record {
  init_dev_ctxt = λ c. (c, ok);
  init_irq_setup = λ c. (c, ok);
  deinit_free_irq = λ c. c;
  deinit_dev_ctxt = λ c. c;
  free_fbc_image = λ c. c;
  read_error = eio;
  allocated = true;
}

-- A device in its boot loader, and one that reports a system error besides.
abbrev booting : Device
booting log addr = some 0

abbrev failing : Device
failing log addr = if addr == 172 then some 0xff00 else some 0

shutdown_runs : tryset_pm_state served.pm_state shutdown_process ≡ shutdown_process
unfolding tryset_pm_state
shutdown_runs = refl

disable_transition-shutdown_example :
    let c' = disable_transition memory timed_out nothing shutdown_process served in
    (c'.pm_state ≡ disable) × IsReset c'.cmd_ring × All IsResetEvent c'.events
disable_transition-shutdown_example =
    disable_transition-shutdown memory timed_out nothing served (λ cond s. refl) (λ d. refl)
      shutdown_runs

abbrev off : Ctrl
off = record served { pm_state = disable }

ready_runs : (ready_state_transition memory gets_ready off).1 ≡ ok
unfolding ready_state_transition mhi_for_quectel_modem.Transition.ready_mmio
    mhi_for_quectel_modem.Ctrl.tryset tryset_pm_state mhi_for_quectel_modem.Init.Mmio.init_mmio
    mhi_for_quectel_modem.Regs.read_reg_field mhi_for_quectel_modem.Init.Mmio.wake_doorbell
ready_runs = refl

offsets_runs : (read_offsets failing off).1 ≡ some 0
unfolding read_offsets
offsets_runs = refl

start_runs : may_start (enter_por failing (read_offsets failing off).0).1 ≡ true
unfolding read_offsets enter_por mhi_for_quectel_modem.Power.get_exec_env
start_runs = refl

error_runs :
    (get_mhi_state failing (enter_por failing (read_offsets failing off).0).0).1 ≡ DevState.sys_err
unfolding read_offsets enter_por get_mhi_state mhi_for_quectel_modem.Power.get_exec_env
error_runs = refl

power_up_device-sys_err_example :
    let c₃ = (get_mhi_state failing (enter_por failing (read_offsets failing off).0).0).0 in
    let s =
      (answered
        (is_out_of_reset failing)
        (waiting_with (set_mhi_state failing c₃ DevState.reset) 0 0)).0 in
    let r = (power_up_device failing answered resources off).1 in
    ((s.out0 ≡ 0) → r ≡ err eio)
    × ((r ≡ ok) → (in_fatal_state s.ctrl.pm_state ≡ false) × (s.out0 ≢ 0))
power_up_device-sys_err_example =
    power_up_device-sys_err failing answered resources off 0 answered-IsWait offsets_runs start_runs
      error_runs

power_up_runs : (power_up_device booting timed_out resources off).1 ≡ ok
unfolding power_up_device mhi_for_quectel_modem.PowerUp.power_up_from read_offsets enter_por
    get_mhi_state mhi_for_quectel_modem.Power.get_exec_env
power_up_runs = refl

power_up_device_ok_example :
    let c' = (power_up_device booting timed_out resources off).0 in
    let ee = (enter_por booting (read_offsets booting off).0).1 in
    (may_start ee ≡ true)
    × (c'.pm_state ≡ por)
    × (c'.transition_list
        ≡ [] ++ ((if Ee.in_pbl ee then DevTransition.pbl else DevTransition.ready) ∷ []))
power_up_device_ok_example =
    power_up_device_ok booting timed_out resources off (λ cond s. (refl, refl)) refl power_up_runs

sync_runs : (sync_power_up booting comes_up resources nothing off).1 ≡ ok
unfolding sync_power_up mhi_for_quectel_modem.PowerUp.async_power_up power_up_device
    mhi_for_quectel_modem.PowerUp.power_up_from read_offsets enter_por get_mhi_state
    mhi_for_quectel_modem.Power.get_exec_env
sync_runs = refl
