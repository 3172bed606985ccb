-- ===== src/Transition.antt =====
-- The state changes that the worker of drivers/bus/mhi/core/pm.c carries out.
pub mod Results
pub mod Wakes
use mhi_for_quectel_modem.Base.{
  ℕ, ◌+◌, Bool, true, false, not, ◌&&◌, ◌||◌, Option, none, some, List, [], ◌∷◌, ◌==◌,
  if◌then◌else◌,
}
use mhi_for_quectel_modem.Regs.{
  Act, Log, Device, read_reg_field, write_reg, wake_up_all, status_cb, ee_mission_mode, sys_error,
}
use mhi_for_quectel_modem.Ring.{Ring}
use mhi_for_quectel_modem.Pm.State.{
  PmState, bit, por, disable, sys_err_process, shutdown_process, reg_access_valid, in_error_state,
  in_fatal_state,
}
use mhi_for_quectel_modem.DevState
use mhi_for_quectel_modem.Ee
use mhi_for_quectel_modem.Ctrl.{
  Ctrl, Event, Code, ok, err, eio, etimedout, DevTransition, act, tryset, db_access_valid,
  ring_er_db,
}
use mhi_for_quectel_modem.Wake.{deassert_dev_wake}
use mhi_for_quectel_modem.Wait.{Waiting, Condition, Wait}
use mhi_for_quectel_modem.Power.{
  mhictrl, mhistatus, reset_mask, fill_ring, for_each, set_mhi_state, get_exec_env,
}
use mhi_for_quectel_modem.Power.Suspend.{get_sync}
use mhi_for_quectel_modem.Init.Mmio.{init_mmio}

-- BHI_INTVEC
abbrev pub bhi_intvec : ℕ
bhi_intvec = 0x20

-- `wait_event_timeout` of the controller, with the two locals that the condition may write.
abbrev pub waiting_with : Ctrl → ℕ → ℕ → Waiting
waiting_with c a b = record { ctrl = c; out0 = a; out1 = b }

-- `mhi_read_reg_field(...) `, into a local: the state after it, with true if the read failed.
abbrev pub read_field_into : Device → ℕ → ℕ → ℕ → (ℕ → Waiting → Waiting) → Condition
read_field_into dev offset mask shift put s =
    let (log, out) = read_reg_field dev s.ctrl.log (s.ctrl.regs + offset) mask shift in
    let s' = record s { ctrl = record (s.ctrl) { log = log } } in
    elim out [ none ↦ (s', true) | some v ↦ (put v s', false) ]

abbrev pub put_out0 : ℕ → Waiting → Waiting
put_out0 v s = record s { out0 = v }

abbrev pub put_out1 : ℕ → Waiting → Waiting
put_out1 v s = record s { out1 = v }

-- The driver core, with the drivers whose probe and remove functions it calls: `mhi_create_devices`
-- and `device_for_each_child(..., mhi_destroy_device)`; and `mhi_fw_load_handler`.
pub record Outside : Type 0 where
  pub create_devices : Ctrl → Ctrl
  pub destroy_devices : Ctrl → Ctrl
  pub fw_load_handler : Ctrl → Ctrl

-- The body of the loop over the event rings: the software rings are filled and rung.
unfoldable pub ready_event : Log → Event → Log × Event
ready_event log event =
    if event.offload_ev || event.hw_ring
    then (log, event)
    else ring_er_db log (record event { ring = fill_ring (event.ring) })

-- The body of the loop over the event rings in `mhi_pm_mission_mode_transition`.
unfoldable pub mission_event : Bool → Log → Event → Log × Event
mission_event db_valid log event =
    if event.offload_ev || not event.hw_ring
    then (log, event)
    else (let event' = record event { ring = fill_ring (event.ring) } in
        if db_valid then ring_er_db log event' else (log, event'))

-- Both pointers of a ring, and of its context, back to the start.
unfoldable pub reset_ring : Ring → Ring
reset_ring ring = record ring {
  rp = ring.base;
  wp = ring.base;
  ctxt_rp = ring.ctxt_rbase;
  ctxt_wp = ring.ctxt_rbase;
}

unfoldable pub reset_events : List Event → List Event
reset_events [] = []
reset_events (e ∷ es) =
    (if e.offload_ev then e else record e { ring = reset_ring (e.ring) }) ∷ reset_events es

-- The part of `mhi_pm_mission_mode_transition` that holds a wake reference.
unfoldable pub mission_mode_awake : Outside → Ctrl → Ctrl × Code
mission_mode_awake out c =
    if in_error_state c.pm_state
    then (deassert_dev_wake c false, err eio)
    else (let (log, events) = for_each (mission_event (db_access_valid c)) c.log c.events in
        (
          deassert_dev_wake (out.create_devices (record c { log = log; events = events })) false,
          ok,
        ))

module _ (dev : Device) where
  -- The condition of `mhi_ready_state_transition`; `out0` is `reset`, `out1` is `ready`.
  unfoldable pub is_ready : Condition
  is_ready s =
      if in_fatal_state s.ctrl.pm_state
      then (s, true)
      else (let (s₁, failed₁) = read_field_into dev mhictrl reset_mask 1 put_out0 s in
          if failed₁
          then (s₁, true)
          else (let (s₂, failed₂) = read_field_into dev mhistatus 0x1 0 put_out1 s₁ in
              (s₂, failed₂ || ((s₂.out0 == 0) && not (s₂.out1 == 0)))))

  -- The part under the power state's lock.
  unfoldable pub ready_mmio : Ctrl → Ctrl × Code
  ready_mmio c =
      if not (reg_access_valid c.pm_state)
      then (c, err eio)
      else (let (c₁, ret) = init_mmio dev c in
          elim ret [
            | err _ ↦ (c₁, err eio)
            | ok ↦
                let (log, events) = for_each ready_event c₁.log c₁.events in
                (set_mhi_state dev (record c₁ { log = log; events = events }) DevState.m0, ok)
          ])

  -- `if (MHI_REG_ACCESS_VALID(pm_state)) ee = mhi_get_exec_env(...)`
  unfoldable pub refresh_ee : Ctrl → Ctrl
  refresh_ee c =
      if reg_access_valid c.pm_state
      then (let (c', ee) = get_exec_env dev c in record c' { ee = ee })
      else c

  -- The condition of the wait in `mhi_pm_disable_transition`; `out0` is `in_reset`.
  unfoldable pub is_reset : Condition
  is_reset s =
      let (s₁, failed) = read_field_into dev mhictrl reset_mask 1 put_out0 s in
      (s₁, failed || (s₁.out0 == 0))

module _ (dev : Device) (wait : Wait) where
  -- `mhi_ready_state_transition`
  unfoldable pub ready_state_transition : Ctrl → Ctrl × Code
  ready_state_transition c =
      let (s, _) = wait (is_ready dev) (waiting_with c 1 0) in
      if in_fatal_state s.ctrl.pm_state
      then (s.ctrl, err eio)
      else if not (s.out0 == 0) || (s.out1 == 0)
      then (s.ctrl, err etimedout)
      else (let c₁ = record (tryset por (s.ctrl)) { dev_state = DevState.ready } in
          if not (bit c₁.pm_state == bit por) then (c₁, err eio) else ready_mmio dev c₁)

  -- `mhi_pm_mission_mode_transition`
  unfoldable pub mission_mode_transition : Outside → Ctrl → Ctrl × Code
  mission_mode_transition out c =
      let c₁ = refresh_ee dev c in
      if not (Ee.in_mission_mode c₁.ee)
      then (c₁, err eio)
      else (let (c₂, ret) =
            get_sync dev wait (act (status_cb ee_mission_mode) (act wake_up_all c₁)) in
          elim ret [ err e ↦ (c₂, err e) | ok ↦ mission_mode_awake out c₂ ])

  -- `mhi_pm_disable_transition` after the device was reset.
  unfoldable pub disable_rings : Outside → PmState → Ctrl → Ctrl
  disable_rings out state c =
      let c₁ = out.destroy_devices (act wake_up_all c) in
      let c₂ = record c₁ { cmd_ring = reset_ring (c₁.cmd_ring); events = reset_events c₁.events } in
      if bit state == bit sys_err_process then (ready_state_transition c₂).0 else tryset disable c₂

  -- Its middle part: the device is reset, if its registers could be reached before.
  unfoldable pub disable_device : Outside → PmState → PmState → Ctrl → Ctrl
  unfolding write_reg
  disable_device out state prev_state c =
      if reg_access_valid prev_state
      then (let (s, ret) =
            wait (is_reset dev) (waiting_with (set_mhi_state dev c DevState.reset) 0xFFFF_FFFF 0) in
          if ((ret == 0) || not (s.out0 == 0)) && (bit state == bit sys_err_process)
          then s.ctrl
          else disable_rings out state
              (record (s.ctrl) { log = write_reg s.ctrl.log (s.ctrl.bhi + bhi_intvec) 0 }))
      else disable_rings out state c

  -- `mhi_pm_disable_transition`
  unfoldable pub disable_transition : Outside → PmState → Ctrl → Ctrl
  disable_transition out state c =
      let c₀ = if bit state == bit sys_err_process then act (status_cb sys_error) c else c in
      let c₁ = tryset state c₀ in
      if bit c₁.pm_state == bit state
      then disable_device out state c₀.pm_state
          (act wake_up_all (record c₁ { ee = Ee.disable_transition; dev_state = DevState.reset }))
      else act wake_up_all c₁

  -- The switch of `mhi_pm_st_worker`.
  unfoldable pub handle_transition : Outside → Ctrl → DevTransition → Ctrl
  handle_transition out c DevTransition.pbl =
      let c₁ = refresh_ee dev c in if Ee.in_pbl c₁.ee then out.fw_load_handler c₁ else c₁
  handle_transition out c DevTransition.sbl = out.create_devices (record c { ee = Ee.sbl })
  handle_transition out c DevTransition.mission_mode = (mission_mode_transition out c).0
  handle_transition out c DevTransition.fp = out.create_devices (record c { ee = Ee.fp })
  handle_transition out c DevTransition.ready = (ready_state_transition c).0
  handle_transition out c DevTransition.sys_err = disable_transition out sys_err_process c
  handle_transition out c DevTransition.disable = disable_transition out shutdown_process c

  unfoldable pub handle_all : Outside → Ctrl → List DevTransition → Ctrl
  handle_all out c [] = c
  handle_all out c (t ∷ ts) = handle_all out (handle_transition out c t) ts

  -- `mhi_pm_st_worker`: the queue is taken over whole, and handled in order.
  unfoldable pub st_worker : Outside → Ctrl → Ctrl
  st_worker out c = handle_all out (record c { transition_list = [] }) c.transition_list
