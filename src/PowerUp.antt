-- ===== src/PowerUp.antt =====
-- Powering the device up and down (drivers/bus/mhi/core/pm.c).
pub mod Results
use mhi_for_quectel_modem.Base.{
  ℕ, ◌+◌, Bool, true, false, not, ◌&&◌, ◌||◌, Option, none, some, ltb, ◌==◌, if◌then◌else◌,
}
use mhi_for_quectel_modem.Regs.{Device, read_reg, write_reg}
use mhi_for_quectel_modem.Pm.State.{
  bit, disable, por, ld_err_fatal_detect, in_error_state, in_fatal_state,
}
use mhi_for_quectel_modem.DevState
use mhi_for_quectel_modem.Ee
use mhi_for_quectel_modem.Ctrl.{
  Ctrl, Errno, Code, ok, err, einval, eio, etimedout, DevTransition, tryset,
}
use mhi_for_quectel_modem.Wait.{Waiting, Condition, Wait}
use mhi_for_quectel_modem.Power.{mhictrl, reset_mask, set_mhi_state, get_exec_env, get_mhi_state}
use mhi_for_quectel_modem.Power.Suspend.{until, waiting}
use mhi_for_quectel_modem.Events.{queue_state_transition}
use mhi_for_quectel_modem.Transition.{
  Outside, st_worker, waiting_with, read_field_into, put_out0, bhi_intvec,
}

-- What power up takes from the rest of the kernel: the memory of the contexts (`mhi_init_dev_ctxt`)
-- and the interrupts (`mhi_init_irq_setup`), their release, the release of the firmware's table, the
-- code of a failed register read, and whether `kmalloc` has memory.
pub record Resources : Type 0 where
  pub init_dev_ctxt : Ctrl → Ctrl × Code
  pub init_irq_setup : Ctrl → Ctrl × Code
  pub deinit_free_irq : Ctrl → Ctrl
  pub deinit_dev_ctxt : Ctrl → Ctrl
  pub free_fbc_image : Ctrl → Ctrl
  pub read_error : Errno
  pub allocated : Bool

abbrev pub bhioff : ℕ
bhioff = 0x28

abbrev pub bhieoff : ℕ
bhieoff = 0x2C

-- `if (!mhi_cntrl->pre_init) mhi_deinit_dev_ctxt(mhi_cntrl)`
unfoldable pub release_ctxt : Resources → Ctrl → Ctrl
release_ctxt res c = if c.setup.pre_init then c else res.deinit_dev_ctxt c

-- `error_bhi_offset` and the labels after it.
unfoldable pub release_all : Resources → Ctrl → Ctrl
release_all res c = release_ctxt res (res.deinit_free_irq c)

module _ (dev : Device) where
  -- The offsets of BHI and, if it is used, of BHIe. `none` is a failed read; `val` is what was read last.
  unfoldable pub read_offsets : Ctrl → Ctrl × Option ℕ
  unfolding read_reg
  read_offsets c =
      let (log, out) = read_reg dev c.log (c.regs + bhioff) in
      elim out [
        | none ↦ (record c { log = log }, none)
        | some val ↦
            let c₁ = record c { log = log; bhi = c.regs + val } in
            if not c₁.setup.fbc_download
            then (c₁, some val)
            else (let (log₁, out₁) = read_reg dev log (c₁.regs + bhieoff) in
                elim out₁ [
                  | none ↦ (record c₁ { log = log₁ }, none)
                  | some val₁ ↦ (
                    record c₁ { log = log₁; setup = record (c₁.setup) { bhie = c₁.regs + val₁ } },
                    some val₁,
                  )
                ])
      ]

  -- The part from the write of BHI_INTVEC to the reading of the execution environment.
  unfoldable pub enter_por : Ctrl → Ctrl × ℕ
  unfolding write_reg
  enter_por c =
      get_exec_env dev
        (record c { log = write_reg c.log (c.bhi + bhi_intvec) 0; pm_state = por; ee = Ee.max })

  -- The condition of the wait for the end of the reset; `out0` is `val`.
  unfoldable pub is_out_of_reset : Condition
  is_out_of_reset s =
      if in_fatal_state s.ctrl.pm_state
      then (s, true)
      else (let (s₁, failed) = read_field_into dev mhictrl reset_mask 1 put_out0 s in
          (s₁, failed || (s₁.out0 == 0)))

module _ (dev : Device) (wait : Wait) (res : Resources) where
  -- `state == MHI_STATE_SYS_ERR`: the device is reset. A nonzero result of the wait is taken for a
  -- failure.
  unfoldable pub leave_sys_err : Ctrl → ℕ → Ctrl × Code
  unfolding write_reg
  leave_sys_err c val =
      let (s, ret) =
        wait (is_out_of_reset dev) (waiting_with (set_mhi_state dev c DevState.reset) val 0) in
      if not (ret == 0)
      then (s.ctrl, err eio)
      else (record (s.ctrl) { log = write_reg s.ctrl.log (s.ctrl.bhi + bhi_intvec) 0 }, ok)

  -- From the reading of the device's state to the end.
  unfoldable pub power_up_from : Ctrl → ℕ → ℕ → Ctrl × Code
  power_up_from c current_ee val =
      let (c₁, state) = get_mhi_state dev c in
      let (c₂, ret) : Ctrl × Code =
        if state == DevState.sys_err then leave_sys_err c₁ val else (c₁, ok) in
      elim ret [
        | err e ↦ (release_all res c₂, err e)
        | ok ↦
            let next = if Ee.in_pbl current_ee then DevTransition.pbl else DevTransition.ready in
            ((queue_state_transition res.allocated c₂ next).0, ok)
      ]

  -- From the reading of the offsets to the end, the release of resources on errors included.
  unfoldable pub power_up_device : Ctrl → Ctrl × Code
  power_up_device c =
      let (c₁, offset) = read_offsets dev c in
      elim offset [
        | none ↦ (release_all res c₁, err (res.read_error))
        | some val ↦
            let (c₂, current_ee) = enter_por dev c₁ in
            if not (Ee.in_pbl current_ee)
              && not (current_ee == Ee.amss)
              && not (current_ee == Ee.sbl)
            then (release_all res c₂, err eio)
            else power_up_from c₂ current_ee val
      ]

  -- `mhi_async_power_up`, with the default wake routines in place.
  unfoldable pub async_power_up : Ctrl → Ctrl × Code
  async_power_up c =
      if ltb c.setup.nr_irqs 1
      then (c, err einval)
      else (let c₁ = record c { pm_state = disable } in
          let (c₂, ret) : Ctrl × Code =
            if c₁.setup.pre_init then (c₁, ok) else res.init_dev_ctxt c₁ in
          elim ret [
            | err e ↦ (c₂, err e)
            | ok ↦
                let (c₃, ret₁) = res.init_irq_setup c₂ in
                elim ret₁ [ err e ↦ (release_ctxt res c₃, err e) | ok ↦ power_up_device c₃ ]
          ])

  -- `mhi_power_down`. `flush_work` is the worker's run.
  unfoldable pub power_down : Outside → Ctrl → Bool → Ctrl
  power_down out c graceful =
      let c₁ = if graceful then c else tryset ld_err_fatal_detect c in
      let c₂ = (queue_state_transition res.allocated c₁ DevTransition.disable).0 in
      let c₃ = res.deinit_free_irq (st_worker dev wait out c₂) in
      if c₃.setup.pre_init then c₃ else res.deinit_dev_ctxt (res.free_fbc_image c₃)

  abbrev pub is_started : Ctrl → Bool
  is_started c = Ee.in_mission_mode c.ee || (c.ee == Ee.fp) || in_error_state c.pm_state

  -- `mhi_sync_power_up`
  unfoldable pub sync_power_up : Outside → Ctrl → Ctrl × Code
  sync_power_up out c =
      let (c₁, ret) = async_power_up c in
      elim ret [
        | err e ↦ (c₁, err e)
        | ok ↦
            let c₂ = (wait (until is_started) (waiting c₁)).0.ctrl in
            if c₂.ee == Ee.fp
            then ((queue_state_transition res.allocated c₂ DevTransition.ready).0, ok)
            else if (c₂.ee == Ee.sbl) || Ee.in_mission_mode c₂.ee
            then (c₂, ok)
            else (power_down out c₂ false, err etimedout)
      ]
