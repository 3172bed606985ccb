-- ===== src/PowerUp/Results.antt =====
-- What the results of power up mean.
use mhi_for_quectel_modem.Base.{
  ℕ, Bool, true, false, not, ◌||◌, Option, none, some, [], ◌∷◌, ◌++◌, ◌≡◌, ◌≢◌, ◌⊎◌, inl, inr, refl,
  ap, ◌∙◌, arith, ◌==◌, if◌then◌else◌,
}
use mhi_for_quectel_modem.Regs.{Device}
use mhi_for_quectel_modem.Pm.State.{por, in_fatal_state}
use mhi_for_quectel_modem.DevState
use mhi_for_quectel_modem.Ee
use mhi_for_quectel_modem.Ctrl.{Ctrl, ok, err, eio, DevTransition}
use mhi_for_quectel_modem.Wait.{Wait, IsWait, Condition, Waiting}
use mhi_for_quectel_modem.Power.{set_mhi_state, get_exec_env, get_mhi_state}
use mhi_for_quectel_modem.Events.{queue_state_transition}
use mhi_for_quectel_modem.Transition.{Outside, read_field_into, put_out0, waiting_with}
use mhi_for_quectel_modem.PowerUp.{
  Resources, read_offsets, enter_por, is_out_of_reset, leave_sys_err, power_up_from,
  power_up_device, sync_power_up,
}

-- The execution environments from which a device may be powered up.
abbrev pub may_start : ℕ → Bool
may_start ee = Ee.in_pbl ee || (ee == Ee.amss) || (ee == Ee.sbl)

module _ (dev : Device) (wait : Wait) (res : Resources) where
  -- What the condition of the wait for the end of the reset says, by what it reads.
  out_of_reset_cases :
      (t s : Waiting) (met : Bool)
      → is_out_of_reset dev t ≡ (s, met)
      → ((s.out0 ≡ 0) → met ≡ true)
        × ((met ≡ false) → (in_fatal_state s.ctrl.pm_state ≡ false) × (s.out0 ≢ 0))
  unfolding is_out_of_reset read_field_into put_out0
  out_of_reset_cases t s met e = (λ h. ground (arith, e, h), λ h. ground (arith, e, h))

  sys_err_result :
      (c : Ctrl) (val : ℕ)
      → (read_offsets dev c).1 ≡ some val
      → may_start (enter_por dev (read_offsets dev c).0).1 ≡ true
      → (get_mhi_state dev (enter_por dev (read_offsets dev c).0).0).1 ≡ DevState.sys_err
      → let c₃ = (get_mhi_state dev (enter_por dev (read_offsets dev c).0).0).0 in
        let ret =
          (wait
            (is_out_of_reset dev)
            (waiting_with (set_mhi_state dev c₃ DevState.reset) val 0)).1 in
        (power_up_device dev wait res c).1 ≡ (if ret == 0 then ok else err eio)
  unfolding power_up_device power_up_from leave_sys_err
  sys_err_result c val at start fail = ground (arith, at, start, fail)

  -- Let the wait keep its contract, and let a device report an error state, in an environment that
  -- power up accepts, with offsets that can be read. Then power up fails with EIO if the last reading
  -- found the device out of its reset, as it should be; and it returns 0 only if the last reading found
  -- the device still in reset, outside a fatal power state, when the time ran out. The test of the
  -- wait's result is the wrong way round.
  pub power_up_device-sys_err :
      (c : Ctrl) (val : ℕ)
      → IsWait wait
      → (read_offsets dev c).1 ≡ some val
      → may_start (enter_por dev (read_offsets dev c).0).1 ≡ true
      → (get_mhi_state dev (enter_por dev (read_offsets dev c).0).0).1 ≡ DevState.sys_err
      → let c₃ = (get_mhi_state dev (enter_por dev (read_offsets dev c).0).0).0 in
        let s =
          (wait
            (is_out_of_reset dev)
            (waiting_with (set_mhi_state dev c₃ DevState.reset) val 0)).0 in
        let r = (power_up_device dev wait res c).1 in
        ((s.out0 ≡ 0) → r ≡ err eio)
        × ((r ≡ ok) → (in_fatal_state s.ctrl.pm_state ≡ false) × (s.out0 ≢ 0))
  power_up_device-sys_err c val law at start fail =
      let c₃ = (get_mhi_state dev (enter_por dev (read_offsets dev c).0).0).0 in
      let w =
        wait (is_out_of_reset dev) (waiting_with (set_mhi_state dev c₃ DevState.reset) val 0) in
      let (t, e) =
        law (is_out_of_reset dev) (waiting_with (set_mhi_state dev c₃ DevState.reset) val 0) in
      let (met, unmet) = out_of_reset_cases t w.0 (not (w.1 == 0)) e in
      let result = sys_err_result c val at start fail in
      (λ out. result ∙ ground (arith, met out), λ done. unmet (ground (arith, result, done)))

  reads_keep : (c : Ctrl) → (read_offsets dev c).0.transition_list ≡ c.transition_list
  unfolding read_offsets
  reads_keep c = ground arith

  por_keeps :
      (c : Ctrl)
      → ((enter_por dev c).0.transition_list ≡ c.transition_list)
        × ((enter_por dev c).0.pm_state ≡ por)
  unfolding enter_por get_exec_env
  por_keeps c = ground arith

  state_keeps :
      (c : Ctrl)
      → ((get_mhi_state dev c).0.transition_list ≡ c.transition_list)
        × ((get_mhi_state dev c).0.pm_state ≡ c.pm_state)
  unfolding get_mhi_state
  state_keeps c = ground arith

  get_or_zero : (o : Option ℕ) → (o ≡ none) ⊎ ((v : ℕ) × (o ≡ some v))
  get_or_zero none = inl refl
  get_or_zero (some v) = inr (v, refl)

  failed : (c : Ctrl) → (read_offsets dev c).1 ≡ none → (power_up_device dev wait res c).1 ≢ ok
  unfolding power_up_device
  failed c e h = ground (arith, e)

  module _
      (calm : (cond : Condition) (s : Waiting)
        → ((wait cond s).0.ctrl.pm_state ≡ s.ctrl.pm_state)
          × ((wait cond s).0.ctrl.transition_list ≡ s.ctrl.transition_list)) where
    sys_err_keeps :
        (c : Ctrl) (val : ℕ)
        → let c' = (leave_sys_err dev wait res c val).0 in
          (c'.transition_list ≡ c.transition_list) × (c'.pm_state ≡ c.pm_state)
    unfolding leave_sys_err set_mhi_state
    sys_err_keeps c val = ground (
      arith,
      calm (is_out_of_reset dev) (waiting_with (set_mhi_state dev c DevState.reset) val 0),
    )

  from_ok :
      (c : Ctrl) (ee val : ℕ)
      → ((cond : Condition) (s : Waiting)
          → ((wait cond s).0.ctrl.pm_state ≡ s.ctrl.pm_state)
            × ((wait cond s).0.ctrl.transition_list ≡ s.ctrl.transition_list))
      → res.allocated ≡ true
      → (power_up_from dev wait res c ee val).1 ≡ ok
      → let c' = (power_up_from dev wait res c ee val).0 in
        (c'.pm_state ≡ c.pm_state)
        × (c'.transition_list
            ≡ c.transition_list
              ++ ((if Ee.in_pbl ee then DevTransition.pbl else DevTransition.ready) ∷ []))
  unfolding power_up_from queue_state_transition
  from_ok c ee val calm memory h =
      ground (arith, state_keeps c, sys_err_keeps calm (get_mhi_state dev c).0 val)

  device_parts :
      (c : Ctrl)
      → (power_up_device dev wait res c).1 ≡ ok
      → let (c₂, ee) = enter_por dev (read_offsets dev c).0 in
        (may_start ee ≡ true)
        × ((val : ℕ) × ((power_up_from dev wait res c₂ ee val).1 ≡ ok)
            × ((power_up_device dev wait res c).0 ≡ (power_up_from dev wait res c₂ ee val).0))
  unfolding power_up_device
  device_parts c h = elim (get_or_zero (read_offsets dev c).1) [
    | inl none_read ↦ absurd (failed c none_read h)
    | inr (val, e) ↦ (ground (arith, e), (val, ground (arith, e), ground (arith, e)))
  ]

  -- Where the other threads leave the power state and the queue of transitions alone during the wait,
  -- and there is memory for one more, power up from the reading of the offsets on returns 0 only with
  -- the controller in POR, the device in an environment from which it may start, and one transition
  -- more in the queue, at its end: to PBL from a boot loader, else to READY.
  pub power_up_device_ok :
      (c : Ctrl)
      → ((cond : Condition) (s : Waiting)
          → ((wait cond s).0.ctrl.pm_state ≡ s.ctrl.pm_state)
            × ((wait cond s).0.ctrl.transition_list ≡ s.ctrl.transition_list))
      → res.allocated ≡ true
      → (power_up_device dev wait res c).1 ≡ ok
      → let c' = (power_up_device dev wait res c).0 in
        let ee = (enter_por dev (read_offsets dev c).0).1 in
        (may_start ee ≡ true)
        × (c'.pm_state ≡ por)
        × (c'.transition_list
            ≡ c.transition_list
              ++ ((if Ee.in_pbl ee then DevTransition.pbl else DevTransition.ready) ∷ []))
  power_up_device_ok c calm memory h =
      let c₁ = (read_offsets dev c).0 in
      let (c₂, ee) = enter_por dev c₁ in
      let (start, rest) = device_parts c h in
      let (val, done, e) = rest in
      let (pm, queued) = from_ok c₂ ee val calm memory done in
      let (list, at) = por_keeps c₁ in
      (
        start,
        rw e (pm ∙ at),
        rw e (
            queued
            ∙ ap
                (λ l. l ++ ((if Ee.in_pbl ee then DevTransition.pbl else DevTransition.ready) ∷ []))
                (list ∙ reads_keep c)),
      )

  -- `mhi_sync_power_up` returns 0 only with the device in an environment in which it works: a mission
  -- mode, the secondary boot loader, or the flash programmer.
  pub sync_power_up_ok :
      (out : Outside) (c : Ctrl)
      → (sync_power_up dev wait res out c).1 ≡ ok
      → let ee = (sync_power_up dev wait res out c).0.ee in
        (Ee.in_mission_mode ee || (ee == Ee.sbl) || (ee == Ee.fp)) ≡ true
  unfolding sync_power_up queue_state_transition
  sync_power_up_ok out c h = ground arith
