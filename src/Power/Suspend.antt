-- ===== src/Power/Suspend.antt =====
-- Suspend, resume and the synchronous wake-up (drivers/bus/mhi/core/pm.c).
pub mod Results
pub mod Cycle
use mhi_for_quectel_modem.Base.{
  ℕ, Bool, true, false, not, ◌&&◌, ◌||◌, Option, none, some, List, [], ◌∷◌, get_elem?, ◌==◌,
  if◌then◌else◌,
}
use mhi_for_quectel_modem.Regs.{Device, Callback, lpm_enter, lpm_exit, notify}
use mhi_for_quectel_modem.Pm.State.{PmState, bit, disable, m0, m3_enter, m3_exit, in_error_state}
use mhi_for_quectel_modem.DevState
use mhi_for_quectel_modem.Ctrl.{Ctrl, Chan, Code, ok, err, eio, einval, ebusy, act, tryset}
use mhi_for_quectel_modem.Wake.{assert_dev_wake, deassert_dev_wake, resume_if_suspended}
use mhi_for_quectel_modem.Wait.{Waiting, Condition, Wait}
use mhi_for_quectel_modem.Power.{set_mhi_state}

-- Resources that keep the device from being suspended.
abbrev pub is_busy : Ctrl → Bool
is_busy c = not (c.dev_wake == 0) || not (c.pending_pkts == 0)

-- A wait whose condition only looks at the controller.
abbrev pub until : (Ctrl → Bool) → Condition
until p s = (s, p s.ctrl)

abbrev pub waiting : Ctrl → Waiting
waiting c = record { ctrl = c; out0 = 0; out1 = 0 }

-- The conditions of the four waits.
abbrev pub is_up : Ctrl → Bool
is_up c = (c.dev_state == DevState.m0) || (c.dev_state == DevState.m1) || in_error_state c.pm_state

abbrev pub is_suspended : Ctrl → Bool
is_suspended c = (c.dev_state == DevState.m3) || in_error_state c.pm_state

abbrev pub is_resumed : Ctrl → Bool
is_resumed c = (c.dev_state == DevState.m0) || in_error_state c.pm_state

abbrev pub is_in_m0 : Ctrl → Bool
is_in_m0 c = (bit c.pm_state == bit m0) || in_error_state c.pm_state

-- `itr->mhi_dev`
unfoldable pub has_client : Ctrl → ℕ → Bool
has_client c i = elim (get_elem? c.chans i) [ none ↦ false | some ch ↦ ch.has_dev ]

-- The loop over `lpm_chans`: `mhi_notify` for each channel that has a device.
unfoldable pub notify_lpm : Callback → List ℕ → Ctrl → Ctrl
notify_lpm cb [] c = c
notify_lpm cb (i ∷ is) c = notify_lpm cb is (if has_client c i then act (notify i cb) c else c)

module _ (dev : Device) (wait : Wait) where
  -- The second half of `mhi_pm_suspend`, from where it holds `pm_lock` for writing.
  unfoldable pub enter_m3 : Ctrl → Ctrl × Code
  enter_m3 c =
      if is_busy c
      then (c, err ebusy)
      else (let c₁ = tryset m3_enter c in
          if not (bit c₁.pm_state == bit m3_enter)
          then (c₁, err eio)
          else (let (s, ret) =
                wait (until is_suspended) (waiting (set_mhi_state dev c₁ DevState.m3)) in
              if (ret == 0) || in_error_state s.ctrl.pm_state
              then (s.ctrl, err eio)
              else (notify_lpm lpm_enter s.ctrl.lpm_chans s.ctrl, ok)))

  -- `mhi_pm_suspend`
  unfoldable pub pm_suspend : Ctrl → Ctrl × Code
  pm_suspend c =
      if bit c.pm_state == bit disable
      then (c, err einval)
      else if in_error_state c.pm_state
      then (c, err eio)
      else if is_busy c
      then (c, err ebusy)
      else (let (s, ret) = wait (until is_up) (waiting (assert_dev_wake c false)) in
          let c₁ = deassert_dev_wake s.ctrl false in
          if (ret == 0) || in_error_state c₁.pm_state then (c₁, err eio) else enter_m3 c₁)

  -- `mhi_pm_resume`
  unfoldable pub pm_resume : Ctrl → Ctrl × Code
  pm_resume c =
      if bit c.pm_state == bit disable
      then (c, ok)
      else if in_error_state c.pm_state
      then (c, err eio)
      else (let c₁ = tryset m3_exit (notify_lpm lpm_exit c.lpm_chans c) in
          if not (bit c₁.pm_state == bit m3_exit)
          then (c₁, err eio)
          else (let (s, ret) =
                wait (until is_resumed) (waiting (set_mhi_state dev c₁ DevState.m0)) in
              if (ret == 0) || in_error_state s.ctrl.pm_state
              then (s.ctrl, err eio)
              else (s.ctrl, ok)))

  -- `__mhi_device_get_sync`
  unfoldable pub get_sync : Ctrl → Ctrl × Code
  get_sync c =
      let (s, ret) =
        wait (until is_in_m0) (waiting (resume_if_suspended (assert_dev_wake c true))) in
      if (ret == 0) || in_error_state s.ctrl.pm_state
      then (deassert_dev_wake s.ctrl false, err eio)
      else (s.ctrl, ok)
