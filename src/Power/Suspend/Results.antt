-- ===== src/Power/Suspend/Results.antt =====
-- What the results of suspend, resume and the synchronous wake-up mean.
use mhi_for_quectel_modem.Base.{
  ℕ, ◌+◌, ◌^◌, ◌<◌, Bool, true, false, Option, none, some, if◌then◌else◌, not, ◌≡◌, ap, ◌∙◌, ◌⊎◌,
  inl, inr, Bool-cases, List, [], ◌∷◌, refl, sym, arith, ◌==◌,
}
use mhi_for_quectel_modem.Regs.{Device, Callback, notify, lpm_enter, lpm_exit}
use mhi_for_quectel_modem.Pm.State.{bit, disable, in_error_state, m3_enter, m3_exit, m0}
use mhi_for_quectel_modem.DevState
use mhi_for_quectel_modem.Ctrl.{Ctrl, Errno, ok, err, eio, ebusy, einval, act, tryset}
use mhi_for_quectel_modem.Wake.{assert_dev_wake, deassert_dev_wake, resume_if_suspended}
use mhi_for_quectel_modem.Wake.Count.{count-assert, count-deassert}
use mhi_for_quectel_modem.Wait.{Wait, Waiting, Condition, IsWait}
use mhi_for_quectel_modem.Power.{set_mhi_state}
use mhi_for_quectel_modem.Power.Suspend.{
  has_client, is_busy, is_up, is_suspended, is_resumed, is_in_m0, until, waiting, notify_lpm,
  enter_m3, pm_suspend, pm_resume, get_sync,
}

-- Notifying channels changes nothing but the log.
pub notify_lpm-same :
    (cb : Callback) (is : List ℕ) (c : Ctrl)
    → let c' = notify_lpm cb is c in
      (c'.pm_state ≡ c.pm_state)
      × (c'.dev_state ≡ c.dev_state)
      × (c'.dev_wake ≡ c.dev_wake)
      × (c'.pending_pkts ≡ c.pending_pkts)
unfolding notify_lpm
notify_lpm-same cb [] c = (refl, refl, refl, refl)
notify_lpm-same cb (i ∷ is) c = elim (Bool-cases (has_client c i)) [
  | inl e ↦ rw (e, notify_lpm) (notify_lpm-same cb is (act (notify i cb) c))
  | inr e ↦ rw (e, notify_lpm) (notify_lpm-same cb is c)
]

module _ (dev : Device) (wait : Wait) (law : IsWait wait) where
  -- A wait that does not return 0 leaves a controller at which its condition holds.
  pub holds :
      (p : Ctrl → Bool) (s : Waiting)
      → ((wait (until p) s).1 == 0) ≡ false
      → p (wait (until p) s).0.ctrl ≡ true
  holds p s h =
      let e = (law (until p) s).1 in sym (ap (λ q. p (q.0).ctrl) e) ∙ ap (λ q. q.1) e ∙ ap not h

  enter_m3_ok :
      (c : Ctrl)
      → (enter_m3 dev wait c).1 ≡ ok
      → let c' = (enter_m3 dev wait c).0 in
        (c'.dev_state ≡ DevState.m3) × (in_error_state c'.pm_state ≡ false)
  unfolding enter_m3
  enter_m3_ok c h = ground (
    arith,
    holds is_suspended (waiting (set_mhi_state dev (tryset m3_enter c) DevState.m3)),
    notify_lpm-same lpm_enter
        (wait (until is_suspended)
          (waiting (set_mhi_state dev (tryset m3_enter c) DevState.m3))).0.ctrl.lpm_chans
        (wait (until is_suspended)
          (waiting (set_mhi_state dev (tryset m3_enter c) DevState.m3))).0.ctrl,
  )

  -- With a wait that keeps its contract, `mhi_pm_suspend` returns 0 only with the device in M3 and
  -- the controller in no error state.
  pub pm_suspend_ok :
      (c : Ctrl)
      → (pm_suspend dev wait c).1 ≡ ok
      → let c' = (pm_suspend dev wait c).0 in
        (c'.dev_state ≡ DevState.m3) × (in_error_state c'.pm_state ≡ false)
  unfolding pm_suspend
  pm_suspend_ok c h = ground (
    arith,
    enter_m3_ok
        (deassert_dev_wake (wait (until is_up) (waiting (assert_dev_wake c false))).0.ctrl false),
  )

  -- With a wait that keeps its contract, `mhi_pm_resume` returns 0 only from DISABLE, with nothing
  -- changed, or with the device in M0 and the controller in no error state.
  pub pm_resume_ok :
      (c : Ctrl)
      → (pm_resume dev wait c).1 ≡ ok
      → let c' = (pm_resume dev wait c).0 in
        ((c.pm_state ≡ disable) × (c' ≡ c))
        ⊎ ((c'.dev_state ≡ DevState.m0) × (in_error_state c'.pm_state ≡ false))
  unfolding pm_resume
  pm_resume_ok c h = ground (
    arith,
    holds is_resumed (
        waiting
          (set_mhi_state dev (tryset m3_exit (notify_lpm lpm_exit c.lpm_chans c)) DevState.m0)),
  )

  -- With a wait that keeps its contract, `__mhi_device_get_sync` returns 0 only with the
  -- controller in M0.
  pub get_sync_ok :
      (c : Ctrl) → (get_sync dev wait c).1 ≡ ok → (get_sync dev wait c).0.pm_state ≡ m0
  unfolding get_sync
  get_sync_ok c h =
      ground (arith, holds is_in_m0 (waiting (resume_if_suspended (assert_dev_wake c true))))

-- Why `mhi_pm_suspend` turns a controller down before it does anything: DISABLE, an error state, or
-- a device that is held awake or has packets pending, in this order.
abbrev pub refusal : Ctrl → Option Errno
refusal c =
    if bit c.pm_state == bit disable
    then some einval
    else if in_error_state c.pm_state
    then some eio
    else if is_busy c
    then some ebusy
    else none

-- Where there is a reason to refuse (EINVAL in DISABLE, else EIO in an error state, else EBUSY while
-- the device is held awake or packets are pending), `mhi_pm_suspend` returns it and leaves the
-- controller exactly as it was, its log included.
pub pm_suspend_refused :
    (dev : Device) (wait : Wait) (c : Ctrl) (e : Errno)
    → refusal c ≡ some e
    → pm_suspend dev wait c ≡ (c, err e)
unfolding pm_suspend
pm_suspend_refused dev wait c e h = ground arith

-- Where the other threads leave the wake count alone during the wait and one more reference does
-- not overflow it, `__mhi_device_get_sync` takes exactly one reference when it returns 0 and none
-- when it fails (EIO).
pub get_sync-count :
    (dev : Device) (wait : Wait) (c : Ctrl)
    → c.dev_wake + 1 < 2 ^ 32
    → ((cond : Condition) (s : Waiting) → (wait cond s).0.ctrl.dev_wake ≡ s.ctrl.dev_wake)
    → let (c', ret) = get_sync dev wait c in
      ((ret ≡ ok) × (c'.dev_wake ≡ c.dev_wake + 1)) ⊎ ((ret ≡ err eio) × (c'.dev_wake ≡ c.dev_wake))
unfolding get_sync
get_sync-count dev wait c h quiet =
    let s = waiting (resume_if_suspended (assert_dev_wake c true)) in
    ground (
      arith,
      quiet (until is_in_m0) s,
      count-assert c true,
      count-deassert (wait (until is_in_m0) s).0.ctrl false,
    )
