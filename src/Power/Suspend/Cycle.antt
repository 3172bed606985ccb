-- ===== src/Power/Suspend/Cycle.antt =====
-- A device that answers: a suspend and the resume after it bring the controller back to M0.
use mhi_for_quectel_modem.Base.{ℕ, false, ◌≡◌, refl, arith, if◌then◌else◌}
use mhi_for_quectel_modem.Regs.{Device, lpm_enter, lpm_exit}
use mhi_for_quectel_modem.Pm.State.{PmState, m0, m3_enter, m3, m3_exit, tryset_pm_state}
use mhi_for_quectel_modem.DevState
use mhi_for_quectel_modem.Ctrl.{Ctrl, ok, tryset}
use mhi_for_quectel_modem.Wait.{Wait, IsWait}
use mhi_for_quectel_modem.Wake.{assert_dev_wake, deassert_dev_wake}
use mhi_for_quectel_modem.Wake.Count.{count-assert, count-deassert}
use mhi_for_quectel_modem.Power.{m0_transition, m3_transition, set_mhi_state}
use mhi_for_quectel_modem.Power.Moves.{
  m0_transition_lem, m3_transition_lem, SameState-assert, SameState-deassert,
}
use mhi_for_quectel_modem.Power.Suspend.Results.{notify_lpm-same}
use mhi_for_quectel_modem.Power.Suspend.{notify_lpm, enter_m3, pm_suspend, pm_resume}

-- What the control event ring's handler does while a thread waits, once the device has announced
-- the state that it was asked for.
answer : PmState → Ctrl → Ctrl
answer m3_enter c = (m3_transition c).0
answer m3_exit c = (m0_transition c).0
answer _ c = c

-- A wait during which the device answers; the condition is then evaluated once.
unfoldable pub answered : Wait
unfolding answer
answered cond s =
    let (t, b) = cond (record s { ctrl = answer s.ctrl.pm_state s.ctrl }) in (t, if b then 1 else 0)

-- It is a wait by the contract.
pub answered-IsWait : IsWait answered
unfolding answered
answered-IsWait cond s = (record s { ctrl = answer s.ctrl.pm_state s.ctrl }, ground arith)

m3_from_enter :
    (c : Ctrl)
    → c.pm_state ≡ m3_enter
    → let c' = (m3_transition c).0 in (c'.pm_state ≡ m3) × (c'.dev_state ≡ DevState.m3)
unfolding m3_transition tryset tryset_pm_state
m3_from_enter c h = ground arith

-- An M0 controller that nobody holds and that has no packets in flight.
pub record IsIdle (c : Ctrl) : Type 0 where
  pub up : c.pm_state ≡ m0
  pub device_up : c.dev_state ≡ DevState.m0
  pub released : c.dev_wake ≡ 0
  pub drained : c.pending_pkts ≡ 0

-- Asking the device for a state changes nothing but the log.
set_mhi_state-same :
    (dev : Device) (c : Ctrl) (state : ℕ)
    → ((set_mhi_state dev c state).pm_state ≡ c.pm_state)
      × ((set_mhi_state dev c state).dev_wake ≡ c.dev_wake)
      × ((set_mhi_state dev c state).pending_pkts ≡ c.pending_pkts)
unfolding set_mhi_state
set_mhi_state-same dev c state = (refl, refl, refl)

enter_m3_cycle :
    (dev : Device) (c : Ctrl)
    → IsIdle c
    → let (c', ret) = enter_m3 dev answered c in
      (ret ≡ ok) × (c'.pm_state ≡ m3) × (c'.dev_state ≡ DevState.m3) × (c'.dev_wake ≡ 0)
unfolding enter_m3 answered tryset tryset_pm_state
enter_m3_cycle dev c v =
    let c₁ = set_mhi_state dev (tryset m3_enter c) DevState.m3 in
    let c₂ = (m3_transition c₁).0 in
    ground (
      arith,
      set_mhi_state-same dev (tryset m3_enter c) DevState.m3,
      m3_from_enter c₁,
      m3_transition_lem c₁,
      notify_lpm-same lpm_enter c₂.lpm_chans c₂,
    )

suspend_cycle :
    (dev : Device) (c : Ctrl)
    → IsIdle c
    → let (c', ret) = pm_suspend dev answered c in
      (ret ≡ ok) × (c'.pm_state ≡ m3) × (c'.dev_state ≡ DevState.m3) × (c'.dev_wake ≡ 0)
unfolding pm_suspend answered
suspend_cycle dev c v =
    let c₁ = assert_dev_wake c false in
    let c₂ = deassert_dev_wake c₁ false in
    ground (
      arith,
      SameState-assert c false,
      count-assert c false,
      SameState-deassert c₁ false,
      count-deassert c₁ false,
      enter_m3_cycle dev c₂,
    )

resume_cycle :
    (dev : Device) (c : Ctrl)
    → c.pm_state ≡ m3
    → c.dev_wake ≡ 0
    → let (c', ret) = pm_resume dev answered c in
      (ret ≡ ok) × (c'.pm_state ≡ m0) × (c'.dev_state ≡ DevState.m0) × (c'.dev_wake ≡ 0)
unfolding pm_resume answered tryset tryset_pm_state
resume_cycle dev c h w =
    let c₀ = notify_lpm lpm_exit c.lpm_chans c in
    let c₁ = set_mhi_state dev (tryset m3_exit c₀) DevState.m0 in
    ground (
      arith,
      notify_lpm-same lpm_exit c.lpm_chans c,
      set_mhi_state-same dev (tryset m3_exit c₀) DevState.m0,
      m0_transition_lem c₁,
    )

-- With a device that answers, an idle controller in M0 is suspended to M3 with result 0, and the
-- resume after that brings it back to M0 with result 0; nobody holds the device at any of the ends.
pub suspend_resume_cycle :
    (dev : Device) (c : Ctrl)
    → IsIdle c
    → let (c₁, ret₁) = pm_suspend dev answered c in
      let (c₂, ret₂) = pm_resume dev answered c₁ in
      ((ret₁ ≡ ok) × (c₁.pm_state ≡ m3) × (c₁.dev_state ≡ DevState.m3) × (c₁.dev_wake ≡ 0))
      × ((ret₂ ≡ ok) × (c₂.pm_state ≡ m0) × (c₂.dev_state ≡ DevState.m0) × (c₂.dev_wake ≡ 0))
suspend_resume_cycle dev c v =
    let asleep = suspend_cycle dev c v in
    (asleep, resume_cycle dev (pm_suspend dev answered c).0 asleep.1 asleep.3)
