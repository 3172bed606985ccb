-- ===== src/Power/Moves.antt =====
-- What the handlers of M0, M1 and M3 do to the power state, and what they leave alone.
use mhi_for_quectel_modem.Base.{
  ◌+◌, ◌^◌, ◌<◌, Bool, true, false, ◌≡◌, ◌≢◌, ◌⊎◌, refl, arith, if◌then◌else◌,
}
use mhi_for_quectel_modem.Base.Word.{u32}
use mhi_for_quectel_modem.Regs.{Device, wake_up_all}
use mhi_for_quectel_modem.Pm.State.{m0, m2, m3, tryset_pm_state}
use mhi_for_quectel_modem.Pm.Graph.{tryset_exact}
use mhi_for_quectel_modem.DevState
use mhi_for_quectel_modem.Ee
use mhi_for_quectel_modem.Ctrl.{Ctrl, ok, err, eio, act, tryset}
use mhi_for_quectel_modem.Wake.{assert_dev_wake, deassert_dev_wake}
use mhi_for_quectel_modem.Wake.Count.{count-assert, count-deassert}
use mhi_for_quectel_modem.Power.{
  m0_transition, m1_transition, m3_transition, m0_mission_mode, m0_channels, set_mhi_state,
}

-- The part of the controller that the wake routines and the doorbells leave alone.
pub record SameState (c c' : Ctrl) : Type 0 where
  pub pm : c'.pm_state ≡ c.pm_state
  pub dev : c'.dev_state ≡ c.dev_state
  pub env : c'.ee ≡ c.ee
  pub pending : c'.pending_pkts ≡ c.pending_pkts

pub SameState-assert : (c : Ctrl) (force : Bool) → SameState c (assert_dev_wake c force)
unfolding assert_dev_wake
SameState-assert c force = ground arith

pub SameState-deassert : (c : Ctrl) (override : Bool) → SameState c (deassert_dev_wake c override)
unfolding deassert_dev_wake
SameState-deassert c override = ground arith

SameState-mission :
    (c : Ctrl) → SameState c (m0_mission_mode c) × ((m0_mission_mode c).dev_wake ≡ c.dev_wake)
unfolding m0_mission_mode
SameState-mission c = (record { pm = refl; dev = refl; env = refl; pending = refl }, refl)

SameState-channels :
    (c : Ctrl) → SameState c (m0_channels c) × ((m0_channels c).dev_wake ≡ c.dev_wake)
unfolding m0_channels
SameState-channels c = (record { pm = refl; dev = refl; env = refl; pending = refl }, refl)

-- Where one more reference does not overflow the wake count, `mhi_pm_m0_transition` succeeds
-- exactly when the attempt to go to M0 is granted. It records M0 as the device's state and keeps
-- the wake count and the count of packets in either case; on success the controller is in M0, and
-- on failure (EIO) the power state is what it was.
pub m0_transition_lem :
    (c : Ctrl)
    → c.dev_wake + 1 < 2 ^ 32
    → let (c', ret) = m0_transition c in
      (c'.dev_state ≡ DevState.m0)
      × (c'.dev_wake ≡ c.dev_wake)
      × (c'.pending_pkts ≡ c.pending_pkts)
      × (((ret ≡ ok) × (tryset_pm_state c.pm_state m0 ≡ m0) × (c'.pm_state ≡ m0))
          ⊎ ((ret ≡ err eio) × (tryset_pm_state c.pm_state m0 ≢ m0) × (c'.pm_state ≡ c.pm_state)))
unfolding m0_transition tryset
m0_transition_lem c h =
    let c₁ = tryset m0 (record c { dev_state = DevState.m0 }) in
    let c₀ = record c₁ { count_m0 = u32 (c₁.count_m0 + 1) } in
    let c₂ = assert_dev_wake c₀ true in
    let c₃ = if Ee.in_mission_mode c₂.ee then m0_mission_mode c₂ else c₂ in
    ground (
      arith,
      (tryset_exact c.pm_state m0).1,
      count-assert c₀ true,
      SameState-assert c₀ true,
      SameState-mission c₂,
      SameState-channels c₃,
      SameState-deassert (m0_channels c₃) false,
      count-deassert (m0_channels c₃) false,
    )

-- `mhi_pm_m3_transition` records M3 as the device's state and keeps the wake count. It returns 0 with
-- the controller in M3, or EIO with the power state that it had.
pub m3_transition_lem :
    (c : Ctrl)
    → let (c', ret) = m3_transition c in
      (c'.dev_state ≡ DevState.m3)
      × (c'.dev_wake ≡ c.dev_wake)
      × (((ret ≡ ok) × (c'.pm_state ≡ m3)) ⊎ ((ret ≡ err eio) × (c'.pm_state ≡ c.pm_state)))
unfolding m3_transition tryset
m3_transition_lem c = ground (arith, (tryset_exact c.pm_state m3).1)

-- After a granted move to M2, resources that are still held make the driver ring the wake doorbell.
wakes :
    (c : Ctrl) → c.pm_state ≡ m2 → (deassert_dev_wake (assert_dev_wake c true) true).wake_set ≡ true
unfolding assert_dev_wake deassert_dev_wake
wakes c h = ground arith

-- Where one more reference does not overflow the wake count, `mhi_pm_m1_transition` leaves the
-- controller as it was if M2 is not granted. Otherwise it records M2 as the state of both sides,
-- keeps the wake count, and ends with the wake flag set unless no packet is pending and nobody
-- holds the device awake.
pub m1_transition_lem :
    (dev : Device) (c : Ctrl)
    → c.dev_wake + 1 < 2 ^ 32
    → let c' = m1_transition dev c in
      ((tryset_pm_state c.pm_state m2 ≢ m2) × (c' ≡ c))
      ⊎ ((tryset_pm_state c.pm_state m2 ≡ m2)
          × (c'.pm_state ≡ m2)
          × (c'.dev_state ≡ DevState.m2)
          × (c'.dev_wake ≡ c.dev_wake)
          × (((c.pending_pkts ≡ 0) × (c.dev_wake ≡ 0)) ⊎ (c'.wake_set ≡ true)))
unfolding m1_transition tryset set_mhi_state
m1_transition_lem dev c h =
    let c₂ = set_mhi_state dev (tryset m2 c) DevState.m2 in
    let c₃ =
      act wake_up_all (record c₂ { dev_state = DevState.m2; count_m2 = u32 (c₂.count_m2 + 1) }) in
    ground (
      arith,
      (tryset_exact c.pm_state m2).1,
      count-assert c₃ true,
      SameState-assert c₃ true,
      wakes c₃,
      count-deassert (assert_dev_wake c₃ true) true,
      SameState-deassert (assert_dev_wake c₃ true) true,
    )
