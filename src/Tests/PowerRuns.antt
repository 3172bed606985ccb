-- ===== src/Tests/PowerRuns.antt =====
-- The wake count and the power handlers.
use mhi_for_quectel_modem.Base.{◌≡◌, ◌≢◌, ◌⊎◌, refl, true, false, List, [], ◌∷◌, arith}
use mhi_for_quectel_modem.Pm.State.{m0, m3, tryset_pm_state}
use mhi_for_quectel_modem.DevState
use mhi_for_quectel_modem.Ctrl.{Ctrl, ok, err, eio}
use mhi_for_quectel_modem.Wait.{Wait}
use mhi_for_quectel_modem.Wake.Mirror.{Mirrors, last_written}
use mhi_for_quectel_modem.Wake.Count.{
  WakeCall, get, put, toggle, client_get, client_put, calls, HeldAwake, calls-Mirrors,
  calls-HeldAwake,
}
use mhi_for_quectel_modem.Power.{m0_transition}
use mhi_for_quectel_modem.Power.Moves.{m0_transition_lem}
use mhi_for_quectel_modem.Power.Suspend.{pm_suspend, pm_resume, get_sync}
use mhi_for_quectel_modem.Power.Suspend.Cycle.{answered, IsIdle, suspend_resume_cycle}
use mhi_for_quectel_modem.Tests.Data.{ctrl, memory}

abbrev mixed : List WakeCall
mixed = get false ∷ toggle ∷ client_get ∷ put true ∷ client_put ∷ []

abbrev clients : List WakeCall
clients = client_get ∷ client_get ∷ client_put ∷ []

calls-Mirrors_example : Mirrors (calls ctrl mixed)
unfolding last_written
calls-Mirrors_example = calls-Mirrors ctrl mixed refl

calls-HeldAwake_example : HeldAwake (calls ctrl clients)
calls-HeldAwake_example =
    calls-HeldAwake ctrl clients (omega arith) (omega arith, (omega arith, (omega arith, tt)))
      (tt, (tt, (tt, tt))) refl refl

m0_transition_lem_example :
    let (c', ret) = m0_transition ctrl in
    (c'.dev_state ≡ DevState.m0)
    × (c'.dev_wake ≡ 0)
    × (c'.pending_pkts ≡ 0)
    × (((ret ≡ ok) × (tryset_pm_state m0 m0 ≡ m0) × (c'.pm_state ≡ m0))
        ⊎ ((ret ≡ err eio) × (tryset_pm_state m0 m0 ≢ m0) × (c'.pm_state ≡ m0)))
m0_transition_lem_example = m0_transition_lem ctrl (omega arith)

idle : IsIdle ctrl
idle = record { up = refl; device_up = refl; released = refl; drained = refl }

suspend_resume_cycle_example :
    let (c₁, ret₁) = pm_suspend memory answered ctrl in
    let (c₂, ret₂) = pm_resume memory answered c₁ in
    ((ret₁ ≡ ok) × (c₁.pm_state ≡ m3) × (c₁.dev_state ≡ DevState.m3) × (c₁.dev_wake ≡ 0))
    × ((ret₂ ≡ ok) × (c₂.pm_state ≡ m0) × (c₂.dev_state ≡ DevState.m0) × (c₂.dev_wake ≡ 0))
suspend_resume_cycle_example = suspend_resume_cycle memory ctrl idle

abbrev asleep : Ctrl
asleep = record ctrl { pm_state = m3; dev_state = 5 }

get_sync_runs : (get_sync memory answered ctrl).1 ≡ ok
unfolding get_sync answered mhi_for_quectel_modem.Wake.assert_dev_wake
get_sync_runs = refl

abbrev held : Ctrl
held = record ctrl { dev_wake = 1 }

-- A wait that times out at once.
abbrev timed_out : Wait
timed_out cond s = (s, 0)
