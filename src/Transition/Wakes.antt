-- ===== src/Transition/Wakes.antt =====
-- The wake reference that the mission mode transition takes.
use mhi_for_quectel_modem.Base.{
  ◌+◌, ◌-◌, ◌^◌, ◌<◌, false, ◌≡◌, inl, inr, ap, ◌∙◌, arith, Bool-cases,
}
use mhi_for_quectel_modem.Base.Word.{u32}
use mhi_for_quectel_modem.Regs.{Device, wake_up_all, status_cb, ee_mission_mode}
use mhi_for_quectel_modem.Ctrl.{Ctrl, act, db_access_valid}
use mhi_for_quectel_modem.Wait.{Wait, Condition, Waiting}
use mhi_for_quectel_modem.Wake.Count.{count-deassert}
use mhi_for_quectel_modem.Power.{for_each}
use mhi_for_quectel_modem.Power.Suspend.{get_sync}
use mhi_for_quectel_modem.Power.Suspend.Results.{get_sync-count}
use mhi_for_quectel_modem.Pm.State.{in_error_state}
use mhi_for_quectel_modem.Transition.{
  Outside, refresh_ee, mission_event, mission_mode_awake, mission_mode_transition,
}

refresh_ee-count : (dev : Device) (c : Ctrl) → (refresh_ee dev c).dev_wake ≡ c.dev_wake
unfolding refresh_ee mhi_for_quectel_modem.Power.get_exec_env
refresh_ee-count dev c = ground arith

awake-count :
    (out : Outside) (c : Ctrl)
    → ((d : Ctrl) → (out.create_devices d).dev_wake ≡ d.dev_wake)
    → (mission_mode_awake out c).0.dev_wake ≡ u32 (c.dev_wake + 2 ^ 32 - 1)
unfolding mission_mode_awake
awake-count out c still = elim (Bool-cases (in_error_state c.pm_state)) [
  | inl e ↦ rw (e, mission_mode_awake) (count-deassert c false)
  | inr e ↦
      let (log, events) = for_each (mission_event (db_access_valid c)) c.log c.events in
      let d = record c { log = log; events = events } in
      rw (e, mission_mode_awake)
        (count-deassert (out.create_devices d) false ∙ ap (λ n. u32 (n + 2 ^ 32 - 1)) (still d))
]

-- Where neither the other threads during the wait nor the drivers that are probed keep a wake
-- reference, and one more does not overflow the count, `mhi_pm_mission_mode_transition` gives back the
-- reference that it takes, on every path, errors included.
pub mission_mode_transition-count :
    (dev : Device) (wait : Wait) (out : Outside) (c : Ctrl)
    → c.dev_wake + 1 < 2 ^ 32
    → ((cond : Condition) (s : Waiting) → (wait cond s).0.ctrl.dev_wake ≡ s.ctrl.dev_wake)
    → ((d : Ctrl) → (out.create_devices d).dev_wake ≡ d.dev_wake)
    → (mission_mode_transition dev wait out c).0.dev_wake ≡ c.dev_wake
unfolding mission_mode_transition
mission_mode_transition-count dev wait out c h calm still =
    let c₁ = refresh_ee dev c in
    let c₂ = act (status_cb ee_mission_mode) (act wake_up_all c₁) in
    ground (
      arith,
      refresh_ee-count dev c,
      get_sync-count dev wait c₂,
      awake-count out (get_sync dev wait c₂).0,
    )
