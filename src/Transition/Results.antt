-- ===== src/Transition/Results.antt =====
-- Where the transitions of the state worker end.
use mhi_for_quectel_modem.Base.{
  ◌+◌, ◌-◌, true, false, not, ◌||◌, List, [], ◌∷◌, All, ◌≡◌, ◌≢◌, ◌⊎◌, inl, inr, refl, ap, ◌∙◌,
  arith, ◌==◌, Bool-cases,
}
use mhi_for_quectel_modem.Regs.{Log, Device, write_reg, wake_up_all}
use mhi_for_quectel_modem.Ring.{Ring}
use mhi_for_quectel_modem.Pm.State.{
  PmState, por, disable, shutdown_process, tryset_pm_state, reg_access_valid, in_fatal_state,
}
use mhi_for_quectel_modem.Pm.Graph.{tryset_exact}
use mhi_for_quectel_modem.DevState
use mhi_for_quectel_modem.Ee
use mhi_for_quectel_modem.Ctrl.{Ctrl, Event, ok, act, tryset, ring_er_db}
use mhi_for_quectel_modem.Wait.{Wait, Condition, Waiting}
use mhi_for_quectel_modem.Power.{for_each, set_mhi_state}
use mhi_for_quectel_modem.Init.Mmio.{init_mmio, wake_doorbell, context_registers}
use mhi_for_quectel_modem.Transition.{
  Outside, waiting_with, is_ready, ready_event, ready_mmio, ready_state_transition, is_reset,
  reset_ring, reset_events, disable_rings, disable_device, disable_transition, bhi_intvec,
}

-- A ring whose pointers, and those of its context, stand at the start.
abbrev pub IsReset : Ring → Type 0
IsReset r =
    (r.rp ≡ r.base) × (r.wp ≡ r.base) × (r.ctxt_rp ≡ r.ctxt_rbase) × (r.ctxt_wp ≡ r.ctxt_rbase)

-- An event ring that is reset, or that a client manages.
abbrev pub IsResetEvent : Event → Type 0
IsResetEvent e = (e.offload_ev ≡ true) ⊎ IsReset e.ring

shut_down : tryset_pm_state shutdown_process disable ≡ disable
unfolding tryset_pm_state
shut_down = refl

reset_events-All : (es : List Event) → All IsResetEvent (reset_events es)
unfolding reset_events reset_ring
reset_events-All [] = tt
reset_events-All (e ∷ es) = (
  elim (Bool-cases e.offload_ev) [
    | inl off ↦ rw off (inl refl)
    | inr on ↦ rw on (inr (refl, refl, refl, refl))
  ],
  reset_events-All es,
)

module _ (dev : Device) (wait : Wait) (out : Outside) where
  rings-IsReset :
      (c : Ctrl)
      → let c' = disable_rings dev wait out shutdown_process c in
        IsReset c'.cmd_ring × All IsResetEvent c'.events
  unfolding disable_rings reset_ring tryset
  rings-IsReset c = ((refl, refl, refl, refl), reset_events-All _)

  device-IsReset :
      (prev : PmState) (c : Ctrl)
      → let c' = disable_device dev wait out shutdown_process prev c in
        IsReset c'.cmd_ring × All IsResetEvent c'.events
  unfolding disable_device write_reg
  device-IsReset prev c =
      let (s, ret) =
        wait (is_reset dev) (waiting_with (set_mhi_state dev c DevState.reset) 0xFFFF_FFFF 0) in
      let d = record (s.ctrl) { log = write_reg s.ctrl.log (s.ctrl.bhi + bhi_intvec) 0 } in
      elim (Bool-cases (reg_access_valid prev)) [
        | inl e ↦
            rw (e, disable_device)
              (elim (Bool-cases ((ret == 0) || not (s.out0 == 0))) [
                | inl t ↦ rw t (rings-IsReset d)
                | inr t ↦ rw t (rings-IsReset d)
              ])
        | inr e ↦ rw (e, disable_device) (rings-IsReset c)
      ]

  transition-IsReset :
      (c : Ctrl)
      → tryset_pm_state c.pm_state shutdown_process ≡ shutdown_process
      → let c' = disable_transition dev wait out shutdown_process c in
        IsReset c'.cmd_ring × All IsResetEvent c'.events
  unfolding disable_transition tryset
  transition-IsReset c h = rw h (
      device-IsReset c.pm_state (
        act wake_up_all (record c {
          pm_state = shutdown_process;
          ee = Ee.disable_transition;
          dev_state = DevState.reset;
        })))

  module _
      (calm : (cond : Condition) (s : Waiting) → (wait cond s).0.ctrl.pm_state ≡ s.ctrl.pm_state)
      (apart : (c : Ctrl) → (out.destroy_devices c).pm_state ≡ c.pm_state) where
    rings_disabled :
        (c : Ctrl)
        → c.pm_state ≡ shutdown_process
        → (disable_rings dev wait out shutdown_process c).pm_state ≡ disable
    unfolding disable_rings tryset
    rings_disabled c h =
        ap (λ s. tryset_pm_state s disable) (apart (act wake_up_all c) ∙ h) ∙ shut_down

    device_disabled :
        (prev : PmState) (c : Ctrl)
        → c.pm_state ≡ shutdown_process
        → (disable_device dev wait out shutdown_process prev c).pm_state ≡ disable
    unfolding disable_device write_reg set_mhi_state
    device_disabled prev c h =
        let w = waiting_with (set_mhi_state dev c DevState.reset) 0xFFFF_FFFF 0 in
        let s = (wait (is_reset dev) w).0 in
        let d = record (s.ctrl) { log = write_reg s.ctrl.log (s.ctrl.bhi + bhi_intvec) 0 } in
        ground (arith, calm (is_reset dev) w, rings_disabled d, rings_disabled c)

-- A shutdown that the state diagram allows resets the command ring and all event rings but those that
-- clients manage, contexts included; and where neither the other threads during the wait nor the
-- drivers while they are removed move the power state, it ends in DISABLE.
pub disable_transition-shutdown :
    (dev : Device) (wait : Wait) (out : Outside) (c : Ctrl)
    → ((cond : Condition) (s : Waiting) → (wait cond s).0.ctrl.pm_state ≡ s.ctrl.pm_state)
    → ((d : Ctrl) → (out.destroy_devices d).pm_state ≡ d.pm_state)
    → tryset_pm_state c.pm_state shutdown_process ≡ shutdown_process
    → let c' = disable_transition dev wait out shutdown_process c in
      (c'.pm_state ≡ disable) × IsReset c'.cmd_ring × All IsResetEvent c'.events
unfolding disable_transition tryset
disable_transition-shutdown dev wait out c calm apart h =
    let c₁ = act wake_up_all (record c {
      pm_state = shutdown_process;
      ee = Ee.disable_transition;
      dev_state = DevState.reset;
    }) in
    let (cmd, events) = transition-IsReset dev wait out c h in
    (rw h (device_disabled dev wait out calm apart c.pm_state c₁ refl), cmd, events)

-- An event ring that is full of elements for the device to write, or that `mhi_ready_state_transition`
-- passes over.
abbrev pub IsFilled : Event → Type 0
IsFilled e =
    ((e.offload_ev || e.hw_ring) ≡ true) ⊎ (e.ring.wp ≡ e.ring.base + e.ring.len - e.ring.el_size)

for_each-All {κ} :
    {A : Type 0} (P : A → Type κ) (body : Log → A → Log × A)
    → ((log : Log) (a : A) → P (body log a).1)
    → (log : Log) (as' : List A) → All P (for_each body log as').1
unfolding for_each
for_each-All P body one log [] = tt
for_each-All P body one log (a ∷ as') = (one log a, for_each-All P body one (body log a).0 as')

ready_event-IsFilled : (log : Log) (e : Event) → IsFilled (ready_event log e).1
unfolding ready_event ring_er_db
ready_event-IsFilled log e = elim (Bool-cases (e.offload_ev || e.hw_ring)) [
  | inl off ↦ rw (off, ready_event) (inl off)
  | inr on ↦ rw (on, ready_event) (inr refl)
]

init_mmio-keeps :
    (dev : Device) (c : Ctrl)
    → let (c', ret) = init_mmio dev c in
      (c'.pm_state ≡ c.pm_state) × (c'.dev_state ≡ c.dev_state) × ((ret ≡ ok) → c'.wake_set ≡ false)
unfolding init_mmio wake_doorbell context_registers
init_mmio-keeps dev c = ground arith

ready_mmio_parts :
    (dev : Device) (c : Ctrl)
    → (ready_mmio dev c).1 ≡ ok
    → let c₁ = (init_mmio dev c).0 in
      let (log, events) = for_each ready_event c₁.log c₁.events in
      ((init_mmio dev c).1 ≡ ok)
      × ((ready_mmio dev c).0
          ≡ set_mhi_state dev (record c₁ { log = log; events = events }) DevState.m0)
unfolding ready_mmio
ready_mmio_parts dev c h = ground arith

ready_mmio_ok :
    (dev : Device) (c : Ctrl)
    → (ready_mmio dev c).1 ≡ ok
    → let c' = (ready_mmio dev c).0 in
      (c'.pm_state ≡ c.pm_state)
      × (c'.dev_state ≡ c.dev_state)
      × (c'.wake_set ≡ false)
      × All IsFilled c'.events
unfolding set_mhi_state
ready_mmio_ok dev c h =
    let (done, e) = ready_mmio_parts dev c h in
    let (pm, state, cleared) = init_mmio-keeps dev c in
    rw e (pm, state, cleared done, for_each-All IsFilled ready_event ready_event-IsFilled _ _)

ready_parts :
    (dev : Device) (wait : Wait) (c : Ctrl)
    → (ready_state_transition dev wait c).1 ≡ ok
    → let s = (wait (is_ready dev) (waiting_with c 1 0)).0 in
      let c₁ = record (tryset por (s.ctrl)) { dev_state = DevState.ready } in
      (in_fatal_state s.ctrl.pm_state ≡ false)
      × (s.out0 ≡ 0)
      × (s.out1 ≢ 0)
      × (c₁.pm_state ≡ por)
      × ((ready_mmio dev c₁).1 ≡ ok)
      × ((ready_state_transition dev wait c).0 ≡ (ready_mmio dev c₁).0)
unfolding ready_state_transition tryset
ready_parts dev wait c h =
    ground (arith, (tryset_exact (wait (is_ready dev) (waiting_with c 1 0)).0.ctrl.pm_state por).1)

-- When `mhi_ready_state_transition` returns 0, the wait had seen RESET cleared and READY set, the
-- controller is in POR and the device counted as ready, the wake flag is clear, and every software
-- event ring of the driver's own is full of elements for the device.
pub ready_state_transition_ok :
    (dev : Device) (wait : Wait) (c : Ctrl)
    → (ready_state_transition dev wait c).1 ≡ ok
    → let s = (wait (is_ready dev) (waiting_with c 1 0)).0 in
      let c' = (ready_state_transition dev wait c).0 in
      (s.out0 ≡ 0)
      × (s.out1 ≢ 0)
      × (in_fatal_state s.ctrl.pm_state ≡ false)
      × (c'.pm_state ≡ por)
      × (c'.dev_state ≡ DevState.ready)
      × (c'.wake_set ≡ false)
      × All IsFilled c'.events
ready_state_transition_ok dev wait c h =
    let (alive, cleared, set, at, done, e) = ready_parts dev wait c h in
    let (pm, state, wake, full) = ready_mmio_ok dev _ done in
    (cleared, set, alive, rw e (pm ∙ at), rw e state, rw e wake, rw e full)
