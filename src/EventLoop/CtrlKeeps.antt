-- ===== src/EventLoop/CtrlKeeps.antt =====
-- The handler of control events leaves an event ring that is none of the hardware's alone, but for its
-- doorbell mode: a change to M0 rings its doorbell.
use mhi_for_quectel_modem.Base.{
  ℕ, zero, suc, ◌+◌, Bool, true, false, List, some, get_elem?, Option-cases, ◌≡◌, ◌⊎◌, inl, inr,
  refl, sym, ap, ◌∙◌, if◌then◌else◌, arith, [], ◌∷◌,
}
use mathlib.Core.Path.{subst}
use mhi_for_quectel_modem.Base.Word.{u32}
use mhi_for_quectel_modem.Regs.{Log, Device, wake_up_all}
use mhi_for_quectel_modem.DevState
use mhi_for_quectel_modem.Ee
use mhi_for_quectel_modem.Tre.{Tre, get_ev_state, get_ev_execenv, get_ev_chid}
use mhi_for_quectel_modem.Pm.State.{m0, m2, sys_err_detect}
use mhi_for_quectel_modem.Ctrl.{Ctrl, Event, act, tryset, ring_er_db}
use mhi_for_quectel_modem.Wake.{assert_dev_wake}
use mhi_for_quectel_modem.Power.{
  for_each, m0_event, m0_mission_mode, m0_channels, m0_transition, m1_transition, m3_transition,
  set_mhi_state,
}
use mhi_for_quectel_modem.Queue.{Dma}
use mhi_for_quectel_modem.Complete.{parse_xfer_event}
use mhi_for_quectel_modem.Channel.Stop.{assert-events, deassert-events}
use mhi_for_quectel_modem.Events.{
  queue_state_transition, sys_err_handler, process_cmd_completion, state_event, ee_change,
  tx_change, ctrl_event,
}
use mhi_for_quectel_modem.EventLoop.{ctrl_ring_event}
use mhi_for_quectel_modem.EventLoop.Fold.{KeepsRing}
use mhi_for_quectel_modem.EventLoop.Keeps.{parse_xfer_event-events}

-- The event ring with a number has the same ring, elements and kind after as before.
abbrev SameRing : ℕ → Event → List Event → Type 0
SameRing at e es =
    (e' : Event) × ((get_elem? es at ≡ some e')
      × (e'.ring ≡ e.ring)
      × (e'.tres ≡ e.tres)
      × (e'.hw_ring ≡ e.hw_ring))

same_list :
    (at : ℕ) (e : Event) (es es' : List Event)
    → es' ≡ es
    → get_elem? es at ≡ some e
    → SameRing at e es'
same_list at e es es' h there = (e, (ap (λ l. get_elem? l at) h ∙ there, refl, refl, refl))

m0_event-same :
    (log : Log) (e : Event)
    → e.hw_ring ≡ false
    → let e' = (m0_event log e).1 in
      (e'.ring ≡ e.ring) × (e'.tres ≡ e.tres) × (e'.hw_ring ≡ e.hw_ring)
unfolding m0_event ring_er_db
m0_event-same log e soft = ground (arith, soft)

m0_events-same :
    (log : Log) (es : List Event) (at : ℕ) (e : Event)
    → e.hw_ring ≡ false
    → get_elem? es at ≡ some e
    → SameRing at e (for_each m0_event log es).1
unfolding for_each
m0_events-same log [] at e soft h = absurd (ground (arith, h))
m0_events-same log (x ∷ xs) zero e soft h =
    let same : x ≡ e = ground (arith, h) in
    let soft' : x.hw_ring ≡ false = ap (λ (d : Event). d.hw_ring) same ∙ soft in
    let (ring, tres, kind) = m0_event-same log x soft' in
    subst (λ d. SameRing zero d (for_each m0_event log (x ∷ xs)).1) same
      ((m0_event log x).1, (refl, ring, tres, kind))
m0_events-same log (x ∷ xs) (suc at) e soft h =
    m0_events-same (m0_event log x).0 xs at e soft (ground (arith, h))

mission-same :
    (c : Ctrl) (at : ℕ) (e : Event)
    → e.hw_ring ≡ false
    → get_elem? c.events at ≡ some e
    → SameRing at e (m0_mission_mode c).events
unfolding m0_mission_mode
mission-same c at e soft h = m0_events-same c.log c.events at e soft h

channels-events : (c : Ctrl) → (m0_channels c).events ≡ c.events
unfolding m0_channels
channels-events c = refl

m0_parts :
    (c : Ctrl)
    → let c₁ = tryset m0 (record c { dev_state = DevState.m0 }) in
      let c₂ = assert_dev_wake (record c₁ { count_m0 = u32 (c₁.count_m0 + 1) }) true in
      ((m0_transition c).0.events ≡ c.events)
      ⊎ (((m0_transition c).0.events ≡ c₂.events)
          ⊎ ((m0_transition c).0.events ≡ (m0_mission_mode c₂).events))
unfolding m0_transition tryset
m0_parts c =
    let c₁ = tryset m0 (record c { dev_state = DevState.m0 }) in
    let c₂ = assert_dev_wake (record c₁ { count_m0 = u32 (c₁.count_m0 + 1) }) true in
    let c₃ = if Ee.in_mission_mode c₂.ee then m0_mission_mode c₂ else c₂ in
    ground (arith, channels-events c₃, deassert-events (m0_channels c₃) false)

m0-same :
    (c : Ctrl) (at : ℕ) (e : Event)
    → e.hw_ring ≡ false
    → get_elem? c.events at ≡ some e
    → SameRing at e (m0_transition c).0.events
unfolding tryset
m0-same c at e soft h =
    let c₁ = tryset m0 (record c { dev_state = DevState.m0 }) in
    let c₀ = record c₁ { count_m0 = u32 (c₁.count_m0 + 1) } in
    let c₂ = assert_dev_wake c₀ true in
    let woken = assert-events c₀ true in
    elim (m0_parts c) [
      | inl s ↦ same_list at e c.events _ s h
      | inr (inl s) ↦ same_list at e c.events _ (s ∙ woken) h
      | inr (inr s) ↦
          subst (SameRing at e) (sym s)
            (mission-same c₂ at e soft (ap (λ l. get_elem? l at) woken ∙ h))
    ]

m1-events : (dev : Device) (c : Ctrl) → (m1_transition dev c).events ≡ c.events
unfolding m1_transition set_mhi_state tryset
m1-events dev c =
    let c₁ = tryset m2 c in
    let c₂ = set_mhi_state dev c₁ DevState.m2 in
    let c₃ =
      act wake_up_all (record c₂ { dev_state = DevState.m2; count_m2 = u32 (c₂.count_m2 + 1) }) in
    ground (arith, assert-events c₃ true, deassert-events (assert_dev_wake c₃ true) true)

m3-events : (c : Ctrl) → (m3_transition c).0.events ≡ c.events
unfolding m3_transition tryset
m3-events c = ground arith

sys_err-events : (allocated : Bool) (c : Ctrl) → (sys_err_handler allocated c).events ≡ c.events
unfolding sys_err_handler queue_state_transition
sys_err-events allocated c = ground arith

state_event_parts :
    (allocated : Bool) (dev : Device) (c : Ctrl) (new_state : ℕ)
    → (state_event allocated dev c new_state ≡ (m0_transition c).0)
      ⊎ ((state_event allocated dev c new_state).events ≡ c.events)
unfolding state_event tryset
state_event_parts allocated dev c new_state =
    ground (arith, m1-events dev c, m3-events c, sys_err-events allocated (tryset sys_err_detect c))

ee_change-events :
    (allocated : Bool) (c : Ctrl) (event : ℕ) → (ee_change allocated c event).events ≡ c.events
unfolding ee_change queue_state_transition
ee_change-events allocated c event = ground arith

completion-events :
    (c c' : Ctrl) (event : Tre) → process_cmd_completion c event ≡ some c' → c'.events ≡ c.events
unfolding process_cmd_completion
completion-events c c' event h = ground (arith, h)

tx_change-events :
    (dma : Dma) (c c' : Ctrl) (event : Tre) → tx_change dma c event ≡ some c' → c'.events ≡ c.events
unfolding tx_change
tx_change-events dma c c' event h = elim (Option-cases (get_elem? c.chans (get_ev_chid event))) [
  | inl e ↦ ground (arith, h, e)
  | inr (ch, e) ↦ elim (Option-cases (parse_xfer_event dma c event ch)) [
    | inl x ↦ absurd (ground (arith, h, e, x))
    | inr (s, x) ↦ ground (arith, h, e, x, parse_xfer_event-events dma c event ch s x)
  ]
]

ctrl_event_parts :
    (allocated : Bool) (dev : Device) (dma : Dma) (c c' : Ctrl) (event : Tre)
    → ctrl_event allocated dev dma c event ≡ some c'
    → (c' ≡ (m0_transition c).0) ⊎ (c'.events ≡ c.events)
unfolding ctrl_event
ctrl_event_parts allocated dev dma c c' event h = ground (
  arith,
  h,
  state_event_parts allocated dev c (get_ev_state event),
  ee_change-events allocated c (get_ev_execenv event),
  completion-events c c' event,
  tx_change-events dma c c' event,
)

-- So it fits every event ring that is none of the hardware's.
pub ctrl_ring_event-KeepsRing :
    (allocated : Bool) (dev : Device) (dma : Dma) (at : ℕ)
    → KeepsRing (ctrl_ring_event allocated dev dma) at false
unfolding ctrl_ring_event
ctrl_ring_event-KeepsRing allocated dev dma at c c' event counts e h there soft =
    let runs : ctrl_event allocated dev dma c event ≡ some c' = ground (arith, h) in
    elim (ctrl_event_parts allocated dev dma c c' event runs) [
      | inl s ↦ subst (λ (d : Ctrl). SameRing at e d.events) (sym s) (m0-same c at e soft there)
      | inr s ↦ same_list at e c.events c'.events s there
    ]
