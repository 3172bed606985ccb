-- ===== src/Events/Results.antt =====
-- What the control events do to power states, commands and buffers.
use mhi_for_quectel_modem.Base.{
  ℕ, ◌+◌, ◌-◌, ◌%◌, ◌*◌, ◌^◌, ◌<◌, ◌≤◌, Bool, true, false, some, get_elem?, get_or, set, length,
  ◌∷◌, ◌≡◌, ◌≢◌, ◌⊎◌, inl, inr, refl, sym, ap, ◌∙◌, arith, get_elem?-set_self, get_elem?-set_ne,
  get_or-set_self, get_or-set_ne,
}
use native.Mathlib.Nat.{mul-mod_left}
use mhi_for_quectel_modem.Regs.{Device, xfer_cb}
use mhi_for_quectel_modem.Tre.{
  Tre, get_cmd_chid, get_ev_ptr, get_ev_code, get_ev_len, get_ev_cookie, get_ev_type, get_ev_state,
  get_ev_execenv, tx_event,
}
use mhi_for_quectel_modem.Ring.{Ring, to_virtual, to_device, del_ring_element}
use mhi_for_quectel_modem.Ring.Slots.{
  gap, IsAt, PointsTo, IsMapped, next, del_ring_element-IsAt, to_virtual-to_device,
}
use mhi_for_quectel_modem.Pm.State.{PmState, m0, m2, m3, sys_err_detect, tryset_pm_state}
use mhi_for_quectel_modem.Pm.Graph.{◌⟶◌, tryset_exact}
use mhi_for_quectel_modem.DevState
use mhi_for_quectel_modem.Ctrl.{Ctrl, Chan, BufInfo, DevTransition, enabled, act, tryset}
use mhi_for_quectel_modem.Power.Moves.{m0_transition_lem, m1_transition_lem}
use mhi_for_quectel_modem.Power.{m0_transition, m1_transition, m3_transition}
use mhi_for_quectel_modem.Queue.{Dma, no_buf, no_tre}
use mhi_for_quectel_modem.Queue.Place.{slot-PointsTo}
use mhi_for_quectel_modem.Complete.{status_of, bytes_xferd}
use mhi_for_quectel_modem.Complete.Order.{ReadsAt, ReadsAt-del}
use mhi_for_quectel_modem.Complete.Event.{callbacks}
use mhi_for_quectel_modem.Events.{
  element_at, queue_state_transition, sys_err_handler, process_cmd_completion, parse_rsc_event,
  state_event, ee_change, ctrl_event,
}

offset : (r : Ring) (k p : ℕ) → PointsTo r p k → p - r.base ≡ k * r.el_size
offset r k p e = omega (arith, e)

-- The element of a slot is found.
element_at-PointsTo :
    (r : Ring) (n k p : ℕ)
    → 0 < r.el_size
    → r.len ≡ n * r.el_size
    → k < n
    → PointsTo r p k
    → element_at r p ≡ some k
unfolding element_at
element_at-PointsTo r n k p sized measured small e =
    let whole : (p - r.base) % r.el_size ≡ 0 =
      ap (λ t. t % r.el_size) (offset r k p e) ∙ mul-mod_left k r.el_size in
    let inside : p < r.base + r.len = omega (arith, e, measured, sized, gap k n r.el_size small) in
    let after : r.base ≤ p = omega (arith, e) in
    ground (arith, whole, inside, after, slot-PointsTo r p k sized e)

-- The power state stays, or moves along one edge of the diagram.
abbrev pub Moves : PmState → PmState → Type 0
Moves s t = (t ≡ s) ⊎ (s ⟶ t)

tryset-Moves : (s t : PmState) → tryset_pm_state s t ≡ t → Moves s t
tryset-Moves s t h = elim ((tryset_exact s t).0.0 h) [ inl e ↦ inr e | inr e ↦ inl (sym e) ]

queue-same :
    (allocated : Bool) (c : Ctrl) (st : DevTransition)
    → (queue_state_transition allocated c st).0.pm_state ≡ c.pm_state
unfolding queue_state_transition
queue-same allocated c st = ground arith

sys_err-same : (allocated : Bool) (c : Ctrl) → (sys_err_handler allocated c).pm_state ≡ c.pm_state
unfolding sys_err_handler queue_state_transition
sys_err-same allocated c = ground arith

m0-Moves : (c : Ctrl) → c.dev_wake + 1 < 2 ^ 32 → Moves c.pm_state (m0_transition c).0.pm_state
m0-Moves c h = elim ((m0_transition_lem c h).3) [
  | inl (_, granted, at) ↦ rw at (tryset-Moves c.pm_state m0 granted)
  | inr (_, _, same) ↦ inl same
]

m1-Moves :
    (dev : Device) (c : Ctrl)
    → c.dev_wake + 1 < 2 ^ 32
    → Moves c.pm_state (m1_transition dev c).pm_state
m1-Moves dev c h = elim (m1_transition_lem dev c h) [
  | inl (_, same) ↦ inl (ap (λ (d : Ctrl). d.pm_state) same)
  | inr (granted, at, _, _, _) ↦ rw at (tryset-Moves c.pm_state m2 granted)
]

tried-Moves : (c : Ctrl) (t : PmState) → Moves c.pm_state (tryset t c).pm_state
unfolding tryset
tried-Moves c t = elim ((tryset_exact c.pm_state t).1) [
  | inl e ↦ rw e (tryset-Moves c.pm_state t e)
  | inr e ↦ inl e
]

m3-Moves : (c : Ctrl) → Moves c.pm_state (m3_transition c).0.pm_state
unfolding m3_transition
m3-Moves c = ground (arith, tried-Moves (record c { dev_state = DevState.m3 }) m3)

state_event-Moves :
    (allocated : Bool) (dev : Device) (c : Ctrl) (new_state : ℕ)
    → c.dev_wake + 1 < 2 ^ 32
    → Moves c.pm_state (state_event allocated dev c new_state).pm_state
unfolding state_event
state_event-Moves allocated dev c new_state h = ground (
  arith,
  m0-Moves c h,
  m1-Moves dev c h,
  m3-Moves c,
  tried-Moves c sys_err_detect,
  sys_err-same allocated (tryset sys_err_detect c),
)

ee_change-same :
    (allocated : Bool) (c : Ctrl) (event : ℕ) → (ee_change allocated c event).pm_state ≡ c.pm_state
unfolding ee_change queue_state_transition
ee_change-same allocated c event = ground arith

completion-same :
    (c c' : Ctrl) (event : Tre)
    → process_cmd_completion c event ≡ some c'
    → c'.pm_state ≡ c.pm_state
unfolding process_cmd_completion
completion-same c c' event h = ground arith

-- Where one more reference does not overflow the wake count, a control event that is no transfer
-- event and, if it is the completion of a command, points to an element of the command ring and names
-- a channel that exists, leaves the power state as it was or moves it along one edge of the state
-- diagram.
pub ctrl_event-Moves :
    (allocated : Bool) (dev : Device) (dma : Dma) (c c' : Ctrl) (event : Tre)
    → c.dev_wake + 1 < 2 ^ 32
    → get_ev_type event ≢ tx_event
    → ctrl_event allocated dev dma c event ≡ some c'
    → Moves c.pm_state c'.pm_state
unfolding ctrl_event
ctrl_event-Moves allocated dev dma c c' event h other e = ground (
  arith,
  state_event-Moves allocated dev c (get_ev_state event) h,
  ee_change-same allocated c (get_ev_execenv event),
  completion-same c c' event,
)

-- For a command ring that lies within the 64-bit address spaces, the completion of the command in
-- slot `k`, for a channel that exists, records the event's code in that channel and completes its
-- wait, leaves every other channel as it was, and frees the oldest element of the command ring.
pub process_cmd_completion_lem :
    (c : Ctrl) (tre : Tre) (n i j k p chan : ℕ) (ch : Chan)
    → IsAt c.cmd_ring n i j
    → IsMapped c.cmd_ring
    → c.cmd_ring.base + c.cmd_ring.len < 2 ^ 64
    → k < n
    → PointsTo c.cmd_ring p k
    → get_ev_ptr tre ≡ to_device c.cmd_ring p
    → get_cmd_chid (get_or c.cmd_tres k no_tre) ≡ chan
    → chan < length c.chans
    → get_elem? c.chans chan ≡ some ch
    → (c' : Ctrl) × (process_cmd_completion c tre ≡ some c')
      × (get_elem? c'.chans chan ≡ some (record ch { ccs = get_ev_code tre; completed = true }))
      × ((m : ℕ) → chan ≢ m → get_elem? c'.chans m ≡ get_elem? c.chans m)
      × IsAt c'.cmd_ring n (next n i) j
unfolding process_cmd_completion
process_cmd_completion_lem c tre n i j k p chan ch v mapped low hk hp ptr names small at =
    let ch' = record ch { ccs = get_ev_code tre; completed = true } in
    (
      record c { chans = set c.chans chan ch'; cmd_ring = del_ring_element c.cmd_ring },
      rw (← names) runs,
      get_elem?-set_self c.chans chan ch' small,
      λ m ne. get_elem?-set_ne c.chans ch' ne,
      del_ring_element-IsAt v,
    )
  where
    found : element_at c.cmd_ring (to_virtual c.cmd_ring (get_ev_ptr tre)) ≡ some k
    found =
        ap (λ a. element_at c.cmd_ring (to_virtual c.cmd_ring a)) ptr
        ∙ ap (element_at c.cmd_ring)
            (to_virtual-to_device c.cmd_ring n k p v.measured hk hp mapped low)
        ∙ element_at-PointsTo c.cmd_ring n k p v.sized v.measured hk hp

    runs :
        process_cmd_completion c tre
        ≡ some (record c {
          chans =
              set c.chans
                (get_cmd_chid (get_or c.cmd_tres k no_tre))
                (record ch { ccs = get_ev_code tre; completed = true });
          cmd_ring = del_ring_element c.cmd_ring;
        })
    runs = ground (arith, found, names, at)

-- On an enabled channel, with a cookie that is the byte offset of slot `k` of the buffer ring,
-- `parse_rsc_event` gives the client the buffer of that slot, marks it unused, leaves the other
-- buffers as they were, and frees the oldest element of the transfer ring.
pub parse_rsc_event_lem :
    (c : Ctrl) (event : Tre) (ch : Chan) (n i m k : ℕ)
    → ch.ch_state ≡ enabled
    → ReadsAt ch.tre_ring n i
    → 0 < ch.buf_ring.el_size
    → get_ev_cookie event ≡ k * ch.buf_ring.el_size
    → ch.buf_ring.len ≡ m * ch.buf_ring.el_size
    → k < m
    → k < length ch.bufs
    → (c' : Ctrl) × ((ch' : Chan) × ((parse_rsc_event c event ch ≡ some (c', ch'))
          × (callbacks c'.log ≡ (get_or ch.bufs k no_buf).cb_buf ∷ callbacks c.log)
          × ((get_or ch'.bufs k no_buf).used ≡ false)
          × ((l : ℕ) → k ≢ l → get_or ch'.bufs l no_buf ≡ get_or ch.bufs l no_buf)
          × ReadsAt ch'.tre_ring n (next n i)))
unfolding parse_rsc_event callbacks
parse_rsc_event_lem c event ch n i m k on v sized cookie measured inside small =
    let at : element_at ch.buf_ring (ch.buf_ring.base + get_ev_cookie event) ≡ some k =
      element_at-PointsTo ch.buf_ring m k (ch.buf_ring.base + get_ev_cookie event) sized measured
        inside (ap (λ t. ch.buf_ring.base + t) cookie) in
    let buf = get_or ch.bufs k no_buf in
    (
      act
          (xfer_cb ch.chan buf.cb_buf (bytes_xferd (get_ev_len event) buf.len)
            (status_of (get_ev_code event)))
          c,
      (
        record ch {
          tre_ring = del_ring_element ch.tre_ring;
          bufs = set ch.bufs k (record buf { used = false });
        },
        (
          ground (arith, at, on),
          refl,
          ap (λ (b : BufInfo). b.used)
              (get_or-set_self ch.bufs k (record (get_or ch.bufs k no_buf) { used = false }) no_buf
                small),
          λ l ne.
              get_or-set_ne ch.bufs (record (get_or ch.bufs k no_buf) { used = false }) no_buf ne,
          ReadsAt-del v,
        ),
      ),
    )
