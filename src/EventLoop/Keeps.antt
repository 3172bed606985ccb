-- ===== src/EventLoop/Keeps.antt =====
-- The handler of data events leaves the event rings alone.
use mhi_for_quectel_modem.Base.{
  ℕ, zero, suc, Bool, true, false, some, some-injective, get_elem?, Option-cases, Bool-cases, ◌≡◌,
  inl, inr, refl, sym, ap, ◌∙◌, ◌==◌, if◌then◌else◌, arith,
}
use mhi_for_quectel_modem.Regs.{Status, xfer_cb, unmap_single}
use mhi_for_quectel_modem.Ring.{to_virtual}
use mhi_for_quectel_modem.Tre.{Tre, get_ev_chid, get_ev_ptr, get_ev_code, get_ev_len}
use mhi_for_quectel_modem.Ctrl.{Ctrl, Chan, BufInfo, act, ring_chan_db}
use mhi_for_quectel_modem.Channel.Stop.{assert-events, deassert-events}
use mhi_for_quectel_modem.Wake.{dec, assert_dev_wake, wake_toggle, resume_if_suspended}
use mhi_for_quectel_modem.Queue.{Dma, eot, no_buf, is_to_device, queue_buf, gen_tre, finish_queue}
use mhi_for_quectel_modem.Complete.{
  oldest, bytes_xferd, del_both, status_of, rounds_in, after_tre, recycle, complete_one,
  complete_to, parse_xfer_event,
}
use mhi_for_quectel_modem.Events.{parse_rsc_event}
use mhi_for_quectel_modem.EventLoop.{data_event}
use mhi_for_quectel_modem.EventLoop.Fold.{KeepsRing}

resumed-events : (c : Ctrl) → (resume_if_suspended c).events ≡ c.events
unfolding resume_if_suspended
resumed-events c = ground arith

toggled-events : (c : Ctrl) → (wake_toggle c).events ≡ c.events
unfolding wake_toggle
toggled-events c =
    ground (arith, assert-events c false, deassert-events (assert_dev_wake c false) true)

finish_queue-events : (c : Ctrl) (ch : Chan) → (finish_queue c ch).0.events ≡ c.events
unfolding finish_queue ring_chan_db
finish_queue-events c ch = ground arith

queue_buf-events :
    (dma : Dma) (c : Ctrl) (ch : Chan) (buf len flags : ℕ)
    → (queue_buf dma c ch buf len flags).0.events ≡ c.events
unfolding queue_buf
queue_buf-events dma c ch buf len flags =
    let r = gen_tre dma c.log ch (record no_buf { v_addr = buf; cb_buf = buf; len = len }) flags in
    let c₁ = resume_if_suspended c in
    ground (arith, resumed-events c, toggled-events c₁, finish_queue-events (wake_toggle c₁) r.0)

recycle-events :
    (dma : Dma) (buf : BufInfo) (s : Ctrl × Chan) → (recycle dma buf s).0.events ≡ s.0.events
unfolding recycle
recycle-events dma buf (c, ch) = ground (arith, queue_buf-events dma c ch buf.cb_buf buf.len eot)

complete_one-events :
    (dma : Dma) (status : Status) (ev_tre ev_len : ℕ) (s : Ctrl × Chan)
    → (complete_one dma status ev_tre ev_len s).0.events ≡ s.0.events
unfolding complete_one
complete_one-events dma status ev_tre ev_len (c, ch) =
    let buf = oldest ch in
    let xfer_len = if ch.tre_ring.rp == ev_tre then ev_len else buf.len in
    let c₀ = if buf.pre_mapped then c else act (unmap_single buf.p_addr) c in
    let c₁ = act (xfer_cb ch.chan buf.cb_buf (bytes_xferd xfer_len buf.len) status) c₀ in
    let c₂ = if is_to_device ch.dir then record c₁ { pending_pkts = dec c₁.pending_pkts } else c₁ in
    recycle-events dma buf (c₂, del_both ch) ∙ ground arith

complete_to-events :
    (fuel : ℕ) (dma : Dma) (status : Status) (ev_tre ev_len dev_rp : ℕ) (s s' : Ctrl × Chan)
    → complete_to fuel dma status ev_tre ev_len dev_rp s ≡ some s'
    → s'.0.events ≡ s.0.events
unfolding complete_to
complete_to-events zero dma status ev_tre ev_len dev_rp s s' h = absurd (ground (arith, h))
complete_to-events (suc fuel) dma status ev_tre ev_len dev_rp s s' h =
    elim (Bool-cases (s.1.tre_ring.rp == dev_rp)) [
      | inl e ↦
          ap (λ (t : Ctrl × Chan). t.0.events) (sym (some-injective s s' (ground (arith, e, h))))
      | inr e ↦
          complete_to-events fuel dma status ev_tre ev_len dev_rp
            (complete_one dma status ev_tre ev_len s) s' (ground (arith, e, h))
          ∙ complete_one-events dma status ev_tre ev_len s
    ]

pub parse_xfer_event-events :
    (dma : Dma) (c : Ctrl) (event : Tre) (ch : Chan) (s : Ctrl × Chan)
    → parse_xfer_event dma c event ch ≡ some s
    → s.0.events ≡ c.events
unfolding parse_xfer_event ring_chan_db
parse_xfer_event-events dma c event ch s h =
    let ev_tre = to_virtual ch.tre_ring (get_ev_ptr event) in
    ground (
      arith,
      h,
      complete_to-events (rounds_in ch.tre_ring) dma (status_of (get_ev_code event)) ev_tre
          (get_ev_len event) (after_tre ch.tre_ring ev_tre) (c, ch) s,
    )

parse_rsc_event-events :
    (c : Ctrl) (event : Tre) (ch : Chan) (s : Ctrl × Chan)
    → parse_rsc_event c event ch ≡ some s
    → s.0.events ≡ c.events
unfolding parse_rsc_event
parse_rsc_event-events c event ch s h = ground (arith, h)

-- What a data event does, whatever the device writes, leaves all event rings as they are.
data_event-events :
    (dma : Dma) (c c' : Ctrl) (event : Tre) (counts : Bool)
    → data_event dma c event ≡ some (c', counts)
    → c'.events ≡ c.events
unfolding data_event
data_event-events dma c c' event counts h =
    elim (Option-cases (get_elem? c.chans (get_ev_chid event))) [
      | inl e ↦ ground (arith, h, e)
      | inr (ch, e) ↦ elim (Option-cases (parse_xfer_event dma c event ch)) [
        | inl x ↦ elim (Option-cases (parse_rsc_event c event ch)) [
          | inl y ↦ ground (arith, h, e, x, y)
          | inr (t, y) ↦ ground (arith, h, e, x, y, parse_rsc_event-events c event ch t y)
        ]
        | inr (s, x) ↦ elim (Option-cases (parse_rsc_event c event ch)) [
          | inl y ↦ ground (arith, h, e, x, y, parse_xfer_event-events dma c event ch s x)
          | inr (t, y) ↦ ground (
            arith,
            h,
            e,
            x,
            y,
            parse_xfer_event-events dma c event ch s x,
            parse_rsc_event-events c event ch t y,
          )
        ]
      ]
    ]

-- So the handler of data events fits every event ring.
pub data_event-KeepsRing : (dma : Dma) (at : ℕ) (hw : Bool) → KeepsRing (data_event dma) at hw
data_event-KeepsRing dma at hw c c' event counts e h there kind = (
  e,
  (ap (λ l. get_elem? l at) (data_event-events dma c c' event counts h) ∙ there, refl, refl, refl),
)
