-- ===== src/Events/Bounds.antt =====
-- The byte counts that the driver reports to a channel's client.
use mhi_for_quectel_modem.Base.{
  ℕ, ◌+◌, ◌≤◌, false, some, Option-cases, get_or, set, ◌≡◌, ◌⊎◌, inl, inr, arith, ◌∷◌,
}
use mhi_for_quectel_modem.Tre.{Tre, get_ev_cookie, get_ev_len}
use mhi_for_quectel_modem.Ctrl.{Ctrl, Chan, BufInfo}
use mhi_for_quectel_modem.Queue.{Dma, no_buf, queue_client}
use mhi_for_quectel_modem.Complete.{bytes_xferd, parse_xfer_event, reset_data_chan}
use mhi_for_quectel_modem.Complete.Bounds.{
  reports, IsSound, Fits-set, bytes_xferd-le, queue_client-IsSound,
}
use mhi_for_quectel_modem.Complete.Bounds.Loops.{parse_xfer_event-IsSound, reset_data_chan-IsSound}
use mhi_for_quectel_modem.Events.{element_at, parse_rsc_event}

-- What `parse_rsc_event` reports, and which descriptor it changes.
parse_rsc_event_parts :
    (c : Ctrl) (event : Tre) (ch : Chan) (r : Ctrl × Chan)
    → parse_rsc_event c event ch ≡ some r
    → (at : ℕ) × (let buf = get_or ch.bufs at no_buf in
        ((reports r.0.log ≡ reports c.log) × (r.1.bufs ≡ ch.bufs))
        ⊎ ((reports r.0.log ≡ (buf.cb_buf, bytes_xferd (get_ev_len event) buf.len) ∷ reports c.log)
            × (r.1.bufs ≡ set ch.bufs at (record buf { used = false }))))
unfolding parse_rsc_event reports
parse_rsc_event_parts c event ch r h =
    let place = element_at ch.buf_ring (ch.buf_ring.base + get_ev_cookie event) in
    elim (Option-cases place) [
      | inl e ↦ absurd (ground (arith, e, h))
      | inr (at, e) ↦ (at, ground (arith, e, h))
    ]

parse_rsc_event-IsSound :
    (room : ℕ → ℕ) (c : Ctrl) (event : Tre) (ch : Chan) (s : Ctrl × Chan)
    → IsSound room (c, ch)
    → parse_rsc_event c event ch ≡ some s
    → IsSound room s
parse_rsc_event-IsSound room c event ch s v h =
    let (at, parts) = parse_rsc_event_parts c event ch s h in
    let small = v.fits at in
    elim parts [
      | inl (log, bufs) ↦ record { fits = rw bufs v.fits; within = rw log v.within }
      | inr (log, bufs) ↦ record {
        fits = rw bufs (Fits-set room ch.bufs at _ v.fits small);
        within = rw log (
          omega (arith, bytes_xferd-le (get_ev_len event) (get_or ch.bufs at no_buf).len, small),
          v.within,
        );
      }
    ]

-- Let `room` say how many bytes each buffer holds, let no descriptor of a channel claim more than
-- its buffer holds, and let no report to the client have claimed more. Then this stays so through
-- `mhi_queue_skb` and `mhi_queue_dma` of a buffer that holds the length given, successful or not, through every
-- transfer event that `parse_xfer_event` ends on and every event of `parse_rsc_event` whose cookie is
-- the offset of a buffer in the channel's buffer ring, whatever length the device writes into them,
-- and through a channel reset that ends.
pub reports_bounded :
    (room : ℕ → ℕ) (dma : Dma) (c : Ctrl) (ch : Chan)
    → IsSound room (c, ch)
    → ((info : BufInfo) (flags : ℕ)
        → info.len ≤ room info.cb_buf
        → IsSound room ((queue_client dma c ch info flags).0, (queue_client dma c ch info flags).1))
      × ((event : Tre) (s : Ctrl × Chan)
          → parse_xfer_event dma c event ch ≡ some s
          → IsSound room s)
      × ((event : Tre) (s : Ctrl × Chan) → parse_rsc_event c event ch ≡ some s → IsSound room s)
      × ((s : Ctrl × Chan) → reset_data_chan c ch ≡ some s → IsSound room s)
reports_bounded room dma c ch v = (
  λ info flags small. queue_client-IsSound room dma c ch info flags v small,
  λ event s h. parse_xfer_event-IsSound room dma c event ch s v h,
  λ event s h. parse_rsc_event-IsSound room c event ch s v h,
  λ s h. reset_data_chan-IsSound room c ch s v h,
)
