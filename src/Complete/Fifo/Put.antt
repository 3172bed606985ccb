-- ===== src/Complete/Fifo/Put.antt =====
-- What `mhi_queue_skb` and `mhi_queue_dma` do to the queue of a channel's buffers.
use mhi_for_quectel_modem.Base.{
  ℕ, suc, List, ◌∷◌, get_or, set, get_or-set_ne, length-set, ◌≡◌, ◌⊎◌, inl, inr, refl, sym, ap, ◌∙◌,
  arith,
}
use mhi_for_quectel_modem.Ring.Slots.{next}
use mhi_for_quectel_modem.Ring.Space.{used}
use mhi_for_quectel_modem.Regs.{Log}
use mhi_for_quectel_modem.Ctrl.{Ctrl, Chan, BufInfo, Errno, ok, err, ring_chan_db}
use mhi_for_quectel_modem.Wake.{wake_toggle, resume_if_suspended}
use mhi_for_quectel_modem.Queue.{
  Dma, no_buf, slot, described, map_single, gen_tre, finish_queue, queue_client,
}
use mhi_for_quectel_modem.Queue.Place.{gen_tre-IsQueue, buf_has_room, slot-PointsTo}
use mhi_for_quectel_modem.Queue.Visible.{
  finish_queue_shape, queue_client_parts, queue_client_ok, room_of,
}
use mhi_for_quectel_modem.Complete.Event.{callbacks, deliver}
use mhi_for_quectel_modem.Complete.Fifo.{
  FifoAt, callbacks-wake, callbacks-finish, deliver-same, deliver-put,
}

gen_tre-side :
    (dma : Dma) (log : Log) (ch : Chan) (info : BufInfo) (flags : ℕ)
    → (gen_tre dma log ch info flags).0.pre_alloc ≡ ch.pre_alloc
unfolding gen_tre
gen_tre-side dma log ch info flags = ground arith

finish_queue-side : (c : Ctrl) (ch : Chan) → (finish_queue c ch).1.pre_alloc ≡ ch.pre_alloc
unfolding finish_queue ring_chan_db
finish_queue-side c ch = ground arith

-- A success puts the client's buffer at the end.
pub queue_client-FifoAt :
    (dma : Dma) (c : Ctrl) (ch : Chan) (info : BufInfo) (flags n i j n' i' j' : ℕ)
    (history : List ℕ)
    → FifoAt n i j n' i' j' (c, ch) history
    → (queue_client dma c ch info flags).2 ≡ ok
    → let r = queue_client dma c ch info flags in
      FifoAt n i (next n j) n' i' (next n' j') (r.0, r.1) (info.cb_buf ∷ history)
queue_client-FifoAt dma c ch info flags n i j n' i' j' history v h =
    let c₁ = wake_toggle (resume_if_suspended c) in
    let ch₁ = (gen_tre dma c₁.log ch info flags).0 in
    let q = v.queue in
    let (free, made, ec, ech) = queue_client_parts dma c ch info flags h in
    let room = room_of q.tre free in
    let (_, _, cb, _, _, same) =
      gen_tre-IsQueue ch n i j n' i' j' dma c₁.log info flags q room made in
    let (queued, _, _, _, _) = queue_client_ok dma c ch info flags n i j n' i' j' q h in
    let (_, _, bs, _) = finish_queue_shape c₁ ch₁ in
    let more : used n' i' (next n' j') ≡ suc (used n' i' j') =
      ground (arith, buf_has_room q room, q.buf.rp_in, q.buf.wp_in) in
    record {
      queue = queued;
      own = rw ech (finish_queue-side c₁ ch₁ ∙ gen_tre-side dma c₁.log ch info flags ∙ v.own);
      all =
          rw (ec, ech, bs, more, callbacks-finish c₁ ch₁, callbacks-wake c)
            (deliver-put ch.bufs ch₁.bufs n' j' same (used n' i' j') i' (callbacks c.log)
                q.buf.rp_in q.buf.wp_in refl
              ∙ ap (λ b. b ∷ deliver ch.bufs n' i' (used n' i' j') (callbacks c.log)) cb
              ∙ ap (λ l. info.cb_buf ∷ l) v.all);
    }

-- What a failure leaves of the channel.
queue_client_failed :
    (dma : Dma) (c : Ctrl) (ch : Chan) (info : BufInfo) (flags : ℕ) (e : Errno)
    → (queue_client dma c ch info flags).2 ≡ err e
    → let r = queue_client dma c ch info flags in
      let c₁ = wake_toggle (resume_if_suspended c) in
      let at = slot ch.buf_ring ch.buf_ring.wp in
      (callbacks r.0.log ≡ callbacks c.log)
      × ((r.1 ≡ ch)
          ⊎ (r.1 ≡ record ch {
            bufs =
                set ch.bufs at
                  (map_single dma c₁.log (described ch (get_or ch.bufs at no_buf) info)).0;
          }))
unfolding queue_client gen_tre
queue_client_failed dma c ch info flags e h = (ground (arith, callbacks-wake c), ground arith)

-- A failure leaves it as it is.
pub queue_client_failed-FifoAt :
    (dma : Dma) (c : Ctrl) (ch : Chan) (info : BufInfo) (flags n i j n' i' j' : ℕ)
    (history : List ℕ) (e : Errno)
    → FifoAt n i j n' i' j' (c, ch) history
    → (queue_client dma c ch info flags).2 ≡ err e
    → let r = queue_client dma c ch info flags in FifoAt n i j n' i' j' (r.0, r.1) history
queue_client_failed-FifoAt dma c ch info flags n i j n' i' j' history e v h =
    let (log, left) = queue_client_failed dma c ch info flags e h in
    let q = v.queue in
    elim left [
      | inl same ↦ record { queue = rw same q; own = rw same v.own; all = rw (same, log) v.all }
      | inr put ↦ record {
        queue = rw put (record {
          tre = q.tre;
          buf = q.buf;
          tre_room = q.tre_room;
          buf_room = length-set ch.bufs _ _ ∙ q.buf_room;
          larger = q.larger;
          level = q.level;
        });
        own = rw put v.own;
        all =
            rw (put, log)
              (deliver-same ch.bufs _ n' j'
                  (λ x ne. get_or-set_ne ch.bufs _ no_buf (λ e.
                    ne (
                      sym e
                      ∙ slot-PointsTo ch.buf_ring ch.buf_ring.wp j' q.buf.sized q.buf.writes)))
                  (used n' i' j') i' (callbacks c.log) q.buf.rp_in q.buf.wp_in refl
                ∙ v.all);
      }
    ]
