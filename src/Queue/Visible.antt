-- ===== src/Queue/Visible.antt =====
-- The results of the queueing functions, and what the device sees of a queued transfer.
use mhi_for_quectel_modem.Base.{
  ℕ, ◌+◌, ◌-◌, ◌^◌, ◌≤◌, ◌<◌, Bool, true, false, Option, none, some, List, length, get_or, set,
  get_or-set_self, ◌≡◌, ◌≢◌, ◌⊎◌, inl, inr, ap, ◌∙◌, arith, if◌then◌else◌,
}
use mhi_for_quectel_modem.Regs.{Log}
use mhi_for_quectel_modem.Tre.{Tre, Cmd, get_cmd_chid, get_cmd_type, cmd_code, cmd_tre}
use mhi_for_quectel_modem.Tre.Coding.{cmd_tre_fields}
use mhi_for_quectel_modem.Ring.{
  Ring, is_ring_full, to_device, add_ring_element, get_nr_avail_ring_elements,
}
use mhi_for_quectel_modem.Ring.Slots.{IsAt, next, add_ring_element-IsAt}
use mhi_for_quectel_modem.Ring.Space.{used, full-eq, nr_avail-eq}
use mhi_for_quectel_modem.Pm.State.{in_error_state}
use mhi_for_quectel_modem.Ctrl.{
  Ctrl, Chan, BufInfo, Errno, ok, err, eio, einval, enomem, db_access_valid, ring_chan_db,
  ring_cmd_db,
}
use mhi_for_quectel_modem.Wake.{
  assert_dev_wake, deassert_dev_wake, wake_toggle, resume_if_suspended, inc,
}
use mhi_for_quectel_modem.Queue.{
  Dma, no_buf, no_tre, is_to_device, data_tre, gen_tre, finish_queue, queue_client, send_cmd, slot,
}
use mhi_for_quectel_modem.Queue.Place.{IsQueue, gen_tre-IsQueue, slot-PointsTo}

-- Rings with the same memory and pointers; the context may differ.
abbrev pub SameShape : Ring → Ring → Type 0
SameShape r r' =
    (r'.base ≡ r.base)
    × (r'.el_size ≡ r.el_size)
    × (r'.len ≡ r.len)
    × (r'.rp ≡ r.rp)
    × (r'.wp ≡ r.wp)

pub IsAt-SameShape : {r r' : Ring} {n i j : ℕ} → IsAt r n i j → SameShape r r' → IsAt r' n i j
IsAt-SameShape v (b, e, l, rp, wp) = record {
  sized = rw e v.sized;
  measured = rw (l, e) v.measured;
  reads = rw (rp, b, e) v.reads;
  writes = rw (wp, b, e) v.writes;
  rp_in = v.rp_in;
  wp_in = v.wp_in;
}

pub finish_queue_shape :
    (c : Ctrl) (ch : Chan)
    → let ch' = (finish_queue c ch).1 in
      SameShape ch.tre_ring ch'.tre_ring
      × (ch'.buf_ring ≡ ch.buf_ring)
      × (ch'.bufs ≡ ch.bufs)
      × (ch'.tres ≡ ch.tres)
unfolding finish_queue ring_chan_db
finish_queue_shape c ch = ground arith

finish_queue_effects :
    (c : Ctrl) (ch : Chan)
    → let (c', ch') = finish_queue c ch in
      ((db_access_valid c ≡ false)
        ⊎ (ch'.tre_ring.ctxt_wp ≡ to_device ch'.tre_ring ch'.tre_ring.wp))
      × (c'.pending_pkts ≡ (if is_to_device ch.dir then inc c.pending_pkts else c.pending_pkts))
      × (c'.pm_state ≡ c.pm_state)
unfolding finish_queue ring_chan_db to_device
finish_queue_effects c ch = ground arith

-- What the wake-up before a queueing leaves alone.
record Kept (c c' : Ctrl) : Type 0 where
  pm : c'.pm_state ≡ c.pm_state
  access : c'.db_access ≡ c.db_access
  pending : c'.pending_pkts ≡ c.pending_pkts

Kept-assert : (c : Ctrl) (force : Bool) → Kept c (assert_dev_wake c force)
unfolding assert_dev_wake
Kept-assert c force = ground arith

Kept-deassert : (c : Ctrl) (override : Bool) → Kept c (deassert_dev_wake c override)
unfolding deassert_dev_wake
Kept-deassert c override = ground arith

Kept-wake : (c : Ctrl) → Kept c (wake_toggle (resume_if_suspended c))
unfolding wake_toggle
Kept-wake c =
    let c₁ = resume_if_suspended c in
    ground (arith, Kept-assert c₁ false, Kept-deassert (assert_dev_wake c₁ false) true)

IsQueue-finish :
    (c : Ctrl) {ch : Chan} {n i j n' i' j' : ℕ}
    → IsQueue ch n i j n' i' j'
    → IsQueue (finish_queue c ch).1 n i j n' i' j'
IsQueue-finish c {ch} q =
    let (s, b, bs, ts) = finish_queue_shape c ch in
    record {
      tre = IsAt-SameShape q.tre s;
      buf = rw b q.buf;
      tre_room = rw ts q.tre_room;
      buf_room = rw bs q.buf_room;
      larger = q.larger;
      level = q.level;
    }

-- A ring that is not full has a slot to spare.
pub room_of : {r : Ring} {n i j : ℕ} → IsAt r n i j → is_ring_full r ≡ false → used n i j + 1 < n
room_of v h = ground (arith, full-eq v, v.rp_in, v.wp_in)

-- Why `mhi_queue_skb` and `mhi_queue_dma` turn a transfer down before they do anything: a channel
-- whose buffers are the driver's, a full ring, or a controller in an error state, in this order.
abbrev pub refusal : Ctrl → Chan → Option Errno
refusal c ch =
    if ch.pre_alloc
    then some einval
    else if is_ring_full ch.tre_ring
    then some enomem
    else if in_error_state c.pm_state
    then some eio
    else none

-- Where there is a reason to refuse (EINVAL on a channel whose buffers are the driver's, else ENOMEM
-- on a full ring, else EIO in an error state), `mhi_queue_skb` and `mhi_queue_dma` return it and change
-- neither the controller nor the channel.
pub queue_client_refused :
    (dma : Dma) (c : Ctrl) (ch : Chan) (info : BufInfo) (flags : ℕ) (e : Errno)
    → refusal c ch ≡ some e
    → queue_client dma c ch info flags ≡ (c, ch, err e)
unfolding queue_client
queue_client_refused dma c ch info flags e h = ground arith

gen_tre-dir :
    (dma : Dma) (log : Log) (ch : Chan) (info : BufInfo) (flags : ℕ)
    → (gen_tre dma log ch info flags).0.dir ≡ ch.dir
unfolding gen_tre
gen_tre-dir dma log ch info flags = ground arith

-- What a success of `mhi_queue_skb` or `mhi_queue_dma` consists of.
pub queue_client_parts :
    (dma : Dma) (c : Ctrl) (ch : Chan) (info : BufInfo) (flags : ℕ)
    → (queue_client dma c ch info flags).2 ≡ ok
    → let c₁ = wake_toggle (resume_if_suspended c) in
      let g = gen_tre dma c₁.log ch info flags in
      (is_ring_full ch.tre_ring ≡ false)
      × (g.1 ≡ ok)
      × ((queue_client dma c ch info flags).0 ≡ (finish_queue c₁ g.0).0)
      × ((queue_client dma c ch info flags).1 ≡ (finish_queue c₁ g.0).1)
unfolding queue_client
queue_client_parts dma c ch info flags h = ground arith

-- When `mhi_queue_skb` or `mhi_queue_dma` returns 0 on a channel that is a queue, the channel has
-- one element more, the free slot of the transfer ring holds the descriptor of the buffer, the
-- free buffer slot holds the client's buffer, the count of packets in flight grows by one exactly
-- if the channel's direction is to the device, and, if the doorbell may be rung, the write pointer
-- that the device reads is the bus address of the ring's new one.
pub queue_client_ok :
    (dma : Dma) (c : Ctrl) (ch : Chan) (info : BufInfo) (flags n i j n' i' j' : ℕ)
    → IsQueue ch n i j n' i' j'
    → (queue_client dma c ch info flags).2 ≡ ok
    → let (c', ch', _) = queue_client dma c ch info flags in
      let c₁ = wake_toggle (resume_if_suspended c) in
      let addr = if info.pre_mapped then info.p_addr else (dma c₁.log info.v_addr info.len).0 in
      IsQueue ch' n i (next n j) n' i' (next n' j')
      × (get_or ch'.tres j no_tre ≡ data_tre ch addr info.len flags)
      × ((get_or ch'.bufs j' no_buf).cb_buf ≡ info.cb_buf)
      × (c'.pending_pkts ≡ (if is_to_device ch.dir then inc c.pending_pkts else c.pending_pkts))
      × ((db_access_valid c ≡ false)
          ⊎ (ch'.tre_ring.ctxt_wp ≡ to_device ch'.tre_ring ch'.tre_ring.wp))
queue_client_ok dma c ch info flags n i j n' i' j' q h =
    let c₁ = wake_toggle (resume_if_suspended c) in
    let ch₁ = (gen_tre dma c₁.log ch info flags).0 in
    let (free, made, ec, ech) = queue_client_parts dma c ch info flags h in
    let (queued, t, cb, _, _, _) =
      gen_tre-IsQueue ch n i j n' i' j' dma c₁.log info flags q (room_of q.tre free) made in
    let (_, _, bs, ts) = finish_queue_shape c₁ ch₁ in
    let (db, count, _) = finish_queue_effects c₁ ch₁ in
    rw (ec, ech)
      (
        IsQueue-finish c₁ queued,
        ap (λ l. get_or l j no_tre) ts ∙ t,
        ap (λ l. (get_or l j' no_buf).cb_buf) bs ∙ cb,
        ground (arith, count, gen_tre-dir dma c₁.log ch info flags, Kept-wake c),
        elim db [ inl shut ↦ inl (ground (arith, Kept-wake c)) | inr seen ↦ inr seen ],
      )

-- The two outcomes of `mhi_send_cmd`.
send_cmd_parts :
    (c : Ctrl) (chan : ℕ) (cmd : Cmd)
    → let (c', ret) = send_cmd c chan cmd in
      ((get_nr_avail_ring_elements c.cmd_ring ≡ 0) × (ret ≡ err enomem) × (c' ≡ c))
      ⊎ ((get_nr_avail_ring_elements c.cmd_ring ≢ 0)
          × (ret ≡ ok)
          × SameShape (add_ring_element c.cmd_ring) c'.cmd_ring
          × (c'.cmd_tres ≡ set c.cmd_tres (slot c.cmd_ring c.cmd_ring.wp) (cmd_tre cmd chan))
          × ((db_access_valid c ≡ false)
              ⊎ (c'.cmd_ring.ctxt_wp ≡ to_device c'.cmd_ring c'.cmd_ring.wp)))
unfolding send_cmd ring_cmd_db to_device
send_cmd_parts c chan cmd = ground arith

-- For a command ring of at most 2 ^ 31 slots and a channel number of one byte, `mhi_send_cmd`
-- refuses a full ring (ENOMEM) and changes nothing then. Otherwise it returns 0, the free slot of
-- the ring holds an element that names the channel and the command, the write pointer stands at
-- the next slot, and, if the doorbell may be rung, the write pointer that the device reads is its
-- bus address.
pub send_cmd_lem :
    (c : Ctrl) (chan : ℕ) (cmd : Cmd) (n i j : ℕ)
    → IsAt c.cmd_ring n i j
    → n ≤ 2 ^ 31
    → length c.cmd_tres ≡ n
    → chan < 256
    → let (c', ret) = send_cmd c chan cmd in
      ((used n i j ≡ n - 1) × (ret ≡ err enomem) × (c' ≡ c))
      ⊎ ((used n i j + 1 < n)
          × (ret ≡ ok)
          × IsAt c'.cmd_ring n i (next n j)
          × (get_cmd_chid (get_or c'.cmd_tres j no_tre) ≡ chan)
          × (get_cmd_type (get_or c'.cmd_tres j no_tre) ≡ cmd_code cmd)
          × ((db_access_valid c ≡ false)
              ⊎ (c'.cmd_ring.ctxt_wp ≡ to_device c'.cmd_ring c'.cmd_ring.wp)))
send_cmd_lem c chan cmd n i j v small room byte = elim (send_cmd_parts c chan cmd) [
  | inl (none_left, ret, same) ↦
      inl (ground (arith, nr_avail-eq v small, v.rp_in, v.wp_in), ret, same)
  | inr (some_left, ret, shape, tres, db) ↦
      let (chid, type) = cmd_tre_fields cmd chan byte in
      inr (
        ground (arith, nr_avail-eq v small, v.rp_in, v.wp_in),
        ret,
        IsAt-SameShape (add_ring_element-IsAt v) shape,
        ap get_cmd_chid (placed tres) ∙ chid,
        ap get_cmd_type (placed tres) ∙ type,
        db,
      )
]
  where
    placed :
        {l : List Tre}
        → l ≡ set c.cmd_tres (slot c.cmd_ring c.cmd_ring.wp) (cmd_tre cmd chan)
        → get_or l j no_tre ≡ cmd_tre cmd chan
    placed e =
        rw (e, slot-PointsTo c.cmd_ring c.cmd_ring.wp j v.sized v.writes)
          (get_or-set_self c.cmd_tres j (cmd_tre cmd chan) no_tre (omega (arith, room, v.wp_in)))
