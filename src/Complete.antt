-- ===== src/Complete.antt =====
-- Completing transfers: `parse_xfer_event` and `mhi_reset_data_chan` of drivers/bus/mhi/core/main.c.
-- The client's callback is recorded; what a client queues in it comes after.
pub mod Order
pub mod Event
pub mod Fifo
pub mod Bounds
use mhi_for_quectel_modem.Base.{
  ℕ, zero, suc, ◌+◌, ◌/◌, ◌%◌, ◌^◌, min, Bool, true, false, not, ◌&&◌, ◌||◌, Option, none, some,
  get_or, leb, ◌==◌, if◌then◌else◌,
}
use mhi_for_quectel_modem.Regs.{
  Act, Status, done, overflow, not_connected, xfer_cb, unmap_single, kfree,
}
use mhi_for_quectel_modem.Tre.{Tre, get_ev_code, get_ev_len, get_ev_ptr}
use mhi_for_quectel_modem.Ring.{Ring, del_ring_element, to_virtual}
use mhi_for_quectel_modem.Ctrl.{
  Ctrl, Chan, BufInfo, disabled, enabled, Code, ok, err, act, db_access_valid, ring_chan_db,
}
use mhi_for_quectel_modem.Wake.{dec}
use mhi_for_quectel_modem.Queue.{Dma, slot, no_buf, is_to_device, eot, queue_buf}

-- `enum mhi_ev_ccs`: the codes that the driver tells apart.
abbrev pub cc_eot : ℕ
cc_eot = 0x2

abbrev pub cc_overflow : ℕ
cc_overflow = 0x3

abbrev pub cc_eob : ℕ
cc_eob = 0x4

abbrev pub cc_oob : ℕ
cc_oob = 0x5

abbrev pub cc_db_mode : ℕ
cc_db_mode = 0x6

-- `buf_ring->rp`
abbrev pub oldest : Chan → BufInfo
oldest ch = get_or ch.bufs (slot ch.buf_ring ch.buf_ring.rp) no_buf

-- `min_t(u16, xfer_len, buf_info->len)`
abbrev pub bytes_xferd : ℕ → ℕ → ℕ
bytes_xferd xfer_len len = min (xfer_len % 2 ^ 16) (len % 2 ^ 16)

-- The start of a round: unmap the oldest buffer, if the client did not map it.
abbrev unmap : BufInfo → Ctrl → Ctrl
unmap buf c = if buf.pre_mapped then c else act (unmap_single buf.p_addr) c

abbrev pub del_both : Chan → Chan
del_both ch = record ch {
  buf_ring = del_ring_element ch.buf_ring;
  tre_ring = del_ring_element ch.tre_ring;
}

-- The recycling of a buffer that the driver allocated: queued again, or freed if that fails.
unfoldable pub recycle : Dma → BufInfo → Ctrl × Chan → Ctrl × Chan
recycle dma buf (c, ch) =
    if not ch.pre_alloc
    then (c, ch)
    else (let (c₁, ch₁, ret) = queue_buf dma c ch buf.cb_buf buf.len eot in
        elim ret [ ok ↦ (c₁, ch₁) | err _ ↦ (act (kfree buf.cb_buf) c₁, ch₁) ])

-- One round of the loop: the oldest transfer is handed back to the client.
unfoldable pub complete_one : Dma → Status → ℕ → ℕ → Ctrl × Chan → Ctrl × Chan
complete_one dma status ev_tre ev_len (c, ch) =
    let buf = oldest ch in
    let xfer_len = if ch.tre_ring.rp == ev_tre then ev_len else buf.len in
    let c₁ = act (xfer_cb ch.chan buf.cb_buf (bytes_xferd xfer_len buf.len) status) (unmap buf c) in
    let c₂ = if is_to_device ch.dir then record c₁ { pending_pkts = dec c₁.pending_pkts } else c₁ in
    recycle dma buf (c₂, del_both ch)

-- `while (local_rp != dev_rp)`. `none` says that the fuel did not do.
unfoldable pub complete_to : ℕ → Dma → Status → ℕ → ℕ → ℕ → Ctrl × Chan → Option (Ctrl × Chan)
complete_to zero dma status ev_tre ev_len dev_rp s = none
complete_to (suc fuel) dma status ev_tre ev_len dev_rp s =
    let rest =
      complete_to fuel dma status ev_tre ev_len dev_rp (complete_one dma status ev_tre ev_len s) in
    if s.1.tre_ring.rp == dev_rp then some s else rest

-- `dev_rp = ev_tre + 1`, for elements of 16 bytes, round the end of the ring.
abbrev pub after_tre : Ring → ℕ → ℕ
after_tre ring p = let q = p + 16 in if leb (ring.base + ring.len) q then ring.base else q

-- A loop that has not met its end after as many rounds as the ring has elements, and one more look,
-- never meets it.
abbrev pub rounds_in : Ring → ℕ
rounds_in ring = ring.len / ring.el_size + 1

abbrev pub status_of : ℕ → Status
status_of ev_code = if ev_code == cc_overflow then overflow else done

-- `parse_xfer_event`. `none` is a loop that does not end.
unfoldable pub parse_xfer_event : Dma → Ctrl → Tre → Chan → Option (Ctrl × Chan)
parse_xfer_event dma c event ch =
    let ev_code = get_ev_code event in
    elim ch.ch_state [
      | disabled ↦ some (c, ch)
      | enabled ↦
          if (ev_code == cc_overflow) || (ev_code == cc_eob) || (ev_code == cc_eot)
          then (let ev_tre = to_virtual ch.tre_ring (get_ev_ptr event) in
              complete_to (rounds_in ch.tre_ring) dma (status_of ev_code) ev_tre (get_ev_len event)
                (after_tre ch.tre_ring ev_tre) (c, ch))
          else if (ev_code == cc_oob) || (ev_code == cc_db_mode)
          then (let ch₁ = record ch { db_cfg = record (ch.db_cfg) { db_mode = true } } in
              if not (ch.tre_ring.wp == ch.tre_ring.rp) && db_access_valid c
              then (let (log, ch₂) = ring_chan_db c.log ch₁ in some (record c { log = log }, ch₂))
              else some (c, ch₁))
          else some (c, ch)
    ]

-- One round of `mhi_reset_data_chan`: the oldest transfer is given back undone.
unfoldable pub drop_one : Ctrl × Chan → Ctrl × Chan
drop_one (c, ch) =
    let buf = oldest ch in
    let c₁ = if is_to_device ch.dir then record c { pending_pkts = dec c.pending_pkts } else c in
    let c₂ = unmap buf c₁ in
    (
      if ch.pre_alloc
          then act (kfree buf.cb_buf) c₂
          else act (xfer_cb ch.chan buf.cb_buf 0 not_connected) c₂,
      del_both ch,
    )

-- `while (tre_ring->rp != tre_ring->wp)`
unfoldable pub drop_all : ℕ → Ctrl × Chan → Option (Ctrl × Chan)
drop_all zero s = none
drop_all (suc fuel) s =
    let rest = drop_all fuel (drop_one s) in
    if s.1.tre_ring.rp == s.1.tre_ring.wp then some s else rest

unfoldable pub reset_data_chan : Ctrl → Chan → Option (Ctrl × Chan)
reset_data_chan c ch = drop_all (rounds_in ch.tre_ring) (c, ch)
