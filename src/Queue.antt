-- ===== src/Queue.antt =====
-- Queueing transfers and commands (drivers/bus/mhi/core/main.c).
pub mod Place
pub mod Visible
use mhi_for_quectel_modem.Base.{
  ℕ, ◌+◌, ◌-◌, ◌/◌, Bool, true, false, not, List, get_or, set, test, ◌==◌, if◌then◌else◌,
}
use mhi_for_quectel_modem.Regs.{Log}
use mhi_for_quectel_modem.Tre.{Tre, Cmd, data_dword0, data_dword1, cmd_tre}
use mhi_for_quectel_modem.Ring.{Ring, add_ring_element, is_ring_full, get_nr_avail_ring_elements}
use mhi_for_quectel_modem.Pm.State.{in_error_state}
use mhi_for_quectel_modem.Ctrl.{
  Ctrl, Chan, BufInfo, Direction, to_device_dir, from_device_dir, Code, ok, err, eio, einval,
  enomem, db_access_valid, ring_chan_db, ring_cmd_db,
}
use mhi_for_quectel_modem.Wake.{wake_toggle, resume_if_suspended, inc}

-- `dma_map_single` of the kernel, and `dma_mapping_error` of what it returns: a bus address for a
-- buffer of a length, and whether the mapping failed.
abbrev pub Dma : Type 0
Dma = Log → ℕ → ℕ → ℕ × Bool

-- The element of a ring's memory that a pointer points to.
abbrev pub slot : Ring → ℕ → ℕ
slot r p = (p - r.base) / r.el_size

abbrev pub no_buf : BufInfo
no_buf = record {
  v_addr = 0;
  wp = 0;
  cb_buf = 0;
  p_addr = 0;
  len = 0;
  dir = to_device_dir;
  used = false;
  pre_mapped = false;
}

abbrev pub no_tre : Tre
no_tre = record { ptr = 0; dword0 = 0; dword1 = 0 }

abbrev pub is_to_device : Direction → Bool
is_to_device to_device_dir = true
is_to_device from_device_dir = false

-- `mhi_map_single_no_bb`
unfoldable pub map_single : Dma → Log → BufInfo → BufInfo × Code
map_single dma log buf =
    let (p_addr, failed) = dma log buf.v_addr buf.len in
    (record buf { p_addr = p_addr }, if failed then err enomem else ok)

-- MHI_EOB, MHI_EOT and MHI_CHAIN.
abbrev pub eob : ℕ
eob = 1

abbrev pub eot : ℕ
eot = 2

abbrev pub chain : ℕ
chain = 4

-- The buffer descriptor that `mhi_gen_tre` fills in, before it is mapped.
abbrev pub described : Chan → BufInfo → BufInfo → BufInfo
described ch old info = record old {
  pre_mapped = info.pre_mapped;
  p_addr = if info.pre_mapped then info.p_addr else old.p_addr;
  v_addr = if info.pre_mapped then old.v_addr else info.v_addr;
  cb_buf = info.cb_buf;
  wp = ch.tre_ring.wp;
  dir = ch.dir;
  len = info.len;
}

-- The transfer descriptor for a buffer.
abbrev pub data_tre : Chan → ℕ → ℕ → ℕ → Tre
data_tre ch p_addr len flags = record {
  ptr = p_addr;
  dword0 = data_dword0 len;
  dword1 = data_dword1 (not (ch.intmod == 0)) (test flags eot) (test flags eob) (test flags chain);
}

-- The channel after the descriptors of a mapped buffer were written and both write pointers moved.
abbrev pub with_element : Chan → BufInfo → ℕ → ℕ → Chan
with_element ch buf len flags = record ch {
  bufs = set ch.bufs (slot ch.buf_ring ch.buf_ring.wp) buf;
  tres = set ch.tres (slot ch.tre_ring ch.tre_ring.wp) (data_tre ch buf.p_addr len flags);
  tre_ring = add_ring_element ch.tre_ring;
  buf_ring = add_ring_element ch.buf_ring;
}

-- `mhi_gen_tre`
unfoldable pub gen_tre : Dma → Log → Chan → BufInfo → ℕ → Chan × Code
gen_tre dma log ch info flags =
    let at = slot ch.buf_ring ch.buf_ring.wp in
    let buf = described ch (get_or ch.bufs at no_buf) info in
    let (buf', ret) : BufInfo × Code =
      if info.pre_mapped then (buf, ok) else map_single dma log buf in
    elim ret [
      | err e ↦ (record ch { bufs = set ch.bufs at buf' }, err e)
      | ok ↦ (with_element ch buf' info.len flags, ok)
    ]

-- The end that the three queueing functions share: the count of packets on their way to the device,
-- and the channel's doorbell.
unfoldable pub finish_queue : Ctrl → Chan → Ctrl × Chan
finish_queue c ch =
    let c₁ = if is_to_device ch.dir then record c { pending_pkts = inc c.pending_pkts } else c in
    if db_access_valid c₁
    then (let (log, ch') = ring_chan_db c₁.log ch in (record c₁ { log = log }, ch'))
    else (c₁, ch)

-- `mhi_queue_skb` and `mhi_queue_dma`, which differ in what they put into `buf_info`.
unfoldable pub queue_client : Dma → Ctrl → Chan → BufInfo → ℕ → Ctrl × Chan × Code
queue_client dma c ch info flags =
    if ch.pre_alloc
    then (c, ch, err einval)
    else if is_ring_full ch.tre_ring
    then (c, ch, err enomem)
    else if in_error_state c.pm_state
    then (c, ch, err eio)
    else (let c₁ = wake_toggle (resume_if_suspended c) in
        let (ch₁, ret) = gen_tre dma c₁.log ch info flags in
        elim ret [
          | err e ↦ (c₁, ch₁, err e)
          | ok ↦ let (c₂, ch₂) = finish_queue c₁ ch₁ in (c₂, ch₂, ok)
        ])

-- `mhi_queue_skb`: `addr` is `skb->data`.
unfoldable pub queue_skb : Dma → Ctrl → Chan → ℕ → ℕ → ℕ → ℕ → Ctrl × Chan × Code
queue_skb dma c ch addr skb len flags =
    queue_client dma c ch (record no_buf { v_addr = addr; cb_buf = skb; len = len }) flags

-- `mhi_queue_dma`: the buffer is mapped at `dma_addr` already.
unfoldable pub queue_dma : Dma → Ctrl → Chan → ℕ → ℕ → ℕ → ℕ → Ctrl × Chan × Code
queue_dma dma c ch dma_addr buf len flags =
    queue_client dma c ch
      (record no_buf { p_addr = dma_addr; cb_buf = buf; pre_mapped = true; len = len }) flags

-- `mhi_queue_buf`
unfoldable pub queue_buf : Dma → Ctrl → Chan → ℕ → ℕ → ℕ → Ctrl × Chan × Code
queue_buf dma c ch buf len flags =
    if in_error_state c.pm_state
    then (c, ch, err eio)
    else if is_ring_full ch.tre_ring
    then (c, ch, err enomem)
    else (let (ch₁, ret) =
          gen_tre dma c.log ch (record no_buf { v_addr = buf; cb_buf = buf; len = len }) flags in
        elim ret [
          | err e ↦ (c, ch₁, err e)
          | ok ↦
              let (c₂, ch₂) = finish_queue (wake_toggle (resume_if_suspended c)) ch₁ in
              (c₂, ch₂, ok)
        ])

-- `mhi_send_cmd`, for the number of the channel that it is about.
unfoldable pub send_cmd : Ctrl → ℕ → Cmd → Ctrl × Code
send_cmd c chan cmd =
    if get_nr_avail_ring_elements c.cmd_ring == 0
    then (c, err enomem)
    else (let c₁ = record c {
      cmd_tres = set c.cmd_tres (slot c.cmd_ring c.cmd_ring.wp) (cmd_tre cmd chan);
      cmd_ring = add_ring_element c.cmd_ring;
    } in
        if db_access_valid c₁
        then (let (log, ring) = ring_cmd_db c₁.log c₁.cmd_ring in
            (record c₁ { cmd_ring = ring; log = log }, ok))
        else (c₁, ok))
