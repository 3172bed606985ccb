-- ===== src/Mbim/Net.antt =====
-- The transmit path and the callbacks of the MBIM network device (drivers/bus/mhi/mhi_net_mbim.c), on
-- top of the framing and of the queueing of the core.
use mhi_for_quectel_modem.Base.{
  ℕ, ◌+◌, ◌-◌, ◌/◌, ◌^◌, Bool, true, false, ◌||◌, none, some, List, [], length, leb, ◌==◌,
  if◌then◌else◌,
}
use mhi_for_quectel_modem.Base.Word.{u32, u64}
use mhi_for_quectel_modem.Ctrl.{Ctrl, Chan, Code, ok, err, enomem}
use mhi_for_quectel_modem.Queue.{Dma, eot, queue_skb}
use mhi_for_quectel_modem.Mbim.{
  Packet, Tables, delivered, rx_fixup, Signs, MbimCtx, hdr_size, tx_fixup,
}

-- `struct mhi_net_stats`, less the members that nothing changes.
pub record NetStats : Type 0 where
  pub rx_packets : ℕ
  pub rx_bytes : ℕ
  pub rx_errors : ℕ
  pub tx_packets : ℕ
  pub tx_bytes : ℕ
  pub tx_errors : ℕ
  pub tx_dropped : ℕ
  pub rx_queued : ℕ

-- `struct mhi_net_dev`. `stopped` says that the queue of its network device is stopped, `refills`
-- that the work that refills the receive queue is scheduled.
pub record NetDev : Type 0 where
  pub ctx : MbimCtx
  pub stats : NetStats
  pub rx_queue_sz : ℕ
  pub stopped : Bool
  pub refills : Bool

-- `struct sk_buff` at the address `at`, with the bytes from `data` (`data_at`) on and the room in front of them.
pub record Skb : Type 0 where
  pub at : ℕ
  pub data_at : ℕ
  pub headroom : ℕ
  pub bytes : List ℕ

-- What became of the packet: it is queued, or freed (NETDEV_TX_OK), or still the caller's
-- (NETDEV_TX_BUSY).
pub data Fate : Type 0 where
  queued freed busy : Fate

pub record Xmit : Type 0 where
  pub ctrl : Ctrl
  pub chan : Chan
  pub net : NetDev
  pub skb : Skb
  pub fate : Fate

abbrev pub dropped_one : NetDev → NetDev
dropped_one net = record net {
  stats = record (net.stats) { tx_dropped = u64 (net.stats.tx_dropped + 1) };
}

-- `skb_push`, with what the header made of the packet.
abbrev pub pushed : List ℕ → Skb → Skb
pushed block skb = record skb {
  data_at = skb.data_at - hdr_size;
  headroom = skb.headroom - hdr_size;
  bytes = block;
}

-- What follows on the result of `mhi_queue_skb`.
unfoldable pub after_queue : Ctrl → Chan → NetDev → Skb → Code → Xmit
after_queue c ch net skb ok = record { ctrl = c; chan = ch; net = net; skb = skb; fate = queued }
after_queue c ch net skb (err enomem) = record {
  ctrl = c;
  chan = ch;
  net = record net { stopped = true };
  skb = skb;
  fate = busy;
}
after_queue c ch net skb (err e) = record {
  ctrl = c;
  chan = ch;
  net = dropped_one net;
  skb = skb;
  fate = freed;
}

-- `mhi_ndo_xmit`
unfoldable pub ndo_xmit : Signs → Dma → Ctrl → Chan → NetDev → Skb → Xmit
unfolding tx_fixup queue_skb after_queue
ndo_xmit signs dma c ch net skb =
    let (ctx, framed) = tx_fixup signs net.ctx skb.headroom skb.bytes 0 in
    elim framed [
      | none ↦ record { ctrl = c; chan = ch; net = dropped_one net; skb = skb; fate = freed }
      | some block ↦
          let skb₁ = pushed block skb in
          let (c', ch', ret) = queue_skb dma c ch skb₁.data_at skb₁.at (length block) eot in
          after_queue c' ch' (record net { ctx = ctx }) skb₁ ret
    ]

-- `mhi_net_ul_callback`, less the freeing of the packet.
unfoldable pub ul_callback : ℕ → ℕ → NetDev → NetDev
ul_callback status bytes_xferd net =
    let s = net.stats in
    record net {
      stats =
          if status == 0
          then record s {
            tx_packets = u64 (s.tx_packets + 1);
            tx_bytes = u64 (s.tx_bytes + bytes_xferd);
          }
          else record s { tx_errors = u64 (s.tx_errors + 1) };
      stopped = false;
    }

-- What `mhi_net_dl_callback` counts and delivers of a buffer that begins with `bytes`.
unfoldable pub take_block :
    Signs → (List Packet → ℕ → Bool) → ℕ → ℕ → List ℕ → NetDev → NetDev × Tables
unfolding rx_fixup
take_block signs alloc fuel status bytes net =
    let s = net.stats in
    if status == 0
    then (let (ctx, out) = rx_fixup signs alloc fuel net.ctx bytes in
        (
          record net {
            ctx = ctx;
            stats = record s {
              rx_packets = u64 (s.rx_packets + 1);
              rx_bytes = u64 (s.rx_bytes + length bytes);
            };
          },
          out,
        ))
    else (record net { stats = record s { rx_errors = u64 (s.rx_errors + 1) } }, delivered [])

-- `mhi_net_dl_callback`, for the transferred bytes, less the freeing of the buffer. `int remaining` is
-- compared as unsigned.
unfoldable pub dl_callback :
    Signs → (List Packet → ℕ → Bool) → ℕ → ℕ → List ℕ → NetDev → NetDev × Tables
unfolding take_block
dl_callback signs alloc fuel status bytes net =
    let remaining = u32 (net.stats.rx_queued + (2 ^ 32 - 1)) in
    let net₁ = record net { stats = record (net.stats) { rx_queued = remaining } } in
    let (net₂, out) = take_block signs alloc fuel status bytes net₁ in
    (record net₂ { refills = leb remaining (net.rx_queue_sz / 2) || net₂.refills }, out)
