-- ===== src/Mbim/Resend.antt =====
-- What happens to a packet that `mhi_ndo_xmit` (drivers/bus/mhi/mhi_net_mbim.c) gives back with
-- NETDEV_TX_BUSY and is then given again.
use mhi_for_quectel_modem.Base.{
  ℕ, suc, ◌+◌, ◌%◌, ◌^◌, ◌≤◌, ◌<◌, Bool, true, false, some, List, [], ◌∷◌, length, get_elem?, ◌≡◌,
  ap, ◌∙◌, arith,
}
use mhi_for_quectel_modem.Ctrl.{Ctrl, Chan}
use mhi_for_quectel_modem.Ring.{is_ring_full}
use mhi_for_quectel_modem.Queue.{Dma, queue_skb}
use mhi_for_quectel_modem.Mbim.{
  Signs, MbimCtx, Packet, Protocol, delivered, hdr_size, rx_fixup, tx_fixup, protocol_of,
}
use mhi_for_quectel_modem.Mbim.RoundTrip.{IsSigns, tx-rx_fixup}
use mhi_for_quectel_modem.Mbim.Net.{NetDev, Skb, busy, ndo_xmit, after_queue}

-- With room for a header, but none in the transfer ring, the packet is given back as a block.
xmit-busy :
    (signs : Signs) (dma : Dma) (c : Ctrl) (ch : Chan) (net : NetDev) (skb : Skb)
    → ch.pre_alloc ≡ false
    → is_ring_full ch.tre_ring ≡ true
    → hdr_size ≤ skb.headroom
    → let x = ndo_xmit signs dma c ch net skb in
      (x.fate ≡ busy)
      × (x.net.stopped ≡ true)
      × (x.chan ≡ ch)
      × (x.net.ctx.tx_seq ≡ (net.ctx.tx_seq + 1) % 2 ^ 16)
      × (x.skb.headroom + hdr_size ≡ skb.headroom)
      × (length x.skb.bytes ≡ length skb.bytes + hdr_size)
      × (get_elem? x.skb.bytes 0 ≡ some (signs.nth16 % 2 ^ 16 % 256))
unfolding ndo_xmit tx_fixup queue_skb mhi_for_quectel_modem.Queue.queue_client after_queue
xmit-busy signs dma c ch net skb client full room = ground (arith, client, full, room)

-- Let `mhi_ndo_xmit` be given a packet with room for two headers, on a client's channel whose transfer
-- ring is full. Then it returns NETDEV_TX_BUSY and stops the queue, but the packet that it gives back
-- has a header in front already, with 28 bytes more. When the packet is given again,
-- `cdc_mbim_tx_fixup` puts a second header in front, and a receiver that has the memory and takes a
-- block of that size, for a signature that reads as the start of an IP packet, delivers the first
-- header with the packet.
pub xmit-resend :
    (signs : Signs) (alloc : List Packet → ℕ → Bool) (dma : Dma) (c : Ctrl) (ch : Chan)
    (net : NetDev) (skb : Skb) (rx : MbimCtx) (fuel : ℕ) (p : Protocol)
    → IsSigns signs
    → ch.pre_alloc ≡ false
    → is_ring_full ch.tre_ring ≡ true
    → hdr_size + hdr_size ≤ skb.headroom
    → length skb.bytes + hdr_size + hdr_size < 2 ^ 16
    → length skb.bytes + hdr_size + hdr_size ≤ rx.rx_max
    → protocol_of (signs.nth16 % 2 ^ 16 % 256) ≡ some p
    → alloc [] (length skb.bytes + hdr_size) ≡ true
    → let x = ndo_xmit signs dma c ch net skb in
      let (tx', sent) = tx_fixup signs x.net.ctx x.skb.headroom x.skb.bytes 0 in
      (x.fate ≡ busy)
      × (x.net.stopped ≡ true)
      × (length x.skb.bytes ≡ length skb.bytes + hdr_size)
      × ((block : List ℕ) × ((sent ≡ some block)
            × (rx_fixup signs alloc (suc fuel) rx block ≡ (
              record rx { rx_seq = tx'.tx_seq },
              delivered (record { protocol = p; bytes = x.skb.bytes } ∷ []),
            ))))
xmit-resend signs alloc dma c ch net skb rx fuel p good client full room size fits kind memory =
    let x = ndo_xmit signs dma c ch net skb in
    let (given_back, stopped, _, seq, left, longer, first) =
      xmit-busy signs dma c ch net skb client full (omega (arith, room)) in
    (
      given_back,
      stopped,
      longer,
      tx-rx_fixup signs alloc x.net.ctx rx x.skb.headroom fuel (signs.nth16 % 2 ^ 16 % 256) p
          x.skb.bytes good (omega (arith, seq)) (omega (arith, left, room))
          (omega (arith, longer, size)) (omega (arith, longer, fits)) first kind
          (ap (λ n. alloc [] n) longer ∙ memory),
    )
