-- ===== src/Tests/MbimRuns.antt =====
-- Blocks of the network driver.
use mhi_for_quectel_modem.Base.{
  ℕ, ◌+◌, Bool, true, false, some, All, List, [], ◌∷◌, length, ◌≡◌, ◌≢◌, refl, arith,
}
use mhi_for_quectel_modem.Mbim.{
  Signs, MbimCtx, Packet, ip, delivered, faulted, running, get16, get32, rx_fixup, tx_fixup, frame,
  frames, table, tables, le16, le32, hdr_size,
}
use mhi_for_quectel_modem.Ctrl.{Chan}
use mhi_for_quectel_modem.Ring.{is_ring_full}
use mhi_for_quectel_modem.Mbim.Net.{NetStats, NetDev, Skb, busy, ndo_xmit, dl_callback}
use mhi_for_quectel_modem.Mbim.Resend.{xmit-resend}
use mhi_for_quectel_modem.Tests.Data.{ctrl, chan, tre_ring, direct}
use mhi_for_quectel_modem.Mbim.Slices.{IsSlice, rx_fixup-IsSlice}
use mhi_for_quectel_modem.Mbim.Ends.{
  is_forward, IsHeader, HasTable, rx_fixup-ends, rx_fixup-runs_on, rx_fixup-overread,
}
use mhi_for_quectel_modem.Mbim.RoundTrip.{tx-rx_fixup}

-- The signatures of `linux/usb/cdc.h`.
abbrev signs : Signs
signs = record { nth16 = 0x484D_434E; ips = 0x53_5049; dss = 0x53_5344 }

abbrev ctx : MbimCtx
ctx = record { tx_seq = 0xFFFF; rx_seq = 3; rx_max = 1000 }

abbrev memory : List Packet → ℕ → Bool
memory chain len = true

-- An IPv4 packet by its first byte.
abbrev packet : List ℕ
packet = 0x45 ∷ 17 ∷ 99 ∷ []

tx-rx_fixup_example :
    (block : List ℕ) × (((tx_fixup signs ctx 28 packet 0).1 ≡ some block)
      × (rx_fixup signs memory 1 ctx block ≡ (
        record ctx { rx_seq = (tx_fixup signs ctx 28 packet 0).0.tx_seq },
        delivered (record { protocol = ip; bytes = packet } ∷ []),
      )))
tx-rx_fixup_example =
    tx-rx_fixup signs memory ctx ctx 28 0 0x45 ip packet (omega arith) (omega arith) (omega arith)
      (omega arith) (omega arith) refl refl refl

-- A header, and a table that names `next` as the next one, with `rest` behind its head.
abbrev block_with : ℕ → List ℕ → List ℕ
block_with next rest =
    le32 0x484D_434E
      (le16 12 (le16 7 (le16 24 (le16 12 (le32 0x53_5049 (le16 16 (le16 next rest)))))))

-- A table that names itself, and one without its entries.
abbrev endless : List ℕ
endless = block_with 12 (le16 0 (le16 0 []))

abbrev cut : List ℕ
cut = block_with 0 []

is_header : (next : ℕ) (rest : List ℕ) → IsHeader signs ctx (block_with next rest) 7 12
unfolding get16 get32
is_header next rest = record {
  size = omega arith;
  sign = refl;
  len = 24;
  block_length = refl;
  fits = omega arith;
  sequence = refl;
  ndp = refl;
}

has_table : (next : ℕ) (rest : List ℕ) → HasTable signs (block_with next rest) 12
unfolding get16 get32
has_table next rest = record {
  size = omega arith;
  sign = 0x53_5049;
  signature = refl;
  kind = refl;
  tag = omega arith;
  two = refl;
}

-- A block with two bytes of a packet behind its table.
abbrev carrying : List ℕ
carrying = block_with 0 (le16 28 (le16 2 (le16 0 (le16 0 (le16 0x1045 [])))))

carrying_runs :
    (rx_fixup signs memory 9 ctx carrying).1
    ≡ delivered (record { protocol = ip; bytes = 0x45 ∷ 0x10 ∷ [] } ∷ [])
unfolding rx_fixup get16 get32 tables table frames frame
carrying_runs = refl

rx_fixup-IsSlice_example :
    All (IsSlice 1000 carrying) (record { protocol = ip; bytes = 0x45 ∷ 0x10 ∷ [] } ∷ [])
rx_fixup-IsSlice_example =
    rx_fixup-IsSlice signs memory 9 ctx carrying
      (record { protocol = ip; bytes = 0x45 ∷ 0x10 ∷ [] } ∷ []) carrying_runs

forward_runs : is_forward signs memory 1000 cut ≡ true
unfolding get16 get32
forward_runs = refl

rx_fixup-ends_example : (rx_fixup signs memory (length cut + 1) ctx cut).1 ≢ running
rx_fixup-ends_example = rx_fixup-ends signs memory ctx cut forward_runs

first_entry : get16 endless 20 ≡ some 0
unfolding get16
first_entry = refl

second_entry : get16 endless 22 ≡ some 0
unfolding get16
second_entry = refl

names_itself : get16 endless 18 ≡ some 12
unfolding get16
names_itself = refl

rx_fixup-runs_on_example : (rx_fixup signs memory 100 ctx endless).1 ≡ running
rx_fixup-runs_on_example =
    rx_fixup-runs_on signs memory ctx endless 7 11 (is_header 12 (le16 0 (le16 0 [])))
      (has_table 12 (le16 0 (le16 0 []))) 0 first_entry second_entry names_itself 100

rx_fixup-overread_example : (rx_fixup signs memory 1 ctx cut).1 ≡ faulted
rx_fixup-overread_example =
    rx_fixup-overread signs memory ctx cut 7 11 (is_header 0 []) (has_table 0 []) 0 refl

-- An entry whose first byte is no IP version ends the block.
delivers :
    (rx_fixup signs memory 9 ctx (block_with 0 (le16 4 (le16 2 (le16 0 (le16 0 [])))))).1
    ≡ delivered []
unfolding rx_fixup get16 get32 table tables frames frame
delivers = refl

-- A channel without room, and a packet with room in front.
abbrev full_chan : Chan
full_chan = record chan { tre_ring = record tre_ring { wp = 1000 } }

is_full : is_ring_full full_chan.tre_ring ≡ true
unfolding is_ring_full
is_full = refl

abbrev stats : NetStats
stats = record {
  rx_packets = 0;
  rx_bytes = 0;
  rx_errors = 0;
  tx_packets = 0;
  tx_bytes = 0;
  tx_errors = 0;
  tx_dropped = 0;
  rx_queued = 4;
}

abbrev net : NetDev
net = record { ctx = ctx; stats = stats; rx_queue_sz = 8; stopped = false; refills = false }

abbrev skb : Skb
skb = record { at = 500; data_at = 8000; headroom = 64; bytes = packet }

xmit-resend_example :
    let x = ndo_xmit signs direct ctrl full_chan net skb in
    let (tx', sent) = tx_fixup signs x.net.ctx x.skb.headroom x.skb.bytes 0 in
    (x.fate ≡ busy)
    × (x.net.stopped ≡ true)
    × (length x.skb.bytes ≡ length packet + hdr_size)
    × ((block : List ℕ) × ((sent ≡ some block)
          × (rx_fixup signs memory 1 ctx block ≡ (
            record ctx { rx_seq = tx'.tx_seq },
            delivered (record { protocol = ip; bytes = x.skb.bytes } ∷ []),
          ))))
xmit-resend_example =
    xmit-resend signs memory direct ctrl full_chan net skb ctx 0 ip
      (record { header = omega arith; table = omega arith }) refl is_full (omega arith)
      (omega arith) (omega arith) refl refl

-- A block with one packet, which brings the receive queue below its half.
received : (dl_callback signs memory 9 0 (block_with 0 (le16 20 (le16 2 []))) net).0.refills ≡ true
unfolding dl_callback
received = refl
