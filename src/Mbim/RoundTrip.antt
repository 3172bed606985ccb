-- ===== src/Mbim/RoundTrip.antt =====
-- What the device is sent by `cdc_mbim_tx_fixup` of drivers/bus/mhi/mhi_net_mbim.c is a block that
-- `cdc_mbim_rx_fixup` takes apart again.
use mhi_for_quectel_modem.Base.{
  ℕ, suc, ◌+◌, ◌*◌, ◌%◌, ◌^◌, ◌≤◌, ◌<◌, Bool, true, some, List, [], ◌∷◌, length, get_elem?, take,
  ◌≡◌, refl, ap, arith,
}
use mhi_for_quectel_modem.Mbim.{
  Signs, MbimCtx, Packet, Protocol, next, delivered, get16, get32, nth16_size, hdr_size, frame,
  frames, table, tables, rx_fixup, tx_fixup, protocol_of, le16, le32,
}
use mhi_for_quectel_modem.Mbim.Ends.{IsHeader, rx_fixup-tables}

-- The signatures fit into their members.
pub record IsSigns (signs : Signs) : Type 0 where
  pub header : signs.nth16 < 2 ^ 32
  pub table : signs.ips < 2 ^ 24

-- The block that `cdc_mbim_tx_fixup` makes for session 0.
abbrev framed : Signs → ℕ → List ℕ → List ℕ
framed signs seq packet = le32 signs.nth16 (
    le16 nth16_size (
      le16 seq (
        le16 (length packet + hdr_size) (
          le16 nth16_size (
            le32 (signs.ips % 2 ^ 24 + 0 % 256 * 2 ^ 24) (
              le16 16 (le16 0 (le16 hdr_size (le16 (length packet) (le16 0 (le16 0 packet)))))))))))

framed-IsHeader :
    (signs : Signs) (ctx : MbimCtx) (seq : ℕ) (packet : List ℕ)
    → IsSigns signs
    → seq < 2 ^ 16
    → length packet + hdr_size < 2 ^ 16
    → length packet + hdr_size ≤ ctx.rx_max
    → IsHeader signs ctx (framed signs seq packet) seq nth16_size
unfolding get16 get32
framed-IsHeader signs ctx seq packet good s l m = record {
  size = omega arith;
  sign = ground (arith, good);
  len = length packet + hdr_size;
  block_length = ground arith;
  fits = m;
  sequence = ground arith;
  ndp = ground arith;
}

take-all : (xs : List ℕ) → take (length xs) xs ≡ xs
take-all [] = refl
take-all (x ∷ xs) = ap (λ l. x ∷ l) (take-all xs)

module _ (signs : Signs) (alloc : List Packet → ℕ → Bool) (rx_max seq : ℕ) (packet : List ℕ)
    (good : IsSigns signs) (size : length packet + hdr_size < 2 ^ 16)
    (fits : length packet + hdr_size ≤ rx_max) where
  abbrev block : List ℕ
  block = framed signs seq packet

  framed-frame :
      (byte : ℕ) (p : Protocol)
      → get_elem? packet 0 ≡ some byte
      → protocol_of byte ≡ some p
      → alloc [] (length packet) ≡ true
      → frame signs alloc rx_max block hdr_size (length packet) []
        ≡ next (record { protocol = p; bytes = packet } ∷ [])
  unfolding frame
  framed-frame byte p first kind memory = ground (arith, first, kind, memory, take-all packet)

  framed-frames :
      (byte : ℕ) (p : Protocol)
      → get_elem? packet 0 ≡ some byte
      → protocol_of byte ≡ some p
      → alloc [] (length packet) ≡ true
      → 0 < length packet
      → frames signs alloc rx_max block 2 20 []
        ≡ next (record { protocol = p; bytes = packet } ∷ [])
  unfolding frames get16
  framed-frames byte p first kind memory some_byte =
      ground (arith, framed-frame byte p first kind memory)

  framed-table :
      (byte : ℕ) (p : Protocol)
      → get_elem? packet 0 ≡ some byte
      → protocol_of byte ≡ some p
      → alloc [] (length packet) ≡ true
      → 0 < length packet
      → table signs alloc rx_max block 12 [] ≡ next (record { protocol = p; bytes = packet } ∷ [])
  unfolding table get16 get32
  framed-table byte p first kind memory some_byte =
      ground (arith, good, framed-frames byte p first kind memory some_byte)

  framed-tables :
      (fuel byte : ℕ) (p : Protocol)
      → get_elem? packet 0 ≡ some byte
      → protocol_of byte ≡ some p
      → alloc [] (length packet) ≡ true
      → 0 < length packet
      → tables signs alloc rx_max block (suc fuel) 12 []
        ≡ delivered (record { protocol = p; bytes = packet } ∷ [])
  unfolding tables get16
  framed-tables fuel byte p first kind memory some_byte =
      ground (arith, framed-table byte p first kind memory some_byte)

first_byte : (packet : List ℕ) (byte : ℕ) → get_elem? packet 0 ≡ some byte → 0 < length packet
first_byte [] byte e = absurd (ground (arith, e))
first_byte (b ∷ packet) byte e = omega arith

-- Let the packet be an IPv4 or IPv6 packet by its first byte, let it fit with the header into 16 bits
-- and into what the receiver takes, let the buffer have room for the header, and the receiver memory
-- for the packet. Then the block that `cdc_mbim_tx_fixup` makes of it for session 0 is taken apart by
-- `cdc_mbim_rx_fixup`, in one round, into exactly this packet, and the receiver then expects the
-- sequence number that the sender uses next.
pub tx-rx_fixup :
    (signs : Signs) (alloc : List Packet → ℕ → Bool) (tx rx : MbimCtx) (headroom fuel byte : ℕ)
    (p : Protocol) (packet : List ℕ)
    → IsSigns signs
    → tx.tx_seq < 2 ^ 16
    → hdr_size ≤ headroom
    → length packet + hdr_size < 2 ^ 16
    → length packet + hdr_size ≤ rx.rx_max
    → get_elem? packet 0 ≡ some byte
    → protocol_of byte ≡ some p
    → alloc [] (length packet) ≡ true
    → let (tx', sent) = tx_fixup signs tx headroom packet 0 in
      (block : List ℕ) × ((sent ≡ some block)
        × (rx_fixup signs alloc (suc fuel) rx block ≡ (
          record rx { rx_seq = tx'.tx_seq },
          delivered (record { protocol = p; bytes = packet } ∷ []),
        )))
unfolding tx_fixup
tx-rx_fixup signs alloc tx rx headroom fuel byte p packet good s room size fits first kind memory =
    let seq = tx.tx_seq in
    let header = framed-IsHeader signs rx seq packet good s size fits in
    let tables_end =
      framed-tables signs alloc rx.rx_max seq packet good size fits fuel byte p first kind memory
        (first_byte packet byte first) in
    (
      framed signs seq packet,
      (
        ground (arith, room),
        ground (
          arith,
          room,
          rx_fixup-tables signs alloc (suc fuel) rx (framed signs seq packet) seq nth16_size header,
          tables_end,
        ),
      ),
    )
