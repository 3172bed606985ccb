-- ===== src/Mbim.antt =====
-- The MBIM framing of the network driver (drivers/bus/mhi/mhi_net_mbim.c): packets to and from the
-- blocks that the device exchanges, on a little-endian host.
pub mod Slices
pub mod Ends
pub mod RoundTrip
pub mod Net
pub mod Resend
use mhi_for_quectel_modem.Base.{
  ℕ, zero, suc, ◌+◌, ◌-◌, ◌*◌, ◌/◌, ◌%◌, ◌^◌, bit_and, Bool, true, false, not, ◌&&◌, ◌||◌, ltb,
  ◌==◌, if◌then◌else◌, Option, none, some, List, [], ◌∷◌, ◌++◌, length, get_elem?, take, drop,
}

-- The signatures of `linux/usb/cdc.h`: of a block's header, and of the two kinds of tables.
pub record Signs : Type 0 where
  pub nth16 : ℕ
  pub ips : ℕ
  pub dss : ℕ

-- `struct cdc_mbim_ctx`.
pub record MbimCtx : Type 0 where
  pub tx_seq : ℕ
  pub rx_seq : ℕ
  pub rx_max : ℕ

-- `skb->protocol`: ETH_P_IP or ETH_P_IPV6.
pub data Protocol : Type 0 where
  ip ipv6 : Protocol

-- A packet for the network stack.
pub record Packet : Type 0 where
  pub protocol : Protocol
  pub bytes : List ℕ

-- The sizes of `struct usb_cdc_ncm_nth16`, `struct usb_cdc_ncm_ndp16` and `struct
-- usb_cdc_ncm_dpe16`, and of `struct cdc_mbim_hdr`.
abbrev pub nth16_size : ℕ
nth16_size = 12

abbrev pub ndp16_size : ℕ
ndp16_size = 8

abbrev pub dpe16_size : ℕ
dpe16_size = 4

abbrev pub hdr_size : ℕ
hdr_size = 28

-- Little-endian members, and their reading at an offset; `none` is a read past the end of the block.
abbrev pub le16 : ℕ → List ℕ → List ℕ
le16 n rest = (n % 256) ∷ (n / 256 % 256) ∷ rest

abbrev pub le32 : ℕ → List ℕ → List ℕ
le32 n rest = le16 (n % 2 ^ 16) (le16 (n / 2 ^ 16) rest)

unfoldable pub get16 : List ℕ → ℕ → Option ℕ
get16 block at = elim (get_elem? block at) [
  | none ↦ none
  | some lo ↦ elim (get_elem? block (at + 1)) [ none ↦ none | some hi ↦ some (lo + 256 * hi) ]
]

unfoldable pub get32 : List ℕ → ℕ → Option ℕ
unfolding get16
get32 block at = elim (get16 block at) [
  | none ↦ none
  | some lo ↦ elim (get16 block (at + 2)) [ none ↦ none | some hi ↦ some (lo + 2 ^ 16 * hi) ]
]

-- `cdc_mbim_tx_fixup`: the packet with a header in front. `none` is -ENOBUFS.
unfoldable pub tx_fixup : Signs → MbimCtx → ℕ → List ℕ → ℕ → MbimCtx × Option (List ℕ)
tx_fixup signs ctx headroom packet session_id =
    let skb_len = length packet in
    if ltb headroom hdr_size then (ctx, none) else (
      record ctx { tx_seq = (ctx.tx_seq + 1) % 2 ^ 16 },
      some (
          le32 signs.nth16 (
            le16 nth16_size (
              le16 ctx.tx_seq (
                le16 (skb_len + hdr_size) (
                  le16 nth16_size (
                    le32 (signs.ips % 2 ^ 24 + session_id % 256 * 2 ^ 24) (
                      le16 (ndp16_size + dpe16_size * 2)
                        (le16 0 (le16 hdr_size (le16 skb_len (le16 0 (le16 0 packet)))))))))))),
    )

-- How the loop over the entries of a table ended: by its end or a `break`, by `goto error`, or in a
-- read past the end of the block; with the packets up to then.
pub data Frames : Type 0 where
  next : List Packet → Frames
  error : List Packet → Frames
  overread : Frames

-- `skb_in->data[offset] & 0xf0`
abbrev pub protocol_of : ℕ → Option Protocol
protocol_of byte =
    if bit_and byte 0xF0 == 0x40
    then some ip
    else if bit_and byte 0xF0 == 0x60
    then some ipv6
    else none

-- How the loop over the tables ended: with the packets, in a read past the end of the block, or not
-- within the fuel.
pub data Tables : Type 0 where
  delivered : List Packet → Tables
  faulted : Tables
  running : Tables

module _ (signs : Signs) (alloc : List Packet → ℕ → Bool) (rx_max : ℕ) (block : List ℕ) where
  -- One datagram. `alloc` says whether `netdev_alloc_skb` has memory.
  unfoldable pub frame : ℕ → ℕ → List Packet → Frames
  frame offset skb_len chain =
      if ltb (length block) (offset + skb_len) || ltb rx_max skb_len
      then error chain
      else if not (alloc chain skb_len)
      then error chain
      else elim (get_elem? block offset) [
        | none ↦ overread
        | some byte ↦ elim (protocol_of byte) [
          | none ↦ error chain
          | some p ↦
              next
                (chain ++ (record { protocol = p; bytes = take skb_len (drop offset block) } ∷ []))
        ]
      ]

  -- The loop over the entries, `left` of them, from the one at `at` on.
  unfoldable pub frames : ℕ → ℕ → List Packet → Frames
  frames zero at chain = next chain
  frames (suc left) at chain = elim (get16 block at) [
    | none ↦ overread
    | some offset ↦ elim (get16 block (at + 2)) [
      | none ↦ overread
      | some skb_len ↦
          if (offset == 0) || (skb_len == 0)
          then next chain
          else elim (frame offset skb_len chain) [
            | next chain' ↦ frames left (at + dpe16_size) chain'
            | error chain' ↦ error chain'
            | overread ↦ overread
          ]
    ]
  ]

  -- `tci`; `none` is a signature that is not supported.
  abbrev pub tci_of : ℕ → Option ℕ
  tci_of sign =
      if sign % 2 ^ 24 == signs.ips
      then some (sign / 2 ^ 24)
      else if sign % 2 ^ 24 == signs.dss
      then some (sign / 2 ^ 24 + 256)
      else none

  -- The checks of a table's signature.
  abbrev pub is_session_0 : ℕ → Bool
  is_session_0 sign = elim (tci_of sign) [ none ↦ false | some tci ↦ tci == 0 ]

  -- One table: its checks, and its entries.
  unfoldable pub table : ℕ → List Packet → Frames
  table at chain =
      if ltb (length block) (at + ndp16_size) then error chain else elim (get16 block (at + 4)) [
        | none ↦ overread
        | some len ↦
            let nframes = (len - ndp16_size) / dpe16_size in
            if ltb len 0x10 || ltb (length block) (ndp16_size + nframes * dpe16_size)
            then error chain
            else elim (get32 block at) [
              | none ↦ overread
              | some sign ↦
                  if is_session_0 sign then frames nframes (at + ndp16_size) chain else error chain
            ]
      ]

  -- `while (ndpoffset > 0)`
  unfoldable pub tables : ℕ → ℕ → List Packet → Tables
  tables fuel zero chain = delivered chain
  tables zero (suc at) chain = running
  tables (suc fuel) (suc at) chain = elim (table (suc at) chain) [
    | error chain' ↦ delivered chain'
    | overread ↦ faulted
    | next chain' ↦ elim (get16 block (suc at + 6)) [
      | none ↦ faulted
      | some ndpoffset ↦ tables fuel ndpoffset chain'
    ]
  ]

-- `cdc_mbim_rx_fixup`; `fuel` bounds the number of tables.
unfoldable pub rx_fixup : Signs → (List Packet → ℕ → Bool) → ℕ → MbimCtx → List ℕ → MbimCtx × Tables
rx_fixup signs alloc fuel ctx block =
    if ltb (length block) (nth16_size + ndp16_size)
    then (ctx, delivered [])
    else elim (get32 block 0) [
      | none ↦ (ctx, faulted)
      | some sign ↦
          if not (sign == signs.nth16) then (ctx, delivered []) else elim (get16 block 8) [
            | none ↦ (ctx, faulted)
            | some len ↦ if ltb ctx.rx_max len then (ctx, delivered []) else elim (get16 block 6) [
              | none ↦ (ctx, faulted)
              | some sequence ↦
                  let ctx' = record ctx { rx_seq = (sequence + 1) % 2 ^ 16 } in
                  elim (get16 block 10) [
                    | none ↦ (ctx', faulted)
                    | some ndpoffset ↦ (ctx', tables signs alloc ctx.rx_max block fuel ndpoffset [])
                  ]
            ]
          ]
    ]
