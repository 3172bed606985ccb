-- ===== src/Tre/Coding.antt =====
-- What is packed into a ring element is read back from it.
use mhi_for_quectel_modem.Base.{ℕ, ◌+◌, ◌*◌, ◌/◌, ◌%◌, ◌^◌, ◌<◌, bit_and, bit_or, ◌≡◌, arith}
use mhi_for_quectel_modem.Base.Word.{u32, bit_or-shl, bit_and_low}
use mhi_for_quectel_modem.Tre.{
  Tre, Cmd, cmd_code, reset_chan, start_chan, cmd_tre, get_cmd_chid, get_cmd_type, ev_dword0,
  ev_dword1, get_ev_code, get_ev_len, get_ev_chid, get_ev_type,
}

low_byte : (a : ℕ) → bit_and a 0xFF ≡ a % 256
low_byte a = bit_and_low 8 a

low_half : (a : ℕ) → bit_and a 0xFFFF ≡ a % 65536
low_half a = bit_and_low 16 a

-- A command element names the channel and the command that it was made for, for channel numbers of
-- one byte.
pub cmd_tre_fields :
    (cmd : Cmd) (chid : ℕ)
    → chid < 256
    → (get_cmd_chid (cmd_tre cmd chid) ≡ chid) × (get_cmd_type (cmd_tre cmd chid) ≡ cmd_code cmd)
unfolding get_cmd_chid get_cmd_type cmd_tre
cmd_tre_fields reset_chan chid h = ground (
  arith,
  bit_or-shl 24 chid 1048576 (omega arith),
  low_byte (u32 (chid * 2 ^ 24 + 1048576) / 2 ^ 24),
  low_byte (u32 (chid * 2 ^ 24 + 1048576) / 2 ^ 16),
)
cmd_tre_fields start_chan chid h = ground (
  arith,
  bit_or-shl 24 chid 1179648 (omega arith),
  low_byte (u32 (chid * 2 ^ 24 + 1179648) / 2 ^ 24),
  low_byte (u32 (chid * 2 ^ 24 + 1179648) / 2 ^ 16),
)

-- An event whose code, channel and type fit in a byte and whose length fits in 16 bits is read
-- back field by field, whatever its pointer.
pub event_fields :
    (ptr code len chid type : ℕ)
    → code < 256
    → len < 65536
    → chid < 256
    → type < 256
    → let e : Tre = record {
      ptr = ptr;
      dword0 = ev_dword0 code len;
      dword1 = ev_dword1 chid type;
    } in
      (get_ev_code e ≡ code)
      × (get_ev_len e ≡ len)
      × (get_ev_chid e ≡ chid)
      × (get_ev_type e ≡ type)
unfolding ev_dword0 ev_dword1 get_ev_code get_ev_len get_ev_chid get_ev_type
event_fields ptr code len chid type hc hl hi ht = (
  omega (
    arith,
    low_byte (u32 (bit_or (code * 2 ^ 24) len) / 2 ^ 24),
    bit_or-shl 24 code len (omega arith),
  ),
  omega (arith, low_half (u32 (bit_or (code * 2 ^ 24) len)), bit_or-shl 24 code len (omega arith)),
  omega (
    arith,
    low_byte (u32 (bit_or (chid * 2 ^ 24) (type * 2 ^ 16)) / 2 ^ 24),
    bit_or-shl 24 chid (type * 2 ^ 16) (omega arith),
  ),
  omega (
    arith,
    low_byte (u32 (bit_or (chid * 2 ^ 24) (type * 2 ^ 16)) / 2 ^ 16),
    bit_or-shl 24 chid (type * 2 ^ 16) (omega arith),
  ),
)
