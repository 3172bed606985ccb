-- ===== src/Tre.antt =====
-- Ring elements: the packing of commands, events and transfers into the words of `struct mhi_tre`
-- (the MHI_TRE_* macros of drivers/bus/mhi/core/internal.h).
pub mod Coding
use mhi_for_quectel_modem.Base.{
  ℕ, ◌*◌, ◌/◌, ◌%◌, ◌^◌, bit_and, bit_or, Bool, true, false, if◌then◌else◌,
}
use mhi_for_quectel_modem.Base.Word.{u32, shl, shr}

-- `struct mhi_tre`.
pub record Tre : Type 0 where
  pub ptr : ℕ
  pub dword0 : ℕ
  pub dword1 : ℕ

-- `enum mhi_cmd_type`: the commands that the driver sends.
pub data Cmd : Type 0 where
  reset_chan start_chan : Cmd

abbrev pub cmd_code : Cmd → ℕ
cmd_code reset_chan = 16
cmd_code start_chan = 18

-- The element that `mhi_send_cmd` writes: MHI_TRE_CMD_RESET_* and MHI_TRE_CMD_START_*.
unfoldable pub cmd_tre : Cmd → ℕ → Tre
cmd_tre cmd chid = record {
  ptr = 0;
  dword0 = 0;
  dword1 = u32 (bit_or (shl chid 24) (shl (cmd_code cmd) 16));
}

-- One byte of a word.
abbrev byte_at : ℕ → ℕ → ℕ
byte_at word k = bit_and (shr word k) 0xFF

unfoldable pub get_cmd_chid : Tre → ℕ
get_cmd_chid tre = byte_at tre.dword1 24

unfoldable pub get_cmd_type : Tre → ℕ
get_cmd_type tre = byte_at tre.dword1 16

-- `enum mhi_pkt_type`: the types of events.
abbrev pub state_change_event : ℕ
state_change_event = 0x20

abbrev pub cmd_completion_event : ℕ
cmd_completion_event = 0x21

abbrev pub tx_event : ℕ
tx_event = 0x22

abbrev pub rsc_tx_event : ℕ
rsc_tx_event = 0x28

abbrev pub ee_event : ℕ
ee_event = 0x40

abbrev pub bw_req_event : ℕ
bw_req_event = 0x50

abbrev pub stale_event : ℕ
stale_event = 0x51

-- MHI_TRE_EV_DWORD0 and MHI_TRE_EV_DWORD1.
unfoldable pub ev_dword0 : ℕ → ℕ → ℕ
ev_dword0 code len = u32 (bit_or (shl code 24) len)

unfoldable pub ev_dword1 : ℕ → ℕ → ℕ
ev_dword1 chid type = u32 (bit_or (shl chid 24) (shl type 16))

unfoldable pub get_ev_ptr : Tre → ℕ
get_ev_ptr tre = tre.ptr

-- MHI_TRE_GET_EV_CODE, and of the same byte MHI_TRE_GET_EV_STATE and MHI_TRE_GET_EV_EXECENV.
unfoldable pub get_ev_code : Tre → ℕ
get_ev_code tre = byte_at tre.dword0 24

unfoldable pub get_ev_len : Tre → ℕ
get_ev_len tre = bit_and tre.dword0 0xFFFF

unfoldable pub get_ev_chid : Tre → ℕ
get_ev_chid tre = byte_at tre.dword1 24

unfoldable pub get_ev_type : Tre → ℕ
get_ev_type tre = byte_at tre.dword1 16

unfoldable pub get_ev_state : Tre → ℕ
get_ev_state tre = byte_at tre.dword0 24

unfoldable pub get_ev_execenv : Tre → ℕ
get_ev_execenv tre = byte_at tre.dword0 24

unfoldable pub get_ev_linkspeed : Tre → ℕ
get_ev_linkspeed tre = byte_at tre.dword1 24

unfoldable pub get_ev_linkwidth : Tre → ℕ
get_ev_linkwidth tre = bit_and tre.dword0 0xFF

unfoldable pub get_ev_cookie : Tre → ℕ
get_ev_cookie tre = u32 tre.ptr

abbrev pub max_mtu : ℕ
max_mtu = 0xFFFF

abbrev flag : Bool → ℕ
flag b = if b then 1 else 0

-- MHI_TRE_DATA_DWORD0 and MHI_TRE_DATA_DWORD1.
unfoldable pub data_dword0 : ℕ → ℕ
data_dword0 len = u32 (bit_and len max_mtu)

unfoldable pub data_dword1 : Bool → Bool → Bool → Bool → ℕ
data_dword1 bei ieot ieob chain =
    bit_or
      (bit_or (bit_or (bit_or (shl 2 16) (shl (flag bei) 10)) (shl (flag ieot) 9))
        (shl (flag ieob) 8))
      (flag chain)
