-- ===== src/Boot/Load.antt =====
-- The transfer of images to the device (drivers/bus/mhi/core/boot.c): the boot loader through BHI, the
-- full image through BHIe, and the preparation of the RDDM table.
pub mod Sent
use mhi_for_quectel_modem.Base.{
  ℕ, ◌+◌, ◌-◌, Bool, true, false, not, ◌||◌, ◌==◌, if◌then◌else◌, none, some, List, [], ◌∷◌,
}
use mhi_for_quectel_modem.Base.Word.{u32}
use mhi_for_quectel_modem.Regs.{
  Log, Device, read_reg, read_reg_field, write_reg, write_reg_field, upper_32_bits, lower_32_bits,
}
use mhi_for_quectel_modem.Pm.State.{reg_access_valid, in_error_state}
use mhi_for_quectel_modem.Ctrl.{Ctrl, Code, ok, err, eio, etimedout}
use mhi_for_quectel_modem.Wait.{Waiting, Condition, Wait}
use mhi_for_quectel_modem.Transition.{waiting_with}
use mhi_for_quectel_modem.Boot.{MhiBuf, VecEntry, ImageInfo}

-- `prandom_u32_max` of the kernel: below its argument.
abbrev pub Random : Type 0
Random = Log → ℕ → ℕ

-- MHI_RANDOM_U32_NONZERO
abbrev pub random_nonzero : Random → Log → ℕ → ℕ
random_nonzero random log bmsk = u32 (random log bmsk + 1)

-- The registers of BHI.
abbrev pub bhi_imgaddr_low : ℕ
bhi_imgaddr_low = 0x08

abbrev pub bhi_imgaddr_high : ℕ
bhi_imgaddr_high = 0x0C

abbrev pub bhi_imgsize : ℕ
bhi_imgsize = 0x10

abbrev pub bhi_imgtxdb : ℕ
bhi_imgtxdb = 0x18

abbrev pub bhi_status : ℕ
bhi_status = 0x2C

abbrev pub bhi_errcode : ℕ
bhi_errcode = 0x30

abbrev pub status_error : ℕ
status_error = 3

-- The registers of BHIe.
abbrev pub txvecaddr_low : ℕ
txvecaddr_low = 0x2C

abbrev pub txvecaddr_high : ℕ
txvecaddr_high = 0x30

abbrev pub txvecsize : ℕ
txvecsize = 0x34

abbrev pub txvecdb : ℕ
txvecdb = 0x3C

abbrev pub txvecstatus : ℕ
txvecstatus = 0x44

abbrev pub rxvecaddr_low : ℕ
rxvecaddr_low = 0x60

abbrev pub rxvecaddr_high : ℕ
rxvecaddr_high = 0x64

abbrev pub rxvecsize : ℕ
rxvecsize = 0x68

abbrev pub rxvecdb : ℕ
rxvecdb = 0x70

abbrev pub rxvecstatus : ℕ
rxvecstatus = 0x78

-- The mask of a sequence number, that of a status, and its shift.
abbrev pub seqnum_mask : ℕ
seqnum_mask = 0x3FFF_FFFF

abbrev pub status_mask : ℕ
status_mask = 0xC000_0000

abbrev pub status_shift : ℕ
status_shift = 30

abbrev pub xfer_compl : ℕ
xfer_compl = 2

-- `mhi_read_reg_field(...) || status`, with the status in `out0`.
abbrev pub status_read : Device → ℕ → Condition
status_read dev addr s =
    let (log, out) = read_reg_field dev s.ctrl.log addr status_mask status_shift in
    let s' = record s { ctrl = record (s.ctrl) { log = log } } in
    elim out [ none ↦ (s', true) | some v ↦ (record s' { out0 = v }, not (v == 0)) ]

-- `MHI_PM_IN_ERROR_STATE(pm_state) || mhi_read_reg_field(...) || tx_status`
unfoldable pub sent : Device → ℕ → Condition
sent dev addr s = if in_error_state s.ctrl.pm_state then (s, true) else status_read dev addr s

-- The registers from which a failed transfer is reported, up to one that cannot be read.
unfoldable pub read_errors : Device → ℕ → Log → List ℕ → Log
unfolding read_reg
read_errors dev base log [] = log
read_errors dev base log (offset ∷ rest) =
    let (log', out) = read_reg dev log (base + offset) in
    elim out [ none ↦ log' | some val ↦ read_errors dev base log' rest ]

abbrev pub error_reg : List ℕ
error_reg = bhi_errcode ∷ 0x34 ∷ 0x38 ∷ 0x3C ∷ []

-- The registers that start a transfer through BHI, and through BHIe.
unfoldable pub start_sbl : Ctrl → ℕ → ℕ → ℕ → Log
unfolding write_reg
start_sbl c session dma_addr size =
    let log₁ = write_reg c.log (c.bhi + bhi_status) 0 in
    let log₂ = write_reg log₁ (c.bhi + bhi_imgaddr_high) (upper_32_bits dma_addr) in
    let log₃ = write_reg log₂ (c.bhi + bhi_imgaddr_low) (lower_32_bits dma_addr) in
    let log₄ = write_reg log₃ (c.bhi + bhi_imgsize) (u32 size) in
    write_reg log₄ (c.bhi + bhi_imgtxdb) session

unfoldable pub start_amss : Device → Ctrl → ℕ → MhiBuf → Log
unfolding write_reg write_reg_field
start_amss dev c sequence m =
    let base = c.setup.bhie in
    let log₁ = write_reg c.log (base + txvecaddr_high) (upper_32_bits m.dma_addr) in
    let log₂ = write_reg log₁ (base + txvecaddr_low) (lower_32_bits m.dma_addr) in
    let log₃ = write_reg log₂ (base + txvecsize) (u32 m.len) in
    write_reg_field dev log₃ (base + txvecdb) seqnum_mask 0 sequence

module _ (dev : Device) (wait : Wait) (random : Random) where
  -- What `mhi_fw_load_sbl` makes of the end of the wait; `base` is `bhi` at the call.
  unfoldable pub sbl_result : ℕ → Waiting × ℕ → Ctrl × Code
  sbl_result base (s, ret) =
      if in_error_state s.ctrl.pm_state
      then (s.ctrl, err eio)
      else if s.out0 == status_error
      then (
        if reg_access_valid s.ctrl.pm_state
            then record (s.ctrl) { log = read_errors dev base s.ctrl.log error_reg }
            else s.ctrl,
        err eio,
      )
      else (s.ctrl, if ret == 0 then err etimedout else ok)

  -- `mhi_fw_load_sbl`; `tx_status` is what the local holds before it is assigned.
  unfoldable pub fw_load_sbl : Ctrl → ℕ → ℕ → ℕ → Ctrl × Code
  fw_load_sbl c tx_status dma_addr size =
      if not (reg_access_valid c.pm_state)
      then (c, err eio)
      else (let session = random_nonzero random c.log seqnum_mask in
          sbl_result c.bhi (
            wait (sent dev (c.bhi + bhi_status))
              (waiting_with (record c { log = start_sbl c session dma_addr size }) tx_status 0)))

  -- What `mhi_fw_load_amss` makes of the end of the wait.
  unfoldable pub amss_result : Waiting × ℕ → Ctrl × Code
  amss_result (s, ret) =
      if in_error_state s.ctrl.pm_state || not (s.out0 == xfer_compl)
      then (s.ctrl, err eio)
      else (s.ctrl, if ret == 0 then err etimedout else ok)

  -- `mhi_fw_load_amss`
  unfoldable pub fw_load_amss : Ctrl → ℕ → MhiBuf → Ctrl × Code
  fw_load_amss c tx_status m =
      if not (reg_access_valid c.pm_state)
      then (c, err eio)
      else (let sequence = random_nonzero random c.log seqnum_mask in
          amss_result (
            wait (sent dev (c.setup.bhie + txvecstatus))
              (waiting_with (record c { log = start_amss dev c sequence m }) tx_status 0)))
