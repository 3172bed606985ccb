-- ===== src/Boot/Rddm.antt =====
-- The download of the device's memory after a crash, RDDM (drivers/bus/mhi/core/boot.c).
pub mod Polls
use mhi_for_quectel_modem.Base.{
  ℕ, zero, suc, ◌+◌, ◌-◌, ◌*◌, ◌/◌, Bool, true, false, not, ◌||◌, Option, none, some, List, [], ◌∷◌,
  ◌++◌, ◌==◌, if◌then◌else◌,
}
use mhi_for_quectel_modem.Base.Word.{u32}
use mhi_for_quectel_modem.Regs.{
  Log, Device, read_reg, read_reg_field, write_reg, write_reg_field, upper_32_bits, lower_32_bits,
}
use mhi_for_quectel_modem.Pm.State.{ld_err_fatal_detect}
use mhi_for_quectel_modem.DevState
use mhi_for_quectel_modem.Ee
use mhi_for_quectel_modem.Ctrl.{Ctrl, Code, ok, err, eio}
use mhi_for_quectel_modem.Wait.{Wait}
use mhi_for_quectel_modem.Power.{set_mhi_state, get_exec_env}
use mhi_for_quectel_modem.Transition.{waiting_with}
use mhi_for_quectel_modem.Boot.{MhiBuf, VecEntry, ImageInfo}
use mhi_for_quectel_modem.Boot.Load.{
  Random, random_nonzero, status_read, rxvecaddr_low, rxvecaddr_high, rxvecsize, rxvecdb,
  rxvecstatus, seqnum_mask, status_mask, status_shift, xfer_compl,
}

-- The loop of `mhi_rddm_prepare`: the table's entries, and the segment after the last of them.
unfoldable pub fill_table : ℕ → List MhiBuf → List VecEntry → Option (List VecEntry × MhiBuf)
fill_table zero [] vec = none
fill_table zero (m ∷ ms) vec = some (vec, m)
fill_table (suc n) [] vec = none
fill_table (suc n) (m ∷ ms) [] = none
fill_table (suc n) (m ∷ ms) (v ∷ vec) = elim (fill_table n ms vec) [
  | none ↦ none
  | some (vec', last) ↦ some (record { dma_addr = m.dma_addr; size = m.len } ∷ vec', last)
]

-- `mhi_rddm_prepare`. `none` is a write past the end of the table.
unfoldable pub rddm_prepare : Device → Random → Ctrl → ImageInfo → Option (Ctrl × ImageInfo)
unfolding write_reg write_reg_field
rddm_prepare dev random c image =
    elim (fill_table (image.entries - 1) image.mhi_buf image.bhi_vec) [
      | none ↦ none
      | some (vec, m) ↦
          let base = c.setup.bhie in
          let log₁ = write_reg c.log (base + rxvecaddr_high) (upper_32_bits m.dma_addr) in
          let log₂ = write_reg log₁ (base + rxvecaddr_low) (lower_32_bits m.dma_addr) in
          let log₃ = write_reg log₂ (base + rxvecsize) (u32 m.len) in
          let sequence = random_nonzero random log₃ seqnum_mask in
          some (
            record c { log = write_reg_field dev log₃ (base + rxvecdb) seqnum_mask 0 sequence },
            record image { bhi_vec = vec },
          )
    ]

-- MHI_SOC_RESET_REQ_OFFSET
abbrev pub soc_reset_req_offset : ℕ
soc_reset_req_offset = 0xB0

-- `delayus`, and the rounds of the wait for RDDM, `rddm_timeout_us / delayus`.
abbrev pub delayus : ℕ
delayus = 2000

abbrev pub rddm_rounds : ℕ
rddm_rounds = 200_000 / delayus

module _ (dev : Device) where
  -- `while (rddm_retry--)`: with what is left in `rddm_retry` where the device was found in RDDM,
  -- `none` where it was not (`rddm_retry` is -1).
  unfoldable pub poll_rddm : ℕ → Ctrl → Ctrl × Option ℕ
  poll_rddm zero c = (c, none)
  poll_rddm (suc rddm_retry) c =
      let (c₁, ee) = get_exec_env dev c in
      let rest = poll_rddm rddm_retry c₁ in if ee == Ee.rddm then (c₁, some rddm_retry) else rest

  -- `rddm_retry <= 0`
  abbrev pub gave_up : Option ℕ → Bool
  gave_up none = true
  gave_up (some rddm_retry) = rddm_retry == 0

  -- The part for a device that is not in RDDM.
  unfoldable pub trigger_rddm : Ctrl → Ctrl
  unfolding write_reg
  trigger_rddm c =
      let (c₁, left) = poll_rddm rddm_rounds (set_mhi_state dev c DevState.sys_err) in
      let c₂ =
        if gave_up left
        then record c₁ { log = write_reg c₁.log (c₁.regs + soc_reset_req_offset) 1 }
        else c₁ in
      (get_exec_env dev c₂).0

  -- `while (retry--)`, and the reads after it.
  unfoldable pub poll_image : ℕ → Ctrl → Ctrl × Code
  unfolding read_reg
  poll_image zero c =
      let (c₁, _) = get_exec_env dev c in
      (record c₁ { log = (read_reg dev c₁.log (c₁.setup.bhie + rxvecstatus)).0 }, err eio)
  poll_image (suc retry) c =
      let (log, out) =
        read_reg_field dev c.log (c.setup.bhie + rxvecstatus) status_mask status_shift in
      let c₁ = record c { log = log } in
      let rest = poll_image retry c₁ in
      elim out [
        | none ↦ (c₁, err eio)
        | some rx_status ↦ if rx_status == xfer_compl then (c₁, ok) else rest
      ]

  -- `__mhi_download_rddm_in_panic`
  unfoldable pub download_rddm_in_panic : Ctrl → ℕ → Ctrl × Code
  download_rddm_in_panic c timeout_ms =
      let retry = u32 (timeout_ms * 1000) / delayus in
      let (c₁, ee) = get_exec_env dev (record c { pm_state = ld_err_fatal_detect }) in
      poll_image retry (if not (ee == Ee.rddm) then trigger_rddm c₁ else c₁)

-- `mhi_download_rddm_img`; `rx_status` is what the local holds before it is assigned.
unfoldable pub download_rddm_img : Device → Wait → Ctrl → ℕ → ℕ → Bool → Ctrl × Code
download_rddm_img dev wait c timeout_ms rx_status in_panic =
    if in_panic
    then download_rddm_in_panic dev c timeout_ms
    else (let (s, _) =
          wait (status_read dev (c.setup.bhie + rxvecstatus)) (waiting_with c rx_status 0) in
        (s.ctrl, if s.out0 == xfer_compl then ok else err eio))
