-- ===== src/Tests/FirmwareRuns.antt =====
-- Firmware loading.
use mhi_for_quectel_modem.Base.{
  ℕ, ◌+◌, ◌/◌, ◌^◌, ◌<◌, false, ◌==◌, if◌then◌else◌, none, some, List, [], ◌∷◌, length, replicate,
  length-replicate, ◌≡◌, ◌⊎◌, ◌↔◌, refl, arith, some-injective,
}
use mathlib.Core.Path.{subst}
use mhi_for_quectel_modem.Regs.{Log, Device, read, write, read_reg_field}
use mhi_for_quectel_modem.Pm.State.{por, in_error_state}
use mhi_for_quectel_modem.DevState
use mhi_for_quectel_modem.Ctrl.{Ctrl, ok}
use mhi_for_quectel_modem.Wait.{Wait}
use mhi_for_quectel_modem.Power.{bhi_execenv, set_mhi_state}
use mhi_for_quectel_modem.Channel.{Memory}
use mhi_for_quectel_modem.Boot.{
  MhiBuf, VecEntry, ImageInfo, Region, Coherent, alloc_bhie_table, firmware_copy,
}
use mhi_for_quectel_modem.Boot.Load.{
  Random, status_error, xfer_compl, bhi_status, txvecstatus, rxvecstatus, fw_load_sbl, fw_load_amss,
}
use mhi_for_quectel_modem.Boot.Load.Sent.{Reports, fw_load_amss_ok}
use mhi_for_quectel_modem.Boot.Held.{among}
use mhi_for_quectel_modem.Boot.Copy.{device_reads, IsCoherent}
use mhi_for_quectel_modem.Boot.Image.{alloc-firmware_copy}
use mhi_for_quectel_modem.Boot.Ledger.{IsCalm}
use mhi_for_quectel_modem.Boot.Clean.{IsClean}
use mhi_for_quectel_modem.Boot.Handler.{Loader, Services, fw_load_handler}
use mhi_for_quectel_modem.Boot.Outcome.{fw_load_handler-IsClean, fw_load_handler-pthru}
use mhi_for_quectel_modem.Boot.Rddm.{
  poll_rddm, trigger_rddm, rddm_rounds, soc_reset_req_offset, poll_image,
}
use mhi_for_quectel_modem.Boot.Rddm.Polls.{Completes, SeenInTime, poll_image_iff, trigger_rddm_lem}
use mhi_for_quectel_modem.Power.Suspend.Cycle.{answered, answered-IsWait}
use mhi_for_quectel_modem.Tests.Data.{served}

abbrev zero_entry : VecEntry
zero_entry = record { dma_addr = 0; size = 0 }

-- Memory that is never short.
abbrev plenty : Coherent
plenty log len = some (record {
  buf = 100 + length log;
  dma_addr = 9000 + length log;
  bytes = replicate len 0;
  vec = replicate (len / 16) zero_entry;
})

plenty-IsCoherent : IsCoherent plenty
plenty-IsCoherent log len r e =
    subst (λ (t : Region). (length t.bytes ≡ len) × (length t.vec ≡ len / 16))
      (some-injective _ r e) (length-replicate len 0, length-replicate (len / 16) zero_entry)

abbrev small_memory : Memory
small_memory log len = some 7

abbrev firmware : List ℕ
firmware = 11 ∷ 22 ∷ 33 ∷ 44 ∷ 55 ∷ []

abbrev segment : ℕ → ℕ → MhiBuf
segment n len = record { buf = 100 + n; dma_addr = 9000 + n; len = len; bytes = replicate len 0 }

abbrev image : ImageInfo
image = record {
  at = 7;
  array = 7;
  mhi_buf = segment 2 2 ∷ segment 3 2 ∷ segment 4 2 ∷ segment 5 48 ∷ [];
  bhi_vec = zero_entry ∷ zero_entry ∷ zero_entry ∷ [];
  entries = 4;
}

image_runs : (alloc_bhie_table plenty small_memory [] 2 5).2 ≡ some image
unfolding alloc_bhie_table
image_runs = refl

alloc-firmware_copy_example :
    (image' : ImageInfo) × ((firmware_copy firmware image ≡ some image')
      × (device_reads image'.mhi_buf image'.bhi_vec ≡ some firmware)
      × (image'.entries ≡ length image'.bhi_vec + 1)
      × (image'.entries ≡ length image'.mhi_buf)
      × ((buf len dma : ℕ) → among buf len dma image'.mhi_buf ≡ among buf len dma image.mhi_buf))
alloc-firmware_copy_example =
    alloc-firmware_copy plenty small_memory [] 2 firmware image plenty-IsCoherent (omega arith)
      (omega arith) (omega arith) image_runs

-- A device in its boot loader that says that every transfer is complete.
abbrev done : Device
done log addr = some 0x8000_0000

abbrev random : Random
random log bmsk = 3

-- A wait after which the boot loader runs, and what it looks for has happened.
abbrev happens : Wait
happens cond s = (
  record s { ctrl = record (s.ctrl) { ee = 1 }; out0 = if s.out0 == 1 then 0 else 2; out1 = 1 },
  1,
)

happens-IsCalm : IsCalm happens
happens-IsCalm cond s = record { books = refl; setup = refl }

abbrev services : Services
services = record {
  coherent = plenty;
  memory = small_memory;
  random = random;
  request_firmware = λ log name. some firmware;
  tx_status = 5;
}

abbrev loader : ℕ → Loader
loader ee = record {
  ctrl = record served { pm_state = por; ee = ee };
  serial_number = 0;
  oem_pk_hash = 0 ∷ 0 ∷ [];
  edl_image = none;
  fw_image = some 1;
  sbl_size = 4;
  seg_len = 2;
  fbc_image = none;
}

firmware_small :
    (log : Log) (name : ℕ) (fw : List ℕ) → some firmware ≡ some fw → length fw + 2 < 2 ^ 31
firmware_small log name fw e = rw (← some-injective firmware fw e) (omega arith)

fw_load_handler-IsClean_example :
    (l' : Loader) × ((fw_load_handler done happens services (loader 0) ≡ some l')
      × IsClean false (loader 0) l')
fw_load_handler-IsClean_example =
    fw_load_handler-IsClean done happens services (loader 0) happens-IsCalm plenty-IsCoherent refl
      (omega arith) firmware_small

fw_load_handler-pthru_example : fw_load_handler done happens services (loader 5) ≡ none
fw_load_handler-pthru_example =
    fw_load_handler-pthru done happens services (loader 5) happens-IsCalm refl refl refl refl

abbrev ctrl : Ctrl
ctrl = (loader 0).ctrl

amss_runs : (fw_load_amss done answered random ctrl 5 (segment 5 48)).1 ≡ ok
unfolding fw_load_amss mhi_for_quectel_modem.Boot.Load.amss_result answered
    mhi_for_quectel_modem.Boot.Load.sent read_reg_field
amss_runs = refl

fw_load_amss_ok_example :
    let c' = (fw_load_amss done answered random ctrl 5 (segment 5 48)).0 in
    (in_error_state c'.pm_state ≡ false)
    × Reports done (ctrl.setup.bhie + txvecstatus) xfer_compl c'.log
fw_load_amss_ok_example =
    fw_load_amss_ok done answered random answered-IsWait ctrl 5 (segment 5 48)
      (λ log. (0x8000_0000, refl)) amss_runs

sbl_runs : (fw_load_sbl done answered random ctrl 5 9000 4).1 ≡ ok
unfolding fw_load_sbl mhi_for_quectel_modem.Boot.Load.sbl_result answered
    mhi_for_quectel_modem.Boot.Load.sent read_reg_field
sbl_runs = refl

poll_image_iff_example :
    ((poll_image done 3 ctrl).1 ≡ ok)
    ↔ ((j : ℕ) × ((j < 3) × Completes done (ctrl.setup.bhie + rxvecstatus) j ctrl.log))
poll_image_iff_example = poll_image_iff done 3 ctrl

-- A device that is in RDDM.
abbrev dead : Device
dead log addr = some 3

trigger_rddm_lem_example :
    let c₁ = set_mhi_state dead ctrl DevState.sys_err in
    let polls = (poll_rddm dead rddm_rounds c₁).0.log in
    let log = (trigger_rddm dead ctrl).log in
    let at = (poll_rddm dead rddm_rounds c₁).0 in
    let last = read (at.bhi + bhi_execenv) in
    (SeenInTime dead c₁ × (log ≡ last ∷ polls))
    ⊎ (¬ SeenInTime dead c₁ × (log ≡ last ∷ write (at.regs + soc_reset_req_offset) 1 ∷ polls))
trigger_rddm_lem_example = trigger_rddm_lem dead ctrl
