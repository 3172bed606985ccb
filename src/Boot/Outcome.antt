-- ===== src/Boot/Outcome.antt =====
-- What `mhi_fw_load_handler` of drivers/bus/mhi/core/boot.c leaves behind: memory and firmware.
use mathlib.Core.Path.{subst}
use mhi_for_quectel_modem.Base.{
  ℕ, ◌+◌, ◌^◌, ◌<◌, min, Bool, true, false, not, ◌&&◌, ◌||◌, ◌==◌, if◌then◌else◌, Option, none,
  some, List, length, Option-cases, Bool-cases, ◌≡◌, ◌≢◌, inl, inr, refl, sym, ap, ◌∙◌, arith,
}
use mhi_for_quectel_modem.Regs.{Log, Device, alloc_coherent, free_coherent, get_firmware}
use mhi_for_quectel_modem.Pm.State.{in_error_state}
use mhi_for_quectel_modem.Ee
use mhi_for_quectel_modem.Ctrl.{Code, act}
use mhi_for_quectel_modem.Wait.{Wait}
use mhi_for_quectel_modem.Power.Suspend.{until, waiting}
use mhi_for_quectel_modem.Transition.{ready_state_transition}
use mhi_for_quectel_modem.Boot.{Region}
use mhi_for_quectel_modem.Boot.Load.{fw_load_sbl}
use mhi_for_quectel_modem.Boot.Ledger.{
  save_info-ledger, IsCalm, ready_state_transition-IsQuiet, fw_load_sbl-IsQuiet,
}
use mhi_for_quectel_modem.Boot.Handler.{
  Loader, Services, release, save_info, error_read, load_amss, after_sbl, after_ready, enter_ready,
  fill_image, load_sbl, load_image, fw_load_handler, is_sbl,
}
use mhi_for_quectel_modem.Boot.Copy.{IsCoherent}
use mhi_for_quectel_modem.Boot.Clean.{
  IsClean, Ends, same_memory, same_firmware, release-IsClean, IsClean-Ends, release-Ends,
  get_firmware-Ends,
}
use mhi_for_quectel_modem.Boot.Stages.{Code-cases, same-IsClean, fill_image-Ends}

save_info-IsClean : (dev : Device) (l : Loader) → IsClean false l (save_info dev l)
unfolding save_info
save_info-IsClean dev l =
    let e = save_info-ledger dev l in
    record {
      memory = λ buf len dma.
          omega (arith, same_memory l.ctrl.log (save_info dev l).ctrl.log e buf len dma);
      firmware = omega (arith, same_firmware l.ctrl.log (save_info dev l).ctrl.log e);
    }

save_info-keeps :
    (dev : Device) (l : Loader)
    → let l' = save_info dev l in
      (l'.fbc_image ≡ l.fbc_image)
      × (l'.seg_len ≡ l.seg_len)
      × (l'.ctrl.ee ≡ l.ctrl.ee)
      × (l'.ctrl.setup ≡ l.ctrl.setup)
unfolding save_info
save_info-keeps dev l = (refl, refl, refl, refl)

-- The end of a function that returns.
Ends-some :
    (loaded : Bool) (l : Loader) (o : Option Loader)
    → Ends loaded l o
    → (l' : Loader) × ((o ≡ some l') × IsClean loaded l l')
Ends-some loaded l none h = absurd h
Ends-some loaded l (some l') h = (l', (refl, h))

module _ (dev : Device) (wait : Wait) (k : Services) (calm : IsCalm wait)
    (law : IsCoherent k.coherent) where
  -- The memory of the boot loader's image is freed after the transfer.
  abbrev sbl_sent : ℕ → Region → Loader → Loader
  sbl_sent size r l =
      let c₁ = act (alloc_coherent r.buf size r.dma_addr) l.ctrl in
      let c₂ = (fw_load_sbl dev wait k.random c₁ k.tx_status r.dma_addr size).0 in
      record l { ctrl = act (free_coherent r.buf size r.dma_addr) c₂ }

  sbl_sent-IsClean : (size : ℕ) (r : Region) (l : Loader) → IsClean false l (sbl_sent size r l)
  sbl_sent-IsClean size r l =
      let c₁ = act (alloc_coherent r.buf size r.dma_addr) l.ctrl in
      let quiet = fw_load_sbl-IsQuiet dev wait calm k.random c₁ k.tx_status r.dma_addr size in
      let c₂ = (fw_load_sbl dev wait k.random c₁ k.tx_status r.dma_addr size).0 in
      record {
        memory = λ buf len dma. omega (arith, same_memory c₁.log c₂.log quiet.books buf len dma);
        firmware = omega (arith, same_firmware c₁.log c₂.log quiet.books);
      }

  released-Ends :
      (b : Bool) (firmware : List ℕ) (l : Loader)
      → l.fbc_image ≡ none
      → (l.ctrl.setup.fbc_download ≡ true → 0 < l.seg_len)
      → length firmware + l.seg_len < 2 ^ 31
      → Ends l.ctrl.setup.fbc_download (release b l) (fill_image dev wait k firmware (release b l))
  released-Ends true firmware l empty pos small =
      fill_image-Ends dev wait k calm law firmware (release true l) empty pos small
  released-Ends false firmware l empty pos small =
      fill_image-Ends dev wait k calm law firmware l empty pos small

  load_sbl-Ends :
      (firmware : List ℕ) (size : ℕ) (r : Region) (l : Loader)
      → l.fbc_image ≡ none
      → (l.ctrl.setup.fbc_download ≡ true → 0 < l.seg_len)
      → length firmware + l.seg_len < 2 ^ 31
      → Ends true l (load_sbl dev wait k firmware size r l)
  unfolding load_sbl
  load_sbl-Ends firmware size r l empty pos small =
      let c₁ = act (alloc_coherent r.buf size r.dma_addr) l.ctrl in
      let sent = fw_load_sbl dev wait k.random c₁ k.tx_status r.dma_addr size in
      let quiet = fw_load_sbl-IsQuiet dev wait calm k.random c₁ k.tx_status r.dma_addr size in
      let same : sent.0.setup.fbc_download ≡ l.ctrl.setup.fbc_download =
        ap (λ s. s.fbc_download) quiet.setup in
      let l₃ = sbl_sent size r l in
      let fbc = sent.0.setup.fbc_download in
      let o = load_sbl dev wait k firmware size r l in
      IsClean-Ends true l l₃ o (sbl_sent-IsClean size r l) (elim (Code-cases sent.1) [
        | inr (code, e) ↦
            let e₁ : o ≡ some (release true l₃) = ground (arith, e) in
            subst (Ends true l₃) (sym e₁) (release-IsClean true l₃)
        | inl e ↦ elim (Bool-cases (sent.0.ee == Ee.edl)) [
          | inl edl ↦
              let e₁ : o ≡ some (release true l₃) = ground (arith, e, edl) in
              subst (Ends true l₃) (sym e₁) (release-IsClean true l₃)
          | inr other ↦
              let next = fill_image dev wait k firmware (release (not fbc) l₃) in
              let e₁ : o ≡ next = ground (arith, e, other) in
              subst (Ends true l₃) (sym e₁) (
                release-Ends fbc l₃ next
                  (released-Ends (not fbc) firmware l₃ empty (λ e₂. pos (sym same ∙ e₂)) small))
        ]
      ])

  load_image-Ends :
      (l : Loader)
      → l.fbc_image ≡ none
      → ((log : Log) (name : ℕ) (firmware : List ℕ)
          → k.request_firmware log name ≡ some firmware
          → length firmware + l.seg_len < 2 ^ 31)
      → Ends false l (load_image dev wait k l)
  unfolding load_image
  load_image-Ends l empty small =
      let o = load_image dev wait k l in
      let fbc = l.ctrl.setup.fbc_download in
      let nothing = λ (e : o ≡ some l).
        subst (Ends false l) (sym e) (same-IsClean dev wait k calm false l refl) in
      elim (Option-cases (if l.ctrl.ee == Ee.edl then l.edl_image else l.fw_image)) [
        | inl e ↦ nothing (ground (arith, e))
        | inr (name, e) ↦ elim (Bool-cases (fbc && ((l.sbl_size == 0) || (l.seg_len == 0)))) [
          | inl bad ↦ nothing (ground (arith, e, bad))
          | inr good ↦ elim (Option-cases (k.request_firmware l.ctrl.log name)) [
            | inl e₁ ↦ nothing (ground (arith, e, good, e₁))
            | inr (firmware, e₁) ↦
                let l₁ = record l { ctrl = act get_firmware l.ctrl } in
                let size = min (if fbc then l.sbl_size else length firmware) (length firmware) in
                get_firmware-Ends l o (elim (Option-cases (k.coherent l₁.ctrl.log size)) [
                  | inl e₂ ↦
                      let e₃ : o ≡ some (release true l₁) = ground (arith, e, good, e₁, e₂) in
                      subst (Ends true l₁) (sym e₃) (release-IsClean true l₁)
                  | inr (r, e₂) ↦
                      let e₃ : o ≡ load_sbl dev wait k firmware size r l₁ =
                        ground (arith, e, good, e₁, e₂) in
                      subst (Ends true l₁) (sym e₃) (
                        load_sbl-Ends firmware size r l₁ empty (λ h. ground (arith, good, h))
                          (small l.ctrl.log name firmware e₁))
                ])
          ]
        ]
      ]

-- Let the controller hold no image, the device not be in PTHRU, coherent memory be given in the length
-- asked for, every firmware image with one segment more be shorter than 2 ^ 31, and the other threads
-- neither allocate coherent memory nor take firmware nor change the settings during a wait. Then
-- `mhi_fw_load_handler` returns, and accesses nothing through a null pointer nor outside the table.
-- Whatever failed on the way, all coherent memory that it allocated is freed, but for the segments of
-- the image that the controller holds at the end, and all firmware that it took is released, once.
-- (Memory from kmalloc is not counted: the array of a table that cannot be allocated is not freed.)
pub fw_load_handler-IsClean :
    (dev : Device) (wait : Wait) (k : Services) (l : Loader)
    → IsCalm wait
    → IsCoherent k.coherent
    → l.fbc_image ≡ none
    → l.ctrl.ee ≢ Ee.pthru
    → ((log : Log) (name : ℕ) (firmware : List ℕ)
        → k.request_firmware log name ≡ some firmware
        → length firmware + l.seg_len < 2 ^ 31)
    → (l' : Loader) × ((fw_load_handler dev wait k l ≡ some l') × IsClean false l l')
unfolding fw_load_handler
fw_load_handler-IsClean dev wait k l calm law empty ee small =
    let o = fw_load_handler dev wait k l in
    Ends-some false l o (elim (Bool-cases (in_error_state l.ctrl.pm_state)) [
      | inl bad ↦
          let e : o ≡ some l = ground (arith, bad) in
          subst (Ends false l) (sym e) (same-IsClean dev wait k calm false l refl)
      | inr good ↦
          let l₁ = save_info dev l in
          let kept = save_info-keeps dev l in
          let e : o ≡ load_image dev wait k l₁ = ground (arith, good, ee, kept) in
          IsClean-Ends false l l₁ o (save_info-IsClean dev l) (
            subst (Ends false l₁) (sym e) (
              load_image-Ends dev wait k calm law l₁ (kept.0 ∙ empty)
                (λ log name firmware h. omega (arith, small log name firmware h, kept.1))))
    ])

-- Without an image both ends read a null pointer.
error_read-none : (loaded : Bool) (l : Loader) → l.fbc_image ≡ none → error_read loaded l ≡ none
unfolding error_read
error_read-none loaded l e = ground (arith, e)

load_amss-none :
    (dev : Device) (wait : Wait) (k : Services) (loaded : Bool) (l : Loader)
    → l.fbc_image ≡ none
    → load_amss dev wait k loaded l ≡ none
unfolding load_amss
load_amss-none dev wait k loaded l e = ground (arith, e)

after_ready-none :
    (dev : Device) (wait : Wait) (k : Services) (loaded : Bool) (l : Loader) (ret : Code)
    → l.fbc_image ≡ none
    → l.ctrl.setup.fbc_download ≡ true
    → after_ready dev wait k loaded l ret ≡ none
unfolding after_ready after_sbl
after_ready-none dev wait k loaded l ret e fbc =
    let l' = record l { ctrl = (wait (until is_sbl) (waiting l.ctrl)).0.ctrl } in
    ground (
      arith,
      fbc,
      error_read-none loaded l e,
      error_read-none loaded l' e,
      load_amss-none dev wait k loaded l' e,
    )

-- On a device in PTHRU, with a full image to be loaded but none in the hands of the controller, where
-- the others change no setting during a wait, `mhi_fw_load_handler` always ends in an access through
-- the null pointer `fbc_image`, if the controller is not in an error state at the call.
pub fw_load_handler-pthru :
    (dev : Device) (wait : Wait) (k : Services) (l : Loader)
    → IsCalm wait
    → in_error_state l.ctrl.pm_state ≡ false
    → l.ctrl.ee ≡ Ee.pthru
    → l.ctrl.setup.fbc_download ≡ true
    → l.fbc_image ≡ none
    → fw_load_handler dev wait k l ≡ none
unfolding fw_load_handler enter_ready
fw_load_handler-pthru dev wait k l calm good ee fbc empty =
    let l₁ = save_info dev l in
    let kept = save_info-keeps dev l in
    let (c, ret) = ready_state_transition dev wait l₁.ctrl in
    let quiet = ready_state_transition-IsQuiet dev wait calm l₁.ctrl in
    let same : c.setup.fbc_download ≡ true =
      ap (λ s. s.fbc_download) quiet.setup ∙ ap (λ s. s.fbc_download) kept.3 ∙ fbc in
    ground (
      arith,
      good,
      ee,
      kept,
      after_ready-none dev wait k false (record l₁ { ctrl = c }) ret (kept.0 ∙ empty) same,
    )
