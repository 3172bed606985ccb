-- ===== src/Boot/Stages.antt =====
-- The later stages of `mhi_fw_load_handler` of drivers/bus/mhi/core/boot.c: from the table of the
-- full image to its transfer.
use mathlib.Core.Path.{subst}
use mhi_for_quectel_modem.Base.{
  ℕ, zero, suc, ◌+◌, ◌-◌, ◌^◌, ◌<◌, Bool, true, false, ◌||◌, ◌==◌, none, some, List, [], ◌∷◌,
  length, get_elem?, Option-cases, Bool-cases, ◌≡◌, ◌⊎◌, inl, inr, refl, sym, ap, ◌∙◌, arith,
}
use mhi_for_quectel_modem.Regs.{Device}
use mhi_for_quectel_modem.Pm.State.{in_error_state}
use mhi_for_quectel_modem.DevState
use mhi_for_quectel_modem.Ctrl.{Code, ok, err}
use mhi_for_quectel_modem.Wait.{Wait}
use mhi_for_quectel_modem.Power.Suspend.{until, waiting}
use mhi_for_quectel_modem.Transition.{ready_state_transition}
use mhi_for_quectel_modem.Boot.{MhiBuf, ImageInfo, alloc_bhie_table, div_round_up}
use mhi_for_quectel_modem.Boot.Load.{fw_load_amss}
use mhi_for_quectel_modem.Boot.Held.{among}
use mhi_for_quectel_modem.Boot.Table.{held_by, alloc_bhie_table-Gains}
use mhi_for_quectel_modem.Boot.Ledger.{IsCalm, ready_state_transition-IsQuiet, fw_load_amss-IsQuiet}
use mhi_for_quectel_modem.Boot.Handler.{
  Loader, Services, release, with_log, error_read, load_amss, after_sbl, after_ready, enter_ready,
  fill_image, is_sbl,
}
use mhi_for_quectel_modem.Boot.Copy.{IsCoherent}
use mhi_for_quectel_modem.Boot.Image.{alloc-firmware_copy, div_round_up_bounds}
use mhi_for_quectel_modem.Boot.Clean.{
  IsClean, due, Ends, IsQuiet-Ends, release-IsClean, error_read-Ends, alloc_bhie_table-firmware,
  IsClean-Ends,
}

-- If the full image is loaded, there is a table, with a segment at which the device is pointed.
abbrev IsReady : Loader → Type 0
IsReady l =
    l.ctrl.setup.fbc_download ≡ true
    → (image : ImageInfo) × ((l.fbc_image ≡ some image)
        × ((m : MhiBuf) × (get_elem? image.mhi_buf (image.entries - 1) ≡ some m)))

pub Code-cases : (r : Code) → (r ≡ ok) ⊎ ((e : _) × (r ≡ err e))
Code-cases ok = inl refl
Code-cases (err e) = inr (e, refl)

get_elem?-lt {ℓ} :
    {A : Type ℓ} (xs : List A) (i : ℕ) → i < length xs → (x : A) × (get_elem? xs i ≡ some x)
get_elem?-lt [] i h = absurd (omega arith)
get_elem?-lt (x ∷ xs) zero h = (x, refl)
get_elem?-lt (x ∷ xs) (suc i) h = get_elem?-lt xs i (omega arith)

last_segment :
    (ms : List MhiBuf) (entries : ℕ)
    → 0 < entries
    → entries ≡ length ms
    → (m : MhiBuf) × (get_elem? ms (entries - 1) ≡ some m)
last_segment ms entries pos e = get_elem?-lt ms (entries - 1) (omega (arith, e))

module _ (dev : Device) (wait : Wait) (k : Services) (calm : IsCalm wait) where
  load_amss-some :
      (loaded : Bool) (l : Loader) (image : ImageInfo) (m : MhiBuf)
      → l.fbc_image ≡ some image
      → get_elem? image.mhi_buf (image.entries - 1) ≡ some m
      → load_amss dev wait k loaded l
        ≡ some (
            release loaded
              (record l { ctrl = (fw_load_amss dev wait k.random l.ctrl k.tx_status m).0 }))
  unfolding load_amss
  load_amss-some loaded l image m e at = ground (arith, e, at)

  load_amss-Ends :
      (loaded : Bool) (l : Loader) (image : ImageInfo) (m : MhiBuf)
      → l.fbc_image ≡ some image
      → get_elem? image.mhi_buf (image.entries - 1) ≡ some m
      → Ends loaded l (load_amss dev wait k loaded l)
  load_amss-Ends loaded l image m e at =
      let c = (fw_load_amss dev wait k.random l.ctrl k.tx_status m).0 in
      subst (Ends loaded l) (sym (load_amss-some loaded l image m e at)) (
        IsQuiet-Ends loaded l c (some (release loaded (record l { ctrl = c })))
          (fw_load_amss-IsQuiet dev wait calm k.random l.ctrl k.tx_status m)
          (release-IsClean loaded (record l { ctrl = c })))

  after_sbl-Ends :
      (loaded : Bool) (l : Loader) (left : ℕ) (image : ImageInfo) (m : MhiBuf)
      → l.fbc_image ≡ some image
      → get_elem? image.mhi_buf (image.entries - 1) ≡ some m
      → Ends loaded l (after_sbl dev wait k loaded l left)
  unfolding after_sbl
  after_sbl-Ends loaded l left image m e at =
      elim (Bool-cases ((left == 0) || in_error_state l.ctrl.pm_state)) [
        | inl bad ↦
            let e₁ : after_sbl dev wait k loaded l left ≡ error_read loaded l =
              ground (arith, bad) in
            subst (Ends loaded l) (sym e₁) (error_read-Ends loaded image l e)
        | inr good ↦
            let e₁ : after_sbl dev wait k loaded l left ≡ load_amss dev wait k loaded l =
              ground (arith, good) in
            subst (Ends loaded l) (sym e₁) (load_amss-Ends loaded l image m e at)
      ]

  -- A plain end, of a function that owes nothing.
  pub same-IsClean : (loaded : Bool) (l : Loader) → loaded ≡ false → IsClean loaded l l
  same-IsClean loaded l e = record {
    memory = λ buf len dma. refl;
    firmware = omega (arith, ap due e);
  }

  after_ready-Ends :
      (loaded : Bool) (l : Loader) (ret : Code)
      → IsReady l
      → (loaded ≡ true → l.ctrl.setup.fbc_download ≡ true)
      → Ends loaded l (after_ready dev wait k loaded l ret)
  unfolding after_ready
  after_ready-Ends loaded l ret ready needs = elim (Bool-cases l.ctrl.setup.fbc_download) [
    | inr plain ↦
        let e : after_ready dev wait k loaded l ret ≡ some l = ground (arith, plain) in
        subst (Ends loaded l) (sym e) (same-IsClean loaded l (ground (arith, needs, plain)))
    | inl fbc ↦
        let (image, (e, (m, at))) = ready fbc in
        elim (Code-cases ret) [
          | inr (code, failed) ↦
              let e₁ : after_ready dev wait k loaded l ret ≡ error_read loaded l =
                ground (arith, fbc, failed) in
              subst (Ends loaded l) (sym e₁) (error_read-Ends loaded image l e)
          | inl done ↦
              let (s, left) = wait (until is_sbl) (waiting l.ctrl) in
              let l₁ = record l { ctrl = s.ctrl } in
              let e₁ : after_ready dev wait k loaded l ret ≡ after_sbl dev wait k loaded l₁ left =
                ground (arith, fbc, done) in
              IsQuiet-Ends loaded l (s.ctrl) (after_ready dev wait k loaded l ret)
                (calm (until is_sbl) (waiting l.ctrl))
                (subst (Ends loaded l₁) (sym e₁) (after_sbl-Ends loaded l₁ left image m e at))
        ]
  ]

  enter_ready-Ends :
      (loaded : Bool) (l : Loader)
      → IsReady l
      → (loaded ≡ true → l.ctrl.setup.fbc_download ≡ true)
      → Ends loaded l (enter_ready dev wait k loaded l)
  unfolding enter_ready
  enter_ready-Ends loaded l ready needs =
      let (c, ret) = ready_state_transition dev wait l.ctrl in
      let quiet = ready_state_transition-IsQuiet dev wait calm l.ctrl in
      let same : c.setup.fbc_download ≡ l.ctrl.setup.fbc_download =
        ap (λ s. s.fbc_download) quiet.setup in
      IsQuiet-Ends loaded l c (enter_ready dev wait k loaded l) quiet (
        after_ready-Ends loaded (record l { ctrl = c }) ret (λ fbc. ready (sym same ∙ fbc))
          (λ e. same ∙ needs e))

  few_segments : (n seg : ℕ) → 0 < seg → n + seg < 2 ^ 31 → div_round_up n seg + 1 < 2 ^ 31
  few_segments n seg pos small = grind (arith, div_round_up_bounds n seg pos (omega arith))

  -- The state in which the device is left by the boot loader.
  abbrev after_reset : Loader → Loader
  after_reset l = record l { ctrl = record (l.ctrl) { dev_state = DevState.reset } }

  -- A table that was allocated and filled, in the hands of the controller.
  held-IsClean :
      (l : Loader) (seg_size size : ℕ) (image image' : ImageInfo)
      → let r = alloc_bhie_table k.coherent k.memory l.ctrl.log seg_size size in
        l.fbc_image ≡ none
        → r.2 ≡ some image
        → ((buf len dma : ℕ) → among buf len dma image'.mhi_buf ≡ among buf len dma image.mhi_buf)
        → IsClean false l (record (with_log r.0 (after_reset l)) { fbc_image = some image' })
  held-IsClean l seg_size size image image' empty e same = record {
    memory = λ buf len dma. omega (
      arith,
      ap (λ o. among buf len dma (held_by o)) empty,
      ap (λ o. among buf len dma (held_by o)) e,
      same buf len dma,
      alloc_bhie_table-Gains k.coherent k.memory l.ctrl.log seg_size size buf len dma,
    );
    firmware =
        omega (arith, alloc_bhie_table-firmware k.coherent k.memory l.ctrl.log seg_size size);
  }

  -- No table could be allocated.
  refused-IsClean :
      (l : Loader) (seg_size size : ℕ)
      → let r = alloc_bhie_table k.coherent k.memory l.ctrl.log seg_size size in
        r.2 ≡ none → IsClean false l (with_log r.0 (after_reset l))
  refused-IsClean l seg_size size e = record {
    memory = λ buf len dma. omega (
      arith,
      ap (λ o. among buf len dma (held_by o)) e,
      alloc_bhie_table-Gains k.coherent k.memory l.ctrl.log seg_size size buf len dma,
    );
    firmware =
        omega (arith, alloc_bhie_table-firmware k.coherent k.memory l.ctrl.log seg_size size);
  }

  module _ (law : IsCoherent k.coherent) where
    fill_table-Ends :
        (firmware : List ℕ) (l : Loader)
        → l.fbc_image ≡ none
        → l.ctrl.setup.fbc_download ≡ true
        → 0 < l.seg_len
        → length firmware + l.seg_len < 2 ^ 31
        → Ends true l (fill_image dev wait k firmware l)
    unfolding fill_image
    fill_table-Ends firmware l empty fbc pos small =
        let r = alloc_bhie_table k.coherent k.memory l.ctrl.log l.seg_len (length firmware) in
        elim (Option-cases r.2) [
          | inl e ↦
              let out = with_log r.0 (after_reset l) in
              let e₁ : fill_image dev wait k firmware l ≡ some (release true out) =
                ground (arith, fbc, e) in
              IsClean-Ends true l out (fill_image dev wait k firmware l)
                (refused-IsClean l l.seg_len (length firmware) e)
                (subst (Ends true out) (sym e₁) (release-IsClean true out))
          | inr (image, e) ↦
              let (image', filled) =
                alloc-firmware_copy k.coherent k.memory l.ctrl.log l.seg_len firmware image law pos
                  (omega arith) (few_segments (length firmware) l.seg_len pos small) e in
              let out = record (with_log r.0 (after_reset l)) { fbc_image = some image' } in
              let e₁ : fill_image dev wait k firmware l ≡ enter_ready dev wait k true out =
                ground (arith, fbc, e, filled.0) in
              IsClean-Ends true l out (fill_image dev wait k firmware l)
                (held-IsClean l l.seg_len (length firmware) image image' empty e filled.4)
                (subst (Ends true out) (sym e₁) (
                  enter_ready-Ends true out
                    (λ _. (
                      image',
                      (
                        refl,
                        last_segment image'.mhi_buf image'.entries (omega (arith, filled.2))
                            filled.3,
                      ),
                    ))
                    (λ _. fbc)))
        ]

    pub fill_image-Ends :
        (firmware : List ℕ) (l : Loader)
        → l.fbc_image ≡ none
        → (l.ctrl.setup.fbc_download ≡ true → 0 < l.seg_len)
        → length firmware + l.seg_len < 2 ^ 31
        → Ends l.ctrl.setup.fbc_download l (fill_image dev wait k firmware l)
    unfolding fill_image
    fill_image-Ends firmware l empty pos small = elim (Bool-cases l.ctrl.setup.fbc_download) [
      | inl fbc ↦
          subst (λ b. Ends b l (fill_image dev wait k firmware l)) (sym fbc)
            (fill_table-Ends firmware l empty fbc (pos fbc) small)
      | inr plain ↦
          let e : fill_image dev wait k firmware l ≡ enter_ready dev wait k false (after_reset l) =
            ground (arith, plain) in
          subst (λ b. Ends b l (fill_image dev wait k firmware l)) (sym plain)
            (subst (Ends false l) (sym e) (
              IsClean-Ends false l (after_reset l) (enter_ready dev wait k false (after_reset l))
                (record { memory = λ buf len dma. refl; firmware = omega arith })
                (enter_ready-Ends false (after_reset l) (λ fbc. absurd (ground (arith, plain, fbc)))
                  (λ e₁. absurd (ground (arith, e₁))))))
    ]
