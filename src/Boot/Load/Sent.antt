-- ===== src/Boot/Load/Sent.antt =====
-- What the results of the image transfers of drivers/bus/mhi/core/boot.c mean.
use mhi_for_quectel_modem.Base.{
  ℕ, ◌+◌, true, false, ◌∷◌, some, Bool-cases, ◌≡◌, ◌≢◌, inl, inr, sym, ap, ◌∙◌, arith,
}
use mathlib.Core.Path.{subst}
use mhi_for_quectel_modem.Regs.{Log, Device, read, read_reg_field}
use mhi_for_quectel_modem.Pm.State.{in_error_state}
use mhi_for_quectel_modem.Ctrl.{Ctrl, ok}
use mhi_for_quectel_modem.Wait.{Waiting, Wait, IsWait}
use mhi_for_quectel_modem.Transition.{waiting_with}
use mhi_for_quectel_modem.Boot.{MhiBuf}
use mhi_for_quectel_modem.Boot.Load.{
  Random, random_nonzero, seqnum_mask, status_mask, status_shift, status_error, xfer_compl,
  bhi_status, txvecstatus, sent, start_sbl, start_amss, sbl_result, fw_load_sbl, amss_result,
  fw_load_amss,
}

-- That the log ends with a read of the status register, which gave `status`.
abbrev pub Reports : Device → ℕ → ℕ → Log → Type 0
Reports dev addr status log =
    (log₀ : Log) × ((log ≡ read addr ∷ log₀)
      × (read_reg_field dev log₀ addr status_mask status_shift ≡ (log, some status)))

-- A register that can be read.
abbrev pub Readable : Device → ℕ → Type 0
Readable dev addr = (log : Log) → (x : ℕ) × (dev log addr ≡ some x)

-- What one evaluation of the condition that gives true leaves, out of an error state.
sent-true :
    (dev : Device) (addr : ℕ) (t s : Waiting)
    → Readable dev addr
    → sent dev addr t ≡ (s, true)
    → in_error_state s.ctrl.pm_state ≡ false
    → Reports dev addr s.out0 s.ctrl.log × (s.out0 ≢ 0)
unfolding sent read_reg_field
sent-true dev addr t s readable e good = elim (Bool-cases (in_error_state t.ctrl.pm_state)) [
  | inl bad ↦ absurd (ground (arith, e, bad, good))
  | inr fine ↦
      let (x, r) = readable t.ctrl.log in
      (
        (t.ctrl.log, (ground (arith, e, fine, r), ground (arith, e, fine, r))),
        λ zero_status. ground (arith, e, fine, r, zero_status),
      )
]

module _ (dev : Device) (wait : Wait) (random : Random) (law : IsWait wait) where
  -- After a wait that did not time out, out of an error state.
  waited :
      (addr : ℕ) (s : Waiting)
      → Readable dev addr
      → let (s', ret) = wait (sent dev addr) s in
        ret ≢ 0
        → in_error_state s'.ctrl.pm_state ≡ false
        → Reports dev addr s'.out0 s'.ctrl.log × (s'.out0 ≢ 0)
  waited addr s readable some_left good =
      let (t, e) = law (sent dev addr) s in
      let (s', ret) = wait (sent dev addr) s in
      sent-true dev addr t s' readable (e ∙ ap (λ b. (s', b)) (ground (arith, some_left))) good

  amss_result_ok :
      (s : Waiting) (ret : ℕ)
      → (amss_result dev wait random (s, ret)).1 ≡ ok
      → ((amss_result dev wait random (s, ret)).0 ≡ s.ctrl)
        × (in_error_state s.ctrl.pm_state ≡ false)
        × (s.out0 ≡ xfer_compl)
        × (ret ≢ 0)
  unfolding amss_result
  amss_result_ok s ret h =
      (ground (arith, h), ground (arith, h), ground (arith, h), λ e. ground (arith, h, e))

  sbl_result_ok :
      (base : ℕ) (s : Waiting) (ret : ℕ)
      → (sbl_result dev wait random base (s, ret)).1 ≡ ok
      → ((sbl_result dev wait random base (s, ret)).0 ≡ s.ctrl)
        × (in_error_state s.ctrl.pm_state ≡ false)
        × (s.out0 ≢ status_error)
        × (ret ≢ 0)
  unfolding sbl_result
  sbl_result_ok base s ret h =
      (ground (arith, h), ground (arith, h), λ e. ground (arith, h, e), λ e. ground (arith, h, e))

  -- If the status register can be read, `mhi_fw_load_amss` returns 0 only out of an error state, and
  -- only if the last act was a read of the status register that said that the transfer is complete.
  pub fw_load_amss_ok :
      (c : Ctrl) (tx_status : ℕ) (m : MhiBuf)
      → Readable dev (c.setup.bhie + txvecstatus)
      → let (c', ret) = fw_load_amss dev wait random c tx_status m in
        ret ≡ ok
        → (in_error_state c'.pm_state ≡ false)
          × Reports dev (c.setup.bhie + txvecstatus) xfer_compl c'.log
  unfolding fw_load_amss
  fw_load_amss_ok c tx_status m readable h =
      let addr = c.setup.bhie + txvecstatus in
      let sequence = random_nonzero random c.log seqnum_mask in
      let s = waiting_with (record c { log = start_amss dev c sequence m }) tx_status 0 in
      let (s', left) = wait (sent dev addr) s in
      let r = fw_load_amss dev wait random c tx_status m in
      let e : r ≡ amss_result dev wait random (s', left) = ground (arith, h) in
      let (same, good, done, some_left) = amss_result_ok s' left (sym (ap (λ p. p.1) e) ∙ h) in
      let kept : s'.ctrl ≡ r.0 = sym (ap (λ p. p.0) e ∙ same) in
      (
        subst (λ (c' : Ctrl). in_error_state c'.pm_state ≡ false) kept good,
        subst (λ (c' : Ctrl). Reports dev addr xfer_compl c'.log) kept
            (subst (λ (v : ℕ). Reports dev addr v s'.ctrl.log) done
              (waited addr s readable some_left good).0),
      )

  -- If the status register can be read, `mhi_fw_load_sbl` returns 0 only out of an error state, and
  -- only if the last act was a read of the status register that gave neither 0 nor an error.
  pub fw_load_sbl_ok :
      (c : Ctrl) (tx_status dma_addr size : ℕ)
      → Readable dev (c.bhi + bhi_status)
      → let (c', ret) = fw_load_sbl dev wait random c tx_status dma_addr size in
        ret ≡ ok
        → (in_error_state c'.pm_state ≡ false)
          × ((status : ℕ) × (Reports dev (c.bhi + bhi_status) status c'.log
                × (status ≢ 0)
                × (status ≢ status_error)))
  unfolding fw_load_sbl
  fw_load_sbl_ok c tx_status dma_addr size readable h =
      let addr = c.bhi + bhi_status in
      let session = random_nonzero random c.log seqnum_mask in
      let s = waiting_with (record c { log = start_sbl c session dma_addr size }) tx_status 0 in
      let (s', left) = wait (sent dev addr) s in
      let r = fw_load_sbl dev wait random c tx_status dma_addr size in
      let e : r ≡ sbl_result dev wait random c.bhi (s', left) = ground (arith, h) in
      let (same, good, not_error, some_left) =
        sbl_result_ok c.bhi s' left (sym (ap (λ p. p.1) e) ∙ h) in
      let kept : s'.ctrl ≡ r.0 = sym (ap (λ p. p.0) e ∙ same) in
      let (reports, not_zero) = waited addr s readable some_left good in
      (
        subst (λ (c' : Ctrl). in_error_state c'.pm_state ≡ false) kept good,
        (
          s'.out0,
          (
            subst (λ (c' : Ctrl). Reports dev addr s'.out0 c'.log) kept reports,
            not_zero,
            not_error,
          ),
        ),
      )
