-- ===== src/Boot/Rddm/Polls.antt =====
-- The polling loops of `__mhi_download_rddm_in_panic` (drivers/bus/mhi/core/boot.c), by what the device
-- answers to each poll.
use mhi_for_quectel_modem.Base.{
  ℕ, zero, suc, ◌+◌, ◌-◌, ◌<◌, false, ◌==◌, Option, none, some, ◌∷◌, Option-cases, Bool-cases, ◌≡◌,
  ◌≢◌, ◌⊎◌, ◌↔◌, inl, inr, arith,
}
use mhi_for_quectel_modem.Regs.{Log, Device, read, write, field, read_reg_field}
use mhi_for_quectel_modem.DevState
use mhi_for_quectel_modem.Ee
use mhi_for_quectel_modem.Ctrl.{Ctrl, ok}
use mhi_for_quectel_modem.Power.{bhi_execenv, set_mhi_state, get_exec_env}
use mhi_for_quectel_modem.Boot.Load.{rxvecstatus, status_mask, status_shift, xfer_compl}
use mhi_for_quectel_modem.Boot.Rddm.{
  poll_rddm, gave_up, trigger_rddm, rddm_rounds, soc_reset_req_offset, poll_image,
}

-- The log after `j` polls of a register.
abbrev pub polled : ℕ → ℕ → Log → Log
polled addr zero log = log
polled addr (suc j) log = polled addr j (read addr ∷ log)

-- What poll number `j` of the image's status gives.
abbrev pub status_at : Device → ℕ → ℕ → Log → Option ℕ
status_at dev addr j log = (read_reg_field dev (polled addr j log) addr status_mask status_shift).1

-- What poll number `j` of the execution environment gives; a failed read gives none that exists.
abbrev pub env_at : Device → ℕ → ℕ → Log → ℕ
env_at dev addr j log = elim (dev (polled addr j log) addr) [ none ↦ Ee.max | some ee ↦ ee ]

-- Poll `j` says that the transfer is complete, and all before it could be read.
abbrev pub Completes : Device → ℕ → ℕ → Log → Type 0
Completes dev addr j log =
    (status_at dev addr j log ≡ some xfer_compl)
    × ((i : ℕ) → i < j → status_at dev addr i log ≢ none)

-- What holds at once and later holds throughout.
before_suc :
    (dev : Device) (addr : ℕ) (log : Log) (j : ℕ)
    → status_at dev addr 0 log ≢ none
    → ((i : ℕ) → i < j → status_at dev addr i (read addr ∷ log) ≢ none)
    → (i : ℕ) → i < suc j
    → status_at dev addr i log ≢ none
before_suc dev addr log j now later zero h = now
before_suc dev addr log j now later (suc i) h = later i (omega arith)

-- The controller after a read.
abbrev after_read : ℕ → Ctrl → Ctrl
after_read addr c = record c { log = read addr ∷ c.log }

module _ (dev : Device) where
  image_found :
      (retry : ℕ) (c : Ctrl)
      → (poll_image dev retry c).1 ≡ ok
      → (j : ℕ) × ((j < retry) × Completes dev (c.setup.bhie + rxvecstatus) j c.log)
  unfolding poll_image read_reg_field
  image_found zero c h = absurd (ground (arith, h))
  image_found (suc retry) c h =
      let addr = c.setup.bhie + rxvecstatus in
      elim (Option-cases (dev c.log addr)) [
        | inl e ↦ absurd (ground (arith, e, h))
        | inr (x, e) ↦ elim (Bool-cases (field x status_mask status_shift == xfer_compl)) [
          | inl done ↦ (0, (omega arith, (ground (arith, e, done), λ i lt. absurd (omega arith))))
          | inr more ↦
              let (j, (lt, (now, before))) =
                image_found retry (after_read addr c) (ground (arith, e, more, h)) in
              (
                suc j,
                (
                  omega arith,
                  (now, before_suc dev addr c.log j (λ e₁. ground (arith, e, e₁)) before),
                ),
              )
        ]
      ]

  found_image :
      (retry : ℕ) (c : Ctrl) (j : ℕ)
      → j < retry
      → Completes dev (c.setup.bhie + rxvecstatus) j c.log
      → (poll_image dev retry c).1 ≡ ok
  unfolding poll_image read_reg_field
  found_image zero c j h k = absurd (omega arith)
  found_image (suc retry) c zero h (now, before) = ground (arith, now)
  found_image (suc retry) c (suc j) h (now, before) =
      let addr = c.setup.bhie + rxvecstatus in
      let later =
        found_image retry (after_read addr c) j (omega arith)
          (now, λ i lt. before (suc i) (omega arith)) in
      elim (Option-cases (dev c.log addr)) [
        | inl e ↦ absurd (before 0 (omega arith) (ground (arith, e)))
        | inr (x, e) ↦ ground (arith, e, later)
      ]

  -- The loop that waits for the image in a panic returns 0 exactly if one of its `retry` polls says
  -- that the transfer is complete, and all polls before it could be read.
  pub poll_image_iff :
      (retry : ℕ) (c : Ctrl)
      → ((poll_image dev retry c).1 ≡ ok)
        ↔ ((j : ℕ) × ((j < retry) × Completes dev (c.setup.bhie + rxvecstatus) j c.log))
  poll_image_iff retry c = (image_found retry c, λ (j, (h, k)). found_image retry c j h k)

  -- The loop that waits for RDDM does not give up if one of the polls but the last sees it.
  seen :
      (n : ℕ) (c : Ctrl) (j : ℕ)
      → j < n
      → env_at dev (c.bhi + bhi_execenv) j c.log ≡ Ee.rddm
      → gave_up dev (poll_rddm dev (suc n) c).1 ≡ false
  unfolding poll_rddm get_exec_env
  seen zero c j h e = absurd (omega arith)
  seen (suc n) c zero h e = ground (arith, e)
  seen (suc n) c (suc j) h e =
      ground (arith, seen n (after_read (c.bhi + bhi_execenv) c) j (omega arith) e)

  -- And only then.
  not_seen :
      (n : ℕ) (c : Ctrl)
      → gave_up dev (poll_rddm dev (suc n) c).1 ≡ false
      → (j : ℕ) × ((j < n) × (env_at dev (c.bhi + bhi_execenv) j c.log ≡ Ee.rddm))
  unfolding poll_rddm get_exec_env
  not_seen zero c h = absurd (ground (arith, h))
  not_seen (suc n) c h =
      let addr = c.bhi + bhi_execenv in
      elim (Bool-cases (env_at dev addr 0 c.log == Ee.rddm)) [
        | inl e ↦ (0, (omega arith, ground (arith, e)))
        | inr e ↦
            let (j, (lt, at)) = not_seen n (after_read addr c) (ground (arith, e, h)) in
            (suc j, (omega arith, at))
      ]

  -- One of the first 99 polls sees RDDM after the trigger.
  abbrev pub SeenInTime : Ctrl → Type 0
  SeenInTime c =
      (j : ℕ) × ((j < rddm_rounds - 1) × (env_at dev (c.bhi + bhi_execenv) j c.log ≡ Ee.rddm))

  -- After the trigger, a reset is asked for exactly if none of the first 99 of the 100 polls sees the
  -- device in RDDM: a device that the last poll sees in RDDM is reset nevertheless. Nothing but the
  -- polls and this request is done, and then the execution environment is read once more.
  pub trigger_rddm_lem :
      (c : Ctrl)
      → let c₁ = set_mhi_state dev c DevState.sys_err in
        let polls = (poll_rddm dev rddm_rounds c₁).0.log in
        let log = (trigger_rddm dev c).log in
        let at = (poll_rddm dev rddm_rounds c₁).0 in
        let last = read (at.bhi + bhi_execenv) in
        (SeenInTime c₁ × (log ≡ last ∷ polls))
        ⊎ (¬ SeenInTime c₁ × (log ≡ last ∷ write (at.regs + soc_reset_req_offset) 1 ∷ polls))
  unfolding trigger_rddm get_exec_env
  trigger_rddm_lem c =
      let c₁ = set_mhi_state dev c DevState.sys_err in
      elim (Bool-cases (gave_up dev (poll_rddm dev rddm_rounds c₁).1)) [
        | inl e ↦ inr (λ (j, (lt, at)). ground (arith, e, seen 99 c₁ j lt at), ground (arith, e))
        | inr e ↦ inl (not_seen 99 c₁ e, ground (arith, e))
      ]
