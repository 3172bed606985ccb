-- ===== src/Boot/Ledger.antt =====
-- Which functions neither allocate coherent memory nor take firmware: the register accesses and the
-- transition to READY (drivers/bus/mhi/core/pm.c, init.c), and the transfers of boot.c.
use mhi_for_quectel_modem.Base.{ℕ, ◌+◌, List, [], ◌∷◌, length, ◌≡◌, refl, ◌∙◌, arith}
use mhi_for_quectel_modem.Regs.{
  Log, Device, read, write_reg_field, read_reg_field, alloc_coherent, free_coherent, get_firmware,
  release_firmware,
}
use mhi_for_quectel_modem.DevState
use mhi_for_quectel_modem.Pm.State.{por}
use mhi_for_quectel_modem.Ctrl.{Ctrl, Event, tryset, ring_er_db}
use mhi_for_quectel_modem.Wait.{Wait, Waiting, Condition}
use mhi_for_quectel_modem.Power.{for_each, set_mhi_state}
use mhi_for_quectel_modem.Init.Mmio.{
  RegInfo, reg_info, write_registers, init_mmio, wake_doorbell, context_registers,
}
use mhi_for_quectel_modem.Transition.{
  ready_event, ready_mmio, ready_state_transition, is_ready, waiting_with,
}
use mhi_for_quectel_modem.Boot.{MhiBuf}
use mhi_for_quectel_modem.Boot.Load.{
  Random, read_errors, start_sbl, start_amss, error_reg, random_nonzero, seqnum_mask, sent,
  bhi_status, txvecstatus, sbl_result, fw_load_sbl, amss_result, fw_load_amss,
}
use mhi_for_quectel_modem.Boot.Handler.{Loader, read_hashes, bhi_oempkhash, bhi_serialnu, save_info}

-- The acts of a log that allocate, free, take or release.
abbrev pub ledger : Log → Log
ledger [] = []
ledger (alloc_coherent b l d ∷ log) = alloc_coherent b l d ∷ ledger log
ledger (free_coherent b l d ∷ log) = free_coherent b l d ∷ ledger log
ledger (get_firmware ∷ log) = get_firmware ∷ ledger log
ledger (release_firmware ∷ log) = release_firmware ∷ ledger log
ledger (_ ∷ log) = ledger log

-- Nothing of that kind happened, and the settings are the same.
pub record IsQuiet (c c' : Ctrl) : Type 0 where
  pub books : ledger c'.log ≡ ledger c.log
  pub setup : c'.setup ≡ c.setup

write_reg_field-ledger :
    (dev : Device) (log : Log) (addr mask shift val : ℕ)
    → ledger (write_reg_field dev log addr mask shift val) ≡ ledger log
unfolding write_reg_field
write_reg_field-ledger dev log addr mask shift val = ground arith

write_registers-ledger :
    (dev : Device) (base : ℕ) (log : Log) (rs : List RegInfo)
    → ledger (write_registers dev base log rs) ≡ ledger log
unfolding write_registers
write_registers-ledger dev base log [] = refl
write_registers-ledger dev base log (r ∷ rs) =
    let log' = write_reg_field dev log (base + r.offset) r.mask r.shift r.val in
    ground (
      arith,
      write_registers-ledger dev base log' rs,
      write_reg_field-ledger dev log (base + r.offset) r.mask r.shift r.val,
    )

ready_event-ledger : (log : Log) (e : Event) → ledger (ready_event log e).0 ≡ ledger log
unfolding ready_event ring_er_db
ready_event-ledger log e = ground arith

ready_events-ledger :
    (log : Log) (es : List Event) → ledger (for_each ready_event log es).0 ≡ ledger log
unfolding for_each
ready_events-ledger log [] = refl
ready_events-ledger log (e ∷ es) =
    ready_events-ledger (ready_event log e).0 es ∙ ready_event-ledger log e

wake_doorbell-IsQuiet : (c : Ctrl) (val : ℕ) → IsQuiet c (wake_doorbell c val)
unfolding wake_doorbell
wake_doorbell-IsQuiet c val = ground arith

context_registers-IsQuiet :
    (dev : Device) (c : Ctrl) (val : ℕ) → IsQuiet c (context_registers dev c val)
unfolding context_registers
context_registers-IsQuiet dev c val = record {
  books = write_registers-ledger dev c.regs c.log (reg_info c.setup (length c.events));
  setup = refl;
}

init_mmio-IsQuiet : (dev : Device) (c : Ctrl) → IsQuiet c (init_mmio dev c).0
unfolding init_mmio read_reg_field
init_mmio-IsQuiet dev c = grind (arith, wake_doorbell-IsQuiet, context_registers-IsQuiet)

set_mhi_state-IsQuiet :
    (dev : Device) (c : Ctrl) (state : ℕ) → IsQuiet c (set_mhi_state dev c state)
unfolding set_mhi_state
set_mhi_state-IsQuiet dev c state = ground arith

pub IsQuiet-trans : {a b c : Ctrl} → IsQuiet a b → IsQuiet b c → IsQuiet a c
IsQuiet-trans p q = record { books = q.books ∙ p.books; setup = q.setup ∙ p.setup }

ready_mmio-IsQuiet : (dev : Device) (c : Ctrl) → IsQuiet c (ready_mmio dev c).0
unfolding ready_mmio
ready_mmio-IsQuiet dev c =
    let (c₁, ret) = init_mmio dev c in
    let events = for_each ready_event c₁.log c₁.events in
    ground (
      arith,
      init_mmio-IsQuiet dev c,
      ready_events-ledger c₁.log c₁.events,
      set_mhi_state-IsQuiet dev (record c₁ { log = events.0; events = events.1 }) DevState.m0,
    )

-- A wait in which neither other threads nor the device allocate coherent memory, take firmware or
-- change the settings.
abbrev pub IsCalm : Wait → Type 0
IsCalm wait = (cond : Condition) (s : Waiting) → IsQuiet s.ctrl (wait cond s).0.ctrl

read_errors-ledger :
    (dev : Device) (base : ℕ) (log : Log) (offsets : List ℕ)
    → ledger (read_errors dev base log offsets) ≡ ledger log
unfolding read_errors
read_errors-ledger dev base log [] = refl
read_errors-ledger dev base log (o ∷ offsets) =
    ground (arith, read_errors-ledger dev base (read (base + o) ∷ log) offsets)

start_sbl-ledger :
    (c : Ctrl) (session dma_addr size : ℕ)
    → ledger (start_sbl c session dma_addr size) ≡ ledger c.log
unfolding start_sbl
start_sbl-ledger c session dma_addr size = refl

start_amss-ledger :
    (dev : Device) (c : Ctrl) (sequence : ℕ) (m : MhiBuf)
    → ledger (start_amss dev c sequence m) ≡ ledger c.log
unfolding start_amss
start_amss-ledger dev c sequence m = ground arith

module _ (dev : Device) (wait : Wait) (calm : IsCalm wait) where
  pub ready_state_transition-IsQuiet : (c : Ctrl) → IsQuiet c (ready_state_transition dev wait c).0
  unfolding ready_state_transition tryset
  ready_state_transition-IsQuiet c =
      let s = (wait (is_ready dev) (waiting_with c 1 0)).0 in
      ground (
        arith,
        calm (is_ready dev) (waiting_with c 1 0),
        ready_mmio-IsQuiet dev (record (tryset por (s.ctrl)) { dev_state = DevState.ready }),
      )

  module _ (random : Random) where
    sbl_result-IsQuiet :
        (base : ℕ) (s : Waiting) (ret : ℕ)
        → IsQuiet s.ctrl (sbl_result dev wait random base (s, ret)).0
    unfolding sbl_result
    sbl_result-IsQuiet base s ret = ground (arith, read_errors-ledger dev base s.ctrl.log error_reg)

    pub fw_load_sbl-IsQuiet :
        (c : Ctrl) (tx_status dma_addr size : ℕ)
        → IsQuiet c (fw_load_sbl dev wait random c tx_status dma_addr size).0
    unfolding fw_load_sbl
    fw_load_sbl-IsQuiet c tx_status dma_addr size =
        let session = random_nonzero random c.log seqnum_mask in
        let c' = record c { log = start_sbl c session dma_addr size } in
        let r = wait (sent dev (c.bhi + bhi_status)) (waiting_with c' tx_status 0) in
        ground (
          arith,
          start_sbl-ledger c session dma_addr size,
          calm (sent dev (c.bhi + bhi_status)) (waiting_with c' tx_status 0),
          sbl_result-IsQuiet c.bhi r.0 r.1,
        )

    pub fw_load_amss-IsQuiet :
        (c : Ctrl) (tx_status : ℕ) (m : MhiBuf)
        → IsQuiet c (fw_load_amss dev wait random c tx_status m).0
    unfolding fw_load_amss amss_result
    fw_load_amss-IsQuiet c tx_status m =
        let sequence = random_nonzero random c.log seqnum_mask in
        let c' = record c { log = start_amss dev c sequence m } in
        ground (
          arith,
          start_amss-ledger dev c sequence m,
          calm (sent dev (c.setup.bhie + txvecstatus)) (waiting_with c' tx_status 0),
        )

-- The information that is saved first.
read_hashes-ledger :
    (dev : Device) (base : ℕ) (log : Log) (i : ℕ) (olds : List ℕ)
    → ledger (read_hashes dev base log i olds).0 ≡ ledger log
unfolding read_hashes
read_hashes-ledger dev base log i [] = refl
read_hashes-ledger dev base log i (old ∷ olds) =
    ground (arith, read_hashes-ledger dev base (read (base + bhi_oempkhash i) ∷ log) (i + 1) olds)

pub save_info-ledger :
    (dev : Device) (l : Loader) → ledger (save_info dev l).ctrl.log ≡ ledger l.ctrl.log
unfolding save_info
save_info-ledger dev l =
    read_hashes-ledger dev l.ctrl.bhi (read (l.ctrl.bhi + bhi_serialnu) ∷ l.ctrl.log) 0
      l.oem_pk_hash
