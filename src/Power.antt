-- ===== src/Power.antt =====
-- The handlers of power state changes that the device announces (drivers/bus/mhi/core/pm.c).
pub mod Suspend
pub mod Sync
pub mod Moves
use mhi_for_quectel_modem.Base.{
  ℕ, ◌+◌, ◌-◌, ◌%◌, ◌^◌, Bool, true, false, not, ◌&&◌, ◌||◌, Option, none, some, List, [], ◌∷◌,
  ◌==◌, if◌then◌else◌,
}
use mhi_for_quectel_modem.Base.Word.{u32, u64}
use mhi_for_quectel_modem.Regs.{
  Act, Log, Device, wake_up_all, status_cb, idle, write_reg_field, read_reg, read_reg_field,
}
use mhi_for_quectel_modem.Ring.{Ring}
use mhi_for_quectel_modem.Pm.State.{PmState, bit, m0, m2, m3}
use mhi_for_quectel_modem.DevState
use mhi_for_quectel_modem.Ee
use mhi_for_quectel_modem.Ctrl.{
  Ctrl, Event, Chan, Code, ok, err, eio, act, tryset, ring_er_db, ring_cmd_db, ring_chan_db,
}
use mhi_for_quectel_modem.Wake.{assert_dev_wake, deassert_dev_wake}

-- MHICTRL and MHISTATUS.
abbrev pub mhictrl : ℕ
mhictrl = 0x38

abbrev pub mhistatus : ℕ
mhistatus = 0x48

abbrev pub mhistate_mask : ℕ
mhistate_mask = 0xFF00

abbrev pub reset_mask : ℕ
reset_mask = 0x2

-- `BHI_EXECENV`
abbrev pub bhi_execenv : ℕ
bhi_execenv = 0x28

-- `ring->wp = ring->base + ring->len - ring->el_size`, and the same of the context's pointer.
abbrev pub fill_ring : Ring → Ring
fill_ring ring = record ring {
  wp = ring.base + ring.len - ring.el_size;
  ctxt_wp = u64 (ring.iommu_base + ring.len - ring.el_size);
}

-- The body of the loop over the event rings in `mhi_pm_m0_transition`.
unfoldable pub m0_event : Log → Event → Log × Event
m0_event log event =
    if event.offload_ev
    then (log, event)
    else ring_er_db log
        (if event.hw_ring then record event { ring = fill_ring (event.ring) } else event)

-- The body of the loop over the channels.
unfoldable pub m0_chan : Log → Chan → Log × Chan
m0_chan log ch =
    let ch' =
      if ch.db_cfg.reset_req
      then record ch { db_cfg = record (ch.db_cfg) { db_mode = true } }
      else ch in
    if not (ch.tre_ring.base == 0) && not (ch.tre_ring.wp == ch.tre_ring.rp)
    then ring_chan_db log ch'
    else (log, ch')

-- A loop over an array that the body changes in place.
unfoldable pub for_each : {A : Type 0} → (Log → A → Log × A) → Log → List A → Log × List A
for_each body log [] = (log, [])
for_each body log (a ∷ as') =
    let (log₁, a') = body log a in let (log₂, rest) = for_each body log₁ as' in (log₂, a' ∷ rest)

-- The rings that are rung only in mission mode: all event rings, and the command ring if it is not
-- empty.
unfoldable pub m0_mission_mode : Ctrl → Ctrl
m0_mission_mode c =
    let (log₁, events) = for_each m0_event c.log c.events in
    let (log₂, ring) =
      if not (c.cmd_ring.rp == c.cmd_ring.wp)
      then ring_cmd_db log₁ c.cmd_ring
      else (log₁, c.cmd_ring) in
    record c { events = events; cmd_ring = ring; log = log₂ }

unfoldable pub m0_channels : Ctrl → Ctrl
m0_channels c =
    let (log, chans) = for_each m0_chan c.log c.chans in record c { chans = chans; log = log }

-- `mhi_pm_m0_transition`
unfoldable pub m0_transition : Ctrl → Ctrl × Code
m0_transition c =
    let c₁ = tryset m0 (record c { dev_state = DevState.m0 }) in
    if not (bit c₁.pm_state == bit m0)
    then (c₁, err eio)
    else (let c₂ = assert_dev_wake (record c₁ { count_m0 = u32 (c₁.count_m0 + 1) }) true in
        let c₃ = if Ee.in_mission_mode c₂.ee then m0_mission_mode c₂ else c₂ in
        (act wake_up_all (deassert_dev_wake (m0_channels c₃) false), ok))

-- `mhi_pm_m3_transition`
unfoldable pub m3_transition : Ctrl → Ctrl × Code
m3_transition c =
    let c₁ = tryset m3 (record c { dev_state = DevState.m3 }) in
    if not (bit c₁.pm_state == bit m3)
    then (c₁, err eio)
    else (act wake_up_all (record c₁ { count_m3 = u32 (c₁.count_m3 + 1) }), ok)

module _ (dev : Device) where
  -- `mhi_set_mhi_state`
  unfoldable pub set_mhi_state : Ctrl → ℕ → Ctrl
  unfolding write_reg_field
  set_mhi_state c state = record c {
    log =
        if state == DevState.reset
        then write_reg_field dev c.log (c.regs + mhictrl) reset_mask 1 1
        else write_reg_field dev c.log (c.regs + mhictrl) mhistate_mask 8 state;
  }

  -- `mhi_pm_m1_transition`
  unfoldable pub m1_transition : Ctrl → Ctrl
  m1_transition c =
      let c₁ = tryset m2 c in
      if not (bit c₁.pm_state == bit m2)
      then c₁
      else (let c₂ = set_mhi_state c₁ DevState.m2 in
          let c₃ =
            act wake_up_all
              (record c₂ { dev_state = DevState.m2; count_m2 = u32 (c₂.count_m2 + 1) }) in
          if not (c₃.pending_pkts == 0) || not (c₃.dev_wake == 0)
          then deassert_dev_wake (assert_dev_wake c₃ true) true
          else act (status_cb idle) c₃)

  -- `mhi_get_exec_env` and `mhi_get_mhi_state`, with the value for a failed read.
  unfoldable pub get_exec_env : Ctrl → Ctrl × ℕ
  unfolding read_reg
  get_exec_env c =
      let (log, out) = read_reg dev c.log (c.bhi + bhi_execenv) in
      (record c { log = log }, elim out [ none ↦ Ee.max | some exec ↦ exec ])

  unfoldable pub get_mhi_state : Ctrl → Ctrl × ℕ
  unfolding read_reg_field
  get_mhi_state c =
      let (log, out) = read_reg_field dev c.log (c.regs + mhistatus) mhistate_mask 8 in
      (record c { log = log }, elim out [ none ↦ DevState.max | some state ↦ state ])
