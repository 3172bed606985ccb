-- ===== src/EventLoop.antt =====
-- The event loops and what calls them: `mhi_process_ctrl_ev_ring`, `mhi_process_data_event_ring`,
-- `mhi_ev_task`, `mhi_ctrl_ev_task`, `mhi_poll` and `mhi_irq_handler` of drivers/bus/mhi/core/main.c.
pub mod Fold
pub mod Keeps
pub mod CtrlKeeps
pub mod Drain
use mhi_for_quectel_modem.Base.{
  ℕ, zero, suc, ◌+◌, ◌-◌, ◌^◌, Bool, true, false, not, ◌&&◌, ◌||◌, Option, none, some, get_elem?,
  get_or, set, ◌==◌, if◌then◌else◌,
}
use mhi_for_quectel_modem.Regs.{Device, notify, pending_data, trigger_resume, tasklet_schedule}
use mhi_for_quectel_modem.Tre.{Tre, get_ev_chid, get_ev_type, tx_event, rsc_tx_event}
use mhi_for_quectel_modem.Ring.{recycle_ev_ring_element, to_virtual}
use mhi_for_quectel_modem.Pm.State.{bit, sys_err_detect, reg_access_valid, event_access_invalid}
use mhi_for_quectel_modem.DevState
use mhi_for_quectel_modem.Ctrl.{
  Ctrl, Chan, Event, Errno, eio, act, tryset, db_access_valid, ring_er_db,
}
use mhi_for_quectel_modem.Power.{get_mhi_state}
use mhi_for_quectel_modem.Queue.{Dma, slot, no_tre}
use mhi_for_quectel_modem.Complete.{parse_xfer_event}
use mhi_for_quectel_modem.Events.{parse_rsc_event, ctrl_event, sys_err_handler}

-- What `process_event` returns: a count of events, or an error.
pub data Processed : Type 0 where
  events : ℕ → Processed
  failed : Errno → Processed

-- What each look at `er_ctxt->rp`, which the device moves, finds: the first, the second, ...
abbrev pub Looks : Type 0
Looks = ℕ → ℕ

-- What is done for one event: `none` if it does not end or reads beyond an array, and whether the event counts against the
-- quota.
abbrev pub Handler : Type 0
Handler = Ctrl → Tre → Option (Ctrl × Bool)

-- The body of the loop of `mhi_process_data_event_ring`. A channel number beyond the array is passed over.
unfoldable pub data_event : Dma → Handler
data_event dma c event =
    let chan = get_ev_chid event in
    elim (get_elem? c.chans chan) [
      | none ↦ some (c, false)
      | some ch ↦
          if get_ev_type event == tx_event
          then elim (parse_xfer_event dma c event ch) [
            | none ↦ none
            | some (c', ch') ↦ some (record c' { chans = set c'.chans chan ch' }, true)
          ]
          else if get_ev_type event == rsc_tx_event
          then elim (parse_rsc_event c event ch) [
            | none ↦ none
            | some (c', ch') ↦ some (record c' { chans = set c'.chans chan ch' }, true)
          ]
          else some (c, false)
    ]

-- The body of the loop of `mhi_process_ctrl_ev_ring`, whose quota nothing reads.
unfoldable pub ctrl_ring_event : Bool → Device → Dma → Handler
ctrl_ring_event allocated dev dma c event = elim (ctrl_event allocated dev dma c event) [
  | none ↦ none
  | some c' ↦ some (c', false)
]

-- The event that the ring's read pointer points to.
abbrev pub local_rp : Event → Tre
local_rp e = get_or e.tres (slot e.ring e.ring.rp) no_tre

abbrev pub recycled : Event → Event
recycled e = record e { ring = recycle_ev_ring_element e.ring }

-- `mhi_recycle_ev_ring_element` on the event ring with the number `at`.
unfoldable pub recycle_at : ℕ → Ctrl → Option Ctrl
recycle_at at c = elim (get_elem? c.events at) [
  | none ↦ none
  | some e ↦ some (record c { events = set c.events at (recycled e) })
]

-- The loop of both functions, `while (dev_rp != local_rp)`, on the event ring with the number `at`, where
-- `limited` says whether it also tests `event_quota > 0`. A handler may ring the doorbell of the ring,
-- or move its write pointer. `k` counts the looks and `count` the events. `none` is an event that does
-- not end, a ring that is not there, or too little fuel.
unfoldable pub event_loop : ℕ → Bool → Handler → Looks → ℕ → Ctrl → ℕ → ℕ → ℕ → Option (Ctrl × ℕ)
unfolding recycle_at
event_loop zero limited handle looks k c at quota count = none
event_loop (suc fuel) limited handle looks k c at quota count = elim (get_elem? c.events at) [
  | none ↦ none
  | some e ↦
      if (to_virtual e.ring (looks k) == e.ring.rp) || (limited && (quota == 0))
      then some (c, count)
      else elim (handle c (local_rp e)) [
        | none ↦ none
        | some (c', counts) ↦ elim (recycle_at at c') [
          | none ↦ none
          | some c'' ↦
              event_loop fuel limited handle looks (k + 1) c'' at
                (if counts then quota - 1 else quota) (count + 1)
        ]
      ]
]

-- The doorbell of the event ring with the number `at`, if it may be rung.
unfoldable pub ring_at : ℕ → Ctrl → Ctrl
unfolding ring_er_db
ring_at at c = elim (get_elem? c.events at) [
  | none ↦ c
  | some e ↦
      if db_access_valid c
      then (let (log, e') = ring_er_db c.log e in
          record c { log = log; events = set c.events at e' })
      else c
]

-- What both functions do around the loop.
unfoldable pub process_ring : ℕ → Bool → Handler → Looks → Ctrl → ℕ → ℕ → Option (Ctrl × Processed)
unfolding event_loop ring_at
process_ring fuel limited handle looks c at quota =
    if event_access_invalid c.pm_state
    then some (c, failed eio)
    else elim (event_loop fuel limited handle looks 0 c at quota 0) [
      | none ↦ none
      | some (c', count) ↦ some (ring_at at c', events count)
    ]

-- `mhi_process_data_event_ring` and `mhi_process_ctrl_ev_ring`
unfoldable pub process_data_event_ring : ℕ → Dma → Looks → Ctrl → ℕ → ℕ → Option (Ctrl × Processed)
process_data_event_ring fuel dma looks c at quota =
    process_ring fuel true (data_event dma) looks c at quota

unfoldable pub process_ctrl_ev_ring :
    ℕ → Bool → Device → Dma → Looks → Ctrl → ℕ → ℕ → Option (Ctrl × Processed)
process_ctrl_ev_ring fuel allocated dev dma looks c at quota =
    process_ring fuel false (ctrl_ring_event allocated dev dma) looks c at quota

-- `mhi_event->process_event`, for the event ring with a number.
abbrev pub ProcessEvent : Type 0
ProcessEvent = Ctrl → ℕ → ℕ → Option (Ctrl × Processed)

-- `U32_MAX`
abbrev pub u32_max : ℕ
u32_max = 2 ^ 32 - 1

-- `mhi_poll`: the event ring of the channel from the device.
unfoldable pub poll : ProcessEvent → Ctrl → Chan → ℕ → Option (Ctrl × Processed)
poll process_event c ch budget = process_event c ch.er_index budget

-- `mhi_ev_task`, for the event ring with a number.
unfoldable pub ev_task : ProcessEvent → Ctrl → ℕ → Option Ctrl
ev_task process_event c at = elim (process_event c at u32_max) [
  | none ↦ none
  | some (c', _) ↦ some c'
]

-- The end of `mhi_ctrl_ev_task`: an interrupt without an event may be a system error.
unfoldable pub check_sys_err : Bool → Device → Ctrl → Ctrl
check_sys_err allocated dev c =
    let (c₁, state) = get_mhi_state dev c in
    if state == DevState.sys_err
    then (let c₂ = tryset sys_err_detect c₁ in
        if bit c₂.pm_state == bit sys_err_detect then sys_err_handler allocated c₂ else c₂)
    else c₁

-- `mhi_ctrl_ev_task`
unfoldable pub ctrl_ev_task : Bool → Device → ProcessEvent → Ctrl → ℕ → Option Ctrl
ctrl_ev_task allocated dev process_event c at =
    if not (reg_access_valid c.pm_state)
    then some (act trigger_resume c)
    else elim (process_event c at u32_max) [
      | none ↦ none
      | some (c', ret) ↦ elim ret [
        | events zero ↦ some (check_sys_err allocated dev c')
        | events (suc _) ↦ some c'
        | failed _ ↦ some c'
      ]
    ]

-- `mhi_irq_handler`: `cl_manage` says that the client manages the ring, and `ch` is the channel that it is for.
unfoldable pub irq_handler : Looks → Bool → Chan → Ctrl → Event → Ctrl
irq_handler looks cl_manage ch c e =
    if e.ring.rp == to_virtual e.ring (looks 0)
    then c
    else if cl_manage
    then (if ch.has_dev then act (notify ch.chan pending_data) c else c)
    else act (tasklet_schedule e.er_index) c
