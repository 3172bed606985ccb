-- ===== src/Events.antt =====
-- The control events of the device: one round of `mhi_process_ctrl_ev_ring`, with
-- `mhi_process_cmd_completion` and `parse_rsc_event` of drivers/bus/mhi/core/main.c, and
-- `mhi_queue_state_transition` and `mhi_pm_sys_err_handler` of drivers/bus/mhi/core/pm.c.
pub mod Results
pub mod Bounds
use mhi_for_quectel_modem.Base.{
  ℕ, ◌+◌, ◌-◌, ◌%◌, Bool, true, false, not, ◌||◌, ◌&&◌, ltb, leb, Option, none, some, List, [], ◌∷◌,
  ◌++◌, get_elem?, get_or, set, ◌==◌, if◌then◌else◌,
}
use mhi_for_quectel_modem.Regs.{
  Act, Device, xfer_cb, status_cb, bw_req, ee_rddm, wake_up_all, schedule_work,
}
use mhi_for_quectel_modem.Tre.{
  Tre, get_cmd_chid, get_ev_ptr, get_ev_code, get_ev_len, get_ev_cookie, get_ev_chid, get_ev_type,
  get_ev_state, get_ev_execenv, get_ev_linkspeed, get_ev_linkwidth, bw_req_event,
  state_change_event, cmd_completion_event, ee_event, tx_event,
}
use mhi_for_quectel_modem.Ring.{Ring, del_ring_element, to_virtual}
use mhi_for_quectel_modem.Pm.State.{bit, sys_err_detect}
use mhi_for_quectel_modem.DevState
use mhi_for_quectel_modem.Ee
use mhi_for_quectel_modem.Ctrl.{
  Ctrl, Chan, disabled, enabled, Code, ok, err, enomem, DevTransition, sbl, fp, mission_mode,
  sys_err, act, tryset,
}
use mhi_for_quectel_modem.Power.{m0_transition, m1_transition, m3_transition}
use mhi_for_quectel_modem.Queue.{Dma, slot, no_buf, no_tre}
use mhi_for_quectel_modem.Complete.{parse_xfer_event, status_of, bytes_xferd}

-- `mhi_queue_state_transition`; `allocated` says whether `kmalloc` gave memory for the item.
unfoldable pub queue_state_transition : Bool → Ctrl → DevTransition → Ctrl × Code
queue_state_transition allocated c state =
    if not allocated
    then (c, err enomem)
    else (act schedule_work (record c { transition_list = c.transition_list ++ (state ∷ []) }), ok)

-- `mhi_pm_sys_err_handler`
unfoldable pub sys_err_handler : Bool → Ctrl → Ctrl
sys_err_handler allocated c =
    if c.has_rddm_image then c else (queue_state_transition allocated c sys_err).0

-- The number of the element of a ring that an address is that of; `none` is an address beyond the
-- ring, or between two elements.
unfoldable pub element_at : Ring → ℕ → Option ℕ
element_at r p =
    if leb r.base p && ltb p (r.base + r.len) && ((p - r.base) % r.el_size == 0)
    then some (slot r p)
    else none

-- `mhi_process_cmd_completion`. `none` is an element outside the command ring, or a channel number
-- beyond the array of channels, which the source reads unchecked.
unfoldable pub process_cmd_completion : Ctrl → Tre → Option Ctrl
unfolding element_at
process_cmd_completion c tre =
    elim (element_at c.cmd_ring (to_virtual c.cmd_ring (get_ev_ptr tre))) [
      | none ↦ none
      | some at ↦
          let chan = get_cmd_chid (get_or c.cmd_tres at no_tre) in
          elim (get_elem? c.chans chan) [
            | none ↦ none
            | some ch ↦ some (record c {
              chans = set c.chans chan (record ch { ccs = get_ev_code tre; completed = true });
              cmd_ring = del_ring_element c.cmd_ring;
            })
          ]
    ]

-- `parse_rsc_event`. The cookie is the buffer's offset in bytes from the start of its ring. `none` is
-- one that is no buffer's, of which the source only warns before it reads there.
unfoldable pub parse_rsc_event : Ctrl → Tre → Chan → Option (Ctrl × Chan)
unfolding element_at
parse_rsc_event c event ch =
    elim (element_at ch.buf_ring (ch.buf_ring.base + get_ev_cookie event)) [
      | none ↦ none
      | some at ↦
          let buf = get_or ch.bufs at no_buf in
          elim ch.ch_state [
            | disabled ↦ some (c, ch)
            | enabled ↦ some (
              act
                  (xfer_cb ch.chan buf.cb_buf (bytes_xferd (get_ev_len event) buf.len)
                    (status_of (get_ev_code event)))
                  c,
              record ch {
                tre_ring = del_ring_element ch.tre_ring;
                bufs = set ch.bufs at (record buf { used = false });
              },
            )
          ]
    ]

-- `MHI_PKT_TYPE_STATE_CHANGE_EVENT`
unfoldable pub state_event : Bool → Device → Ctrl → ℕ → Ctrl
state_event allocated dev c new_state =
    if new_state == DevState.m0
    then (m0_transition c).0
    else if new_state == DevState.m1
    then m1_transition dev c
    else if new_state == DevState.m3
    then (m3_transition c).0
    else if new_state == DevState.sys_err
    then (if (c.ee == Ee.rddm) || c.has_rddm_image
        then c
        else (let c' = tryset sys_err_detect c in
            if bit c'.pm_state == bit sys_err_detect then sys_err_handler allocated c' else c'))
    else c

-- `MHI_PKT_TYPE_EE_EVENT`
unfoldable pub ee_change : Bool → Ctrl → ℕ → Ctrl
ee_change allocated c event =
    if event == Ee.sbl
    then (queue_state_transition allocated c sbl).0
    else if event == Ee.fp
    then (queue_state_transition allocated c fp).0
    else if (event == Ee.wfw) || (event == Ee.amss)
    then (queue_state_transition allocated c mission_mode).0
    else if event == Ee.rddm
    then act wake_up_all (record (act (status_cb ee_rddm) c) { ee = event })
    else c

-- `MHI_PKT_TYPE_TX_EVENT`: a channel number beyond the array is passed over.
unfoldable pub tx_change : Dma → Ctrl → Tre → Option Ctrl
tx_change dma c event =
    let chan = get_ev_chid event in
    elim (get_elem? c.chans chan) [
      | none ↦ some c
      | some ch ↦ elim (parse_xfer_event dma c event ch) [
        | none ↦ none
        | some (c', ch') ↦ some (record c' { chans = set c'.chans chan ch' })
      ]
    ]

-- The body of the loop of `mhi_process_ctrl_ev_ring`, for one event.
unfoldable pub ctrl_event : Bool → Device → Dma → Ctrl → Tre → Option Ctrl
ctrl_event allocated dev dma c event =
    let type = get_ev_type event in
    if type == bw_req_event
    then some (
        act (status_cb bw_req) (record c {
          target_link_speed = get_ev_linkspeed event;
          target_link_width = get_ev_linkwidth event;
        }))
    else if type == state_change_event
    then some (state_event allocated dev c (get_ev_state event))
    else if type == cmd_completion_event
    then process_cmd_completion c event
    else if type == ee_event
    then some (ee_change allocated c (get_ev_execenv event))
    else if type == tx_event
    then tx_change dma c event
    else some c
