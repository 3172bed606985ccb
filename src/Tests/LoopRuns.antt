-- ===== src/Tests/LoopRuns.antt =====
-- Event loops, interrupts and a configuration.
use mhi_for_quectel_modem.Base.{
  true, false, not, ◌&&◌, some, All, [], ◌∷◌, ◌++◌, ◌≡◌, ◌↔◌, refl, ◌==◌, if◌then◌else◌,
}
use mhi_for_quectel_modem.Regs.{Device}
use mhi_for_quectel_modem.Pm.State.{bit, m0, sys_err_detect, tryset_pm_state}
use mhi_for_quectel_modem.DevState
use mhi_for_quectel_modem.Ee
use mhi_for_quectel_modem.Ctrl.{Ctrl, DevTransition, ok}
use mhi_for_quectel_modem.Power.{get_mhi_state, get_exec_env}
use mhi_for_quectel_modem.Channel.{Memory}
use mhi_for_quectel_modem.EventLoop.{events}
use mhi_for_quectel_modem.Interrupt.{intvec_threaded_handler}
use mhi_for_quectel_modem.Interrupt.Results.{intvec_threaded_handler_lem}
use mhi_for_quectel_modem.Config.{from_device, ChannelConfig, ControllerConfig, Configured}
use mhi_for_quectel_modem.Config.Channels.{parse_ch_cfg}
use mhi_for_quectel_modem.Config.Results.{IsAcceptable, IsTable, parse_ch_cfg_lem}
use mhi_for_quectel_modem.Tests.Data.{served, event}

-- Event ring 0 has two events of the device, in elements 1 and 2.
abbrev with_events : Ctrl
with_events = record served { events = event ∷ [] }

-- A device that reports a system error, in its boot loader.
abbrev failing : Device
failing log addr = if addr == 172 then some 0xff00 else some 0

intvec_threaded_handler_lem_example :
    let r = intvec_threaded_handler true failing served in
    let (c₁, state) = get_mhi_state failing served in
    let exec = (get_exec_env failing c₁).1 in
    let is_sys_err = state == DevState.sys_err in
    let granted = bit r.pm_state == bit sys_err_detect in
    let ready = not is_sys_err && (state == DevState.ready) && (2 == Ee.edl) && (exec == Ee.fp) in
    let list = if ready then [] ++ (DevTransition.ready ∷ []) else [] in
    (r.ee ≡ exec)
    × (r.pm_state ≡ (if is_sys_err then tryset_pm_state m0 sys_err_detect else m0))
    × (r.transition_list ≡ (
        if is_sys_err && granted && not false && not (Ee.in_pbl exec)
        then list ++ (DevTransition.sys_err ∷ [])
        else list))
intvec_threaded_handler_lem_example = intvec_threaded_handler_lem failing served refl

abbrev plenty : Memory
plenty log size = some 4000

abbrev channel_config : ChannelConfig
channel_config = record {
  name = 1;
  num = 1;
  num_elements = 32;
  local_elements = 0;
  event_ring = 0;
  dir = from_device;
  type = 0;
  ee_mask = 4;
  pollcfg = 0;
  doorbell = 2;
  lpm_notify = false;
  offload_channel = false;
  doorbell_mode_switch = false;
  auto_queue = true;
  auto_start = false;
}

abbrev config : ControllerConfig
config = record {
  max_channels = 2;
  timeout_ms = 0;
  buf_len = 0;
  ch_cfg = channel_config ∷ [];
  event_cfg = [];
  use_bounce_buf = false;
  m2_no_db = false;
}

abbrev fresh : Configured
fresh = record {
  max_chan = 0;
  mhi_chan = 0;
  chans = [];
  lpm_chans = [];
  total_ev_rings = 0;
  events = [];
  hw_ev_rings = 0;
  sw_ev_rings = 0;
  timeout_ms = 0;
  bounce_buf = false;
  buffer_len = 0;
  db_access = 0;
  log = [];
}

parse_ch_cfg_lem_example :
    let r = parse_ch_cfg plenty 100 config fresh in
    ((r.1 ≡ ok) ↔ All (IsAcceptable 2) (channel_config ∷ [])) × ((r.1 ≡ ok) → IsTable 2 r.0.chans)
parse_ch_cfg_lem_example = parse_ch_cfg_lem plenty 100 4000 config fresh refl
