-- ===== src/Tests/Data.antt =====
-- A small controller: one channel of four elements with two transfers queued.
use mhi_for_quectel_modem.Base.{ℕ, true, false, some, [], ◌∷◌}
use mhi_for_quectel_modem.Regs.{Device, brstmode, brstmode_disable, write}
use mhi_for_quectel_modem.Tre.{Tre}
use mhi_for_quectel_modem.Ring.{Ring}
use mhi_for_quectel_modem.Pm.State.{m0}
use mhi_for_quectel_modem.Ctrl.{Ctrl, Chan, Event, Setup, BufInfo, enabled, from_device_dir}
use mhi_for_quectel_modem.Queue.{Dma, no_buf, no_tre}

-- Elements 1 and 2 are in use; the next free one is element 3.
abbrev pub tre_ring : Ring
tre_ring = record {
  iommu_base = 5000;
  ctxt_rbase = 5000;
  ctxt_rp = 5016;
  ctxt_wp = 5048;
  ctxt_rlen = 64;
  base = 1000;
  rp = 1016;
  wp = 1048;
  el_size = 16;
  len = 64;
  elements = 4;
  db_addr = 900;
}

abbrev pub buf_ring : Ring
buf_ring = record {
  iommu_base = 0;
  ctxt_rbase = 0;
  ctxt_rp = 0;
  ctxt_wp = 0;
  ctxt_rlen = 0;
  base = 2000;
  rp = 2072;
  wp = 2216;
  el_size = 72;
  len = 288;
  elements = 4;
  db_addr = 0;
}

abbrev pub buffer : ℕ → BufInfo
buffer cb = record no_buf { cb_buf = cb; len = 100; p_addr = 7000; pre_mapped = true }

abbrev pub chan : Chan
chan = record {
  chan = 5;
  named = true;
  er_index = 0;
  intmod = 0;
  dir = from_device_dir;
  ee_mask = 4;
  db_cfg = record { reset_req = false; db_mode = true; db_val = 0; process_db = brstmode };
  ch_state = enabled;
  chcfg = 1;
  ccs = 1;
  completed = false;
  has_dev = true;
  offload_ch = false;
  pre_alloc = false;
  tre_ring = tre_ring;
  buf_ring = buf_ring;
  tres = no_tre ∷ no_tre ∷ no_tre ∷ no_tre ∷ [];
  bufs = no_buf ∷ buffer 11 ∷ buffer 22 ∷ no_buf ∷ [];
}

abbrev pub setup : Setup
setup = record {
  nr_irqs = 3;
  pre_init = false;
  fbc_download = true;
  bhie = 400;
  hw_ev_rings = 1;
  iova_start = 0;
  iova_stop = 0xffff_ffff;
  chan_ctxt_addr = 0x1_0000_0000;
  er_ctxt_addr = 0x1_0000_4000;
  cmd_ctxt_addr = 0x1_0000_6000;
  ctrl_seg_addr = 0;
  ctrl_seg_len = 0;
}

-- In M0, idle, the wake doorbell written once.
abbrev pub ctrl : Ctrl
ctrl = record {
  pm_state = m0;
  dev_state = 2;
  ee = 2;
  dev_wake = 0;
  pending_pkts = 0;
  wake_set = false;
  db_access = 12;
  regs = 100;
  bhi = 300;
  wake_db = 800;
  count_m0 = 0;
  count_m2 = 0;
  count_m3 = 0;
  has_rddm_image = false;
  target_link_speed = 0;
  target_link_width = 0;
  buffer_len = 2048;
  setup = setup;
  events = [];
  chans = chan ∷ [];
  cmd_ring = tre_ring;
  cmd_tres = no_tre ∷ no_tre ∷ no_tre ∷ no_tre ∷ [];
  lpm_chans = 0 ∷ [];
  transition_list = [];
  log = write 800 0 ∷ write 804 0 ∷ [];
}

-- Registers that hold what is written to them, and 0x0100_ff01 before that.
abbrev pub memory : Device
memory (write a v ∷ log) addr = some v
memory log addr = some 0x0100_ff01

-- Bus addresses are the addresses, and mapping succeeds.
abbrev pub direct : Dma
direct log addr len = (addr, false)

-- The device has completed the transfers up to element 2, the last with 60 bytes.
abbrev pub completion : Tre
completion = record { ptr = 5032; dword0 = 0x0200_003c; dword1 = 0x0522_0000 }

-- An event ring with two events for the driver, in elements 1 and 2.
abbrev pub event_ring : Ring
event_ring = record {
  iommu_base = 9000;
  ctxt_rbase = 9000;
  ctxt_rp = 9048;
  ctxt_wp = 9000;
  ctxt_rlen = 64;
  base = 3000;
  rp = 3016;
  wp = 3000;
  el_size = 16;
  len = 64;
  elements = 4;
  db_addr = 700;
}

-- Both events are for channel 5 of a controller that has one channel only.
abbrev pub event : Event
event = record {
  er_index = 0;
  offload_ev = false;
  hw_ring = false;
  db_cfg = record { reset_req = false; db_mode = true; db_val = 0; process_db = brstmode_disable };
  ring = event_ring;
  tres = no_tre ∷ completion ∷ completion ∷ no_tre ∷ [];
}

abbrev pub served : Ctrl
served = record ctrl { events = event ∷ [] }
