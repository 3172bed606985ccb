-- ===== src/Ctrl.antt =====
-- The controller's state (`struct mhi_controller`, `struct mhi_chan`, `struct mhi_event`,
-- `struct mhi_buf_info` of include/linux/mhi.h and drivers/bus/mhi/core/internal.h), and the
-- doorbells of its rings (drivers/bus/mhi/core/main.c).
use mhi_for_quectel_modem.Base.{ℕ, Bool, List, ◌∷◌, test}
use mhi_for_quectel_modem.Regs.{Act, Log, DbCfg, process, write_db}
use mhi_for_quectel_modem.Tre.{Tre}
use mhi_for_quectel_modem.Ring.{Ring, to_device}
use mhi_for_quectel_modem.Pm.State.{PmState, bit, tryset_pm_state}

-- The error codes that the driver returns; a function that returns 0 returns `ok`.
pub data Errno : Type 0 where
  eio einval ebusy enomem etimedout enotconn : Errno

pub data Code : Type 0 where
  ok : Code
  err : Errno → Code

-- `enum mhi_ch_state`: the two states that the driver sets and tests.
pub data ChState : Type 0 where
  disabled enabled : ChState

-- `enum dma_data_direction`: the two directions of a channel.
pub data Direction : Type 0 where
  to_device_dir from_device_dir : Direction

-- `struct mhi_buf_info`.
pub record BufInfo : Type 0 where
  pub v_addr : ℕ
  pub wp : ℕ
  pub cb_buf : ℕ
  pub p_addr : ℕ
  pub len : ℕ
  pub dir : Direction
  pub used : Bool
  pub pre_mapped : Bool

-- `struct mhi_chan`. `tres` and `bufs` are the elements that `tre_ring` and `buf_ring` lie over;
-- `chcfg` is that word of the channel's context,
-- `completed` is the completion, `named` says that `name` is not null, and `has_dev` that `mhi_dev` is
-- not.
pub record Chan : Type 0 where
  pub chan : ℕ
  pub named : Bool
  pub er_index : ℕ
  pub intmod : ℕ
  pub dir : Direction
  pub ee_mask : ℕ
  pub db_cfg : DbCfg
  pub ch_state : ChState
  pub chcfg : ℕ
  pub ccs : ℕ
  pub completed : Bool
  pub has_dev : Bool
  pub offload_ch : Bool
  pub pre_alloc : Bool
  pub tre_ring : Ring
  pub buf_ring : Ring
  pub tres : List Tre
  pub bufs : List BufInfo

-- `struct mhi_event`, with the elements that its ring lies over.
pub record Event : Type 0 where
  pub er_index : ℕ
  pub offload_ev : Bool
  pub hw_ring : Bool
  pub db_cfg : DbCfg
  pub ring : Ring
  pub tres : List Tre

-- `enum dev_st_transition`.
pub data DevTransition : Type 0 where
  pbl ready sbl mission_mode fp sys_err disable : DevTransition

-- The members of `struct mhi_controller` and its `struct mhi_ctxt` that are set before or at power up
-- and only read after that.
pub record Setup : Type 0 where
  pub nr_irqs : ℕ
  pub pre_init : Bool
  pub fbc_download : Bool
  pub bhie : ℕ
  pub hw_ev_rings : ℕ
  pub iova_start : ℕ
  pub iova_stop : ℕ
  pub chan_ctxt_addr : ℕ
  pub er_ctxt_addr : ℕ
  pub cmd_ctxt_addr : ℕ
  pub ctrl_seg_addr : ℕ
  pub ctrl_seg_len : ℕ

-- `struct mhi_controller`. The two atomic counters are their 32-bit patterns. `log` is all that the
-- driver did so far, the latest first.
pub record Ctrl : Type 0 where
  pub pm_state : PmState
  pub dev_state : ℕ
  pub ee : ℕ
  pub dev_wake : ℕ
  pub pending_pkts : ℕ
  pub wake_set : Bool
  pub db_access : ℕ
  pub regs : ℕ
  pub bhi : ℕ
  pub wake_db : ℕ
  pub count_m0 : ℕ
  pub count_m2 : ℕ
  pub count_m3 : ℕ
  pub has_rddm_image : Bool
  pub target_link_speed : ℕ
  pub target_link_width : ℕ
  pub buffer_len : ℕ
  pub setup : Setup
  pub events : List Event
  pub chans : List Chan
  pub cmd_ring : Ring
  pub cmd_tres : List Tre
  pub lpm_chans : List ℕ
  pub transition_list : List DevTransition
  pub log : Log

-- An act of the driver.
abbrev pub act : Act → Ctrl → Ctrl
act a c = record c { log = a ∷ c.log }

-- `mhi_tryset_pm_state` on the controller; what it returns is the state that it leaves.
unfoldable pub tryset : PmState → Ctrl → Ctrl
tryset s c = record c { pm_state = tryset_pm_state c.pm_state s }

-- MHI_DB_ACCESS_VALID
abbrev pub db_access_valid : Ctrl → Bool
db_access_valid c = test (bit c.pm_state) c.db_access

-- `mhi_ring_er_db`, `mhi_ring_cmd_db` and `mhi_ring_chan_db`.
unfoldable pub ring_er_db : Log → Event → Log × Event
unfolding process
ring_er_db log event =
    let (log', cfg) = process log event.db_cfg event.ring.db_addr event.ring.ctxt_wp in
    (log', record event { db_cfg = cfg })

unfoldable pub ring_cmd_db : Log → Ring → Log × Ring
unfolding write_db to_device
ring_cmd_db log ring =
    let db = to_device ring ring.wp in (write_db log ring.db_addr db, record ring { ctxt_wp = db })

unfoldable pub ring_chan_db : Log → Chan → Log × Chan
unfolding process to_device
ring_chan_db log ch =
    let db = to_device ch.tre_ring ch.tre_ring.wp in
    let (log', cfg) = process log ch.db_cfg ch.tre_ring.db_addr db in
    (log', record ch { tre_ring = record (ch.tre_ring) { ctxt_wp = db }; db_cfg = cfg })
