-- ===== src/Config.antt =====
-- The configuration that a controller is registered with: `parse_ch_cfg`, `parse_ev_cfg` and
-- `parse_config` of drivers/bus/mhi/core/init.c, and the structures of include/linux/mhi.h and
-- drivers/bus/mhi/core/internal.h that they read and fill in.
pub mod Channels
pub mod Events
pub mod Results
use mhi_for_quectel_modem.Base.{
  ℕ, zero, ◌+◌, ◌*◌, ◌^◌, bit_and, bit_or, Bool, true, false, Option, none, some, List, [],
  if◌then◌else◌, ◌==◌, replicate, length,
}
use mhi_for_quectel_modem.Regs.{Log, Act, ProcessDb, vfree, brstmode, brstmode_disable}
use mhi_for_quectel_modem.Pm.State.{bit, m0, m2}
use mhi_for_quectel_modem.Ctrl.{Code, ok, err, einval, enomem}
use mhi_for_quectel_modem.Channel.{Memory}

-- `enum dma_data_direction`
pub data DmaDirection : Type 0 where
  bidirectional to_device from_device none_at_all : DmaDirection

-- `struct mhi_channel_config`
pub record ChannelConfig : Type 0 where
  pub name : ℕ
  pub num : ℕ
  pub num_elements : ℕ
  pub local_elements : ℕ
  pub event_ring : ℕ
  pub dir : DmaDirection
  pub type : ℕ
  pub ee_mask : ℕ
  pub pollcfg : ℕ
  pub doorbell : ℕ
  pub lpm_notify : Bool
  pub offload_channel : Bool
  pub doorbell_mode_switch : Bool
  pub auto_queue : Bool
  pub auto_start : Bool

-- `enum mhi_er_data_type`, and other values of it.
pub data DataType : Type 0 where
  er_data er_ctrl er_other : DataType

-- `struct mhi_event_config`
pub record EventConfig : Type 0 where
  pub num_elements : ℕ
  pub irq_moderation_ms : ℕ
  pub irq : ℕ
  pub channel : ℕ
  pub mode : ℕ
  pub data_type : DataType
  pub hardware_event : Bool
  pub client_managed : Bool
  pub offload_channel : Bool

-- `struct mhi_controller_config`, where the two lists stand for the arrays and their lengths.
pub record ControllerConfig : Type 0 where
  pub max_channels : ℕ
  pub timeout_ms : ℕ
  pub buf_len : ℕ
  pub ch_cfg : List ChannelConfig
  pub event_cfg : List EventConfig
  pub use_bounce_buf : Bool
  pub m2_no_db : Bool

-- The members of `struct mhi_chan` that a configuration sets.
pub record ChanConf : Type 0 where
  pub name : ℕ
  pub chan : ℕ
  pub tre_elements : ℕ
  pub buf_elements : ℕ
  pub er_index : ℕ
  pub dir : DmaDirection
  pub type : ℕ
  pub ee_mask : ℕ
  pub pollcfg : ℕ
  pub reset_req : Bool
  pub brst : ℕ
  pub process_db : ProcessDb
  pub lpm_notify : Bool
  pub offload_ch : Bool
  pub pre_alloc : Bool
  pub auto_start : Bool
  pub configured : Bool

-- The members of `struct mhi_event` that a configuration sets; `mhi_chan` is the number of the channel.
pub record EventConf : Type 0 where
  pub er_index : ℕ
  pub elements : ℕ
  pub intmod : ℕ
  pub irq : ℕ
  pub mhi_chan : Option ℕ
  pub priority : ℕ
  pub brst : ℕ
  pub process_db : ProcessDb
  pub data_type : DataType
  pub hw_ring : Bool
  pub cl_manage : Bool
  pub offload_ev : Bool

-- The members of `struct mhi_controller` that a configuration sets; `mhi_chan` is the address of the channels.
pub record Configured : Type 0 where
  pub max_chan : ℕ
  pub mhi_chan : ℕ
  pub chans : List ChanConf
  pub lpm_chans : List ℕ
  pub total_ev_rings : ℕ
  pub events : List EventConf
  pub hw_ev_rings : ℕ
  pub sw_ev_rings : ℕ
  pub timeout_ms : ℕ
  pub bounce_buf : Bool
  pub buffer_len : ℕ
  pub db_access : ℕ
  pub log : Log

-- MHI_DB_BRST_DISABLE, MHI_DB_BRST_ENABLE and MHI_INVALID_BRSTMODE
abbrev pub brst_disable : ℕ
brst_disable = 2

abbrev pub brst_enable : ℕ
brst_enable = 3

abbrev pub is_brst : ℕ → Bool
is_brst mode = if mode == brst_disable then true else mode == brst_enable

abbrev pub processor : ℕ → ProcessDb
processor brst = if brst == brst_enable then brstmode else brstmode_disable

-- MHI_TIMEOUT_MS
abbrev pub default_timeout : ℕ
default_timeout = 1000
