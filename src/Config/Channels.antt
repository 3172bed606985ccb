-- ===== src/Config/Channels.antt =====
-- `parse_ch_cfg`.
use mhi_for_quectel_modem.Base.{
  ℕ, ◌*◌, Bool, true, false, not, ◌&&◌, ◌||◌, Option, none, some, List, [], ◌∷◌, ◌++◌, get_or, set,
  replicate, ltb, ◌==◌, if◌then◌else◌,
}
use mhi_for_quectel_modem.Regs.{vfree, brstmode_disable}
use mhi_for_quectel_modem.Ctrl.{Code, ok, err, einval, enomem}
use mhi_for_quectel_modem.Channel.{Memory}
use mhi_for_quectel_modem.Config.{
  DmaDirection, bidirectional, to_device, from_device, none_at_all, ChannelConfig, ControllerConfig,
  ChanConf, Configured, is_brst, processor,
}

-- The values of `enum dma_data_direction`, which are those of `enum mhi_ch_type`.
abbrev pub dir_code : DmaDirection → ℕ
dir_code bidirectional = 0
dir_code to_device = 1
dir_code from_device = 2
dir_code none_at_all = 3

abbrev pub is_from_device : DmaDirection → Bool
is_from_device dir = dir_code dir == 2

abbrev pub is_one_way : DmaDirection → Bool
is_one_way dir = (dir_code dir == 1) || (dir_code dir == 2)

-- A channel of `vzalloc`.
abbrev pub zero_chan : ChanConf
zero_chan = record {
  name = 0;
  chan = 0;
  tre_elements = 0;
  buf_elements = 0;
  er_index = 0;
  dir = bidirectional;
  type = 0;
  ee_mask = 0;
  pollcfg = 0;
  reset_req = false;
  brst = 0;
  process_db = brstmode_disable;
  lpm_notify = false;
  offload_ch = false;
  pre_alloc = false;
  auto_start = false;
  configured = false;
}

-- One round of the loop: what it makes of the channel, or `none` for `goto error_chan_cfg`.
unfoldable pub parse_channel : ℕ → ChannelConfig → ChanConf → Option ChanConf
parse_channel max_chan cfg old =
    if not (ltb cfg.num max_chan)
    then none
    else if cfg.num_elements == 0
    then none
    else if cfg.auto_queue && not (is_from_device cfg.dir)
    then none
    else if not (is_one_way cfg.dir) && not cfg.offload_channel
    then none
    else if not cfg.offload_channel && not (is_brst cfg.doorbell)
    then none
    else (let brst = if cfg.offload_channel then old.brst else cfg.doorbell in
        some (record {
          name = cfg.name;
          chan = cfg.num;
          tre_elements = cfg.num_elements;
          buf_elements = if cfg.local_elements == 0 then cfg.num_elements else cfg.local_elements;
          er_index = cfg.event_ring;
          dir = cfg.dir;
          type = if cfg.type == 0 then dir_code cfg.dir else cfg.type;
          ee_mask = cfg.ee_mask;
          pollcfg = cfg.pollcfg;
          reset_req = cfg.doorbell_mode_switch;
          brst = brst;
          process_db = processor brst;
          lpm_notify = cfg.lpm_notify;
          offload_ch = cfg.offload_channel;
          pre_alloc = cfg.auto_queue;
          auto_start = cfg.auto_start;
          configured = true;
        }))

-- The loop, with the array of channels and the list of those that are told of a suspend.
unfoldable pub parse_channels :
    ℕ → List ChannelConfig → List ChanConf × List ℕ → Option (List ChanConf × List ℕ)
parse_channels max_chan [] s = some s
parse_channels max_chan (cfg ∷ cfgs) (chans, lpm) =
    elim (parse_channel max_chan cfg (get_or chans cfg.num zero_chan)) [
      | none ↦ none
      | some ch ↦
          parse_channels max_chan cfgs
            (set chans cfg.num ch, if ch.lpm_notify then lpm ++ (ch.chan ∷ []) else lpm)
    ]

-- `parse_ch_cfg`; `size` is `sizeof(struct mhi_chan)`.
unfoldable pub parse_ch_cfg : Memory → ℕ → ControllerConfig → Configured → Configured × Code
parse_ch_cfg mem size config c =
    let c₁ = record c { max_chan = config.max_channels } in
    elim (mem c.log (config.max_channels * size)) [
      | none ↦ (c₁, err enomem)
      | some p ↦
          elim (parse_channels config.max_channels config.ch_cfg
            (replicate config.max_channels zero_chan, [])) [
              | none ↦ (record c₁ { mhi_chan = p; log = vfree p ∷ c.log }, err einval)
              | some (chans, lpm) ↦ (record c₁ { mhi_chan = p; chans = chans; lpm_chans = lpm }, ok)
            ]
    ]
