-- ===== src/Config/Events.antt =====
-- `parse_ev_cfg` and `parse_config`.
use mhi_for_quectel_modem.Base.{
  ℕ, ◌+◌, ◌*◌, ◌^◌, ◌-◌, bit_and, bit_or, Bool, true, false, not, ◌&&◌, Option, none, some, List,
  [], ◌∷◌, length, ltb, ◌==◌, if◌then◌else◌,
}
use mhi_for_quectel_modem.Regs.{vfree, kfree, not32}
use mhi_for_quectel_modem.Tre.{max_mtu}
use mhi_for_quectel_modem.Pm.State.{bit, m0, m2}
use mhi_for_quectel_modem.Ctrl.{Code, ok, err, einval, enomem}
use mhi_for_quectel_modem.Channel.{Memory}
use mhi_for_quectel_modem.Config.{
  DataType, er_data, er_ctrl, er_other, EventConfig, ControllerConfig, EventConf, Configured,
  is_brst, processor, default_timeout,
}
use mhi_for_quectel_modem.Config.Channels.{parse_ch_cfg}

-- `U32_MAX`: no dedicated channel.
abbrev pub no_channel : ℕ
no_channel = 2 ^ 32 - 1

abbrev pub is_supported : DataType → Bool
is_supported er_data = true
is_supported er_ctrl = true
is_supported er_other = false

-- One round of the loop: the event ring with number `i`, or `none` for `goto error_ev_cfg`.
unfoldable pub parse_event : ℕ → ℕ → EventConfig → Option EventConf
parse_event max_chan i cfg =
    if not (cfg.channel == no_channel) && not (ltb cfg.channel max_chan)
    then none
    else if not (is_brst cfg.mode)
    then none
    else if not (is_supported cfg.data_type)
    then none
    else some (record {
      er_index = i;
      elements = cfg.num_elements;
      intmod = cfg.irq_moderation_ms;
      irq = cfg.irq;
      mhi_chan = if cfg.channel == no_channel then none else some cfg.channel;
      priority = 1;
      brst = cfg.mode;
      process_db = processor cfg.mode;
      data_type = cfg.data_type;
      hw_ring = cfg.hardware_event;
      cl_manage = cfg.client_managed;
      offload_ev = cfg.offload_channel;
    })

-- The loop, from ring `i` on.
unfoldable pub parse_events : ℕ → ℕ → List EventConfig → Option (List EventConf)
parse_events max_chan i [] = some []
parse_events max_chan i (cfg ∷ cfgs) = elim (parse_event max_chan i cfg) [
  | none ↦ none
  | some e ↦ elim (parse_events max_chan (i + 1) cfgs) [ none ↦ none | some es ↦ some (e ∷ es) ]
]

-- How many of the rings are hardware rings.
unfoldable pub count_hw : List EventConf → ℕ
count_hw [] = 0
count_hw (e ∷ es) = if e.hw_ring then count_hw es + 1 else count_hw es

-- `parse_ev_cfg`; `size` is `sizeof(struct mhi_event)`. The two counts of rings, which after an error stay at what
-- the rounds before made of them, are those of a controller that is not registered then.
unfoldable pub parse_ev_cfg : Memory → ℕ → ControllerConfig → Configured → Configured × Code
parse_ev_cfg mem size config c =
    let num = length config.event_cfg in
    let c₁ = record c { total_ev_rings = num } in
    elim (mem c.log (num * size)) [
      | none ↦ (c₁, err enomem)
      | some p ↦ elim (parse_events c.max_chan 0 config.event_cfg) [
        | none ↦ (record c₁ { log = kfree p ∷ c.log }, err einval)
        | some es ↦ (
          record c₁ {
            events = es;
            hw_ev_rings = c.hw_ev_rings + count_hw es;
            sw_ev_rings = c.sw_ev_rings + (num - count_hw es);
          },
          ok,
        )
      ]
    ]

-- What `parse_config` sets after the channels and the event rings.
abbrev pub with_rest : ControllerConfig → Configured → Configured
with_rest config c =
    let db_access = bit_or (bit m0) (bit m2) in
    record c {
      timeout_ms = if config.timeout_ms == 0 then default_timeout else config.timeout_ms;
      bounce_buf = config.use_bounce_buf;
      buffer_len = if config.buf_len == 0 then max_mtu else config.buf_len;
      db_access = if config.m2_no_db then bit_and db_access (not32 (bit m2)) else db_access;
    }

-- `parse_config`
unfoldable pub parse_config : Memory → ℕ → ℕ → ControllerConfig → Configured → Configured × Code
parse_config mem chan_size event_size config c =
    let (c₁, ret) = parse_ch_cfg mem chan_size config c in
    elim ret [
      | err e ↦ (c₁, err e)
      | ok ↦
          let (c₂, ret₂) = parse_ev_cfg mem event_size config c₁ in
          elim ret₂ [
            | err e ↦ (record c₂ { log = vfree c₂.mhi_chan ∷ c₂.log }, err e)
            | ok ↦ (with_rest config c₂, ok)
          ]
    ]
