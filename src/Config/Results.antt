-- ===== src/Config/Results.antt =====
-- Which configurations are accepted, and what they make of the channels.
use mhi_for_quectel_modem.Base.{
  ℕ, zero, suc, ◌*◌, ◌<◌, true, false, none, some, some-injective, All, List, [], ◌∷◌, ◌++◌, length,
  get_or, set, replicate, length-set, length-replicate, get_or-set_self, get_or-set_ne,
  Option-cases, Bool-cases, ◌≡◌, ◌≢◌, ◌↔◌, ◌⊎◌, inl, inr, refl, sym, ap, ◌∙◌, arith, ◌==◌,
  ℕ_discrete, if◌then◌else◌,
}
use mathlib.Core.Path.{subst}
use mhi_for_quectel_modem.Ctrl.{ok}
use mhi_for_quectel_modem.Channel.{Memory}
use mhi_for_quectel_modem.Config.{
  DmaDirection, bidirectional, to_device, from_device, none_at_all, ChannelConfig, ControllerConfig,
  ChanConf, Configured, brst_disable, brst_enable, is_brst,
}
use mhi_for_quectel_modem.Config.Channels.{
  is_from_device, is_one_way, zero_chan, parse_channel, parse_channels, parse_ch_cfg,
}

-- What a channel's configuration has to be, for a controller of `max` channels.
pub record IsAcceptable (max : ℕ) (cfg : ChannelConfig) : Type 0 where
  pub there : cfg.num < max
  pub room : 0 < cfg.num_elements
  pub downwards : cfg.auto_queue ≡ true → cfg.dir ≡ from_device
  pub one_way : cfg.offload_channel ≡ false → (cfg.dir ≡ to_device) ⊎ (cfg.dir ≡ from_device)
  pub doorbell :
      cfg.offload_channel ≡ false → (cfg.doorbell ≡ brst_disable) ⊎ (cfg.doorbell ≡ brst_enable)

-- What a configured channel with number `k` is.
pub record IsWellFormed (k : ℕ) (ch : ChanConf) : Type 0 where
  pub number : ch.chan ≡ k
  pub tre_room : 0 < ch.tre_elements
  pub buf_room : 0 < ch.buf_elements
  pub downwards : ch.pre_alloc ≡ true → ch.dir ≡ from_device
  pub one_way : ch.offload_ch ≡ false → (ch.dir ≡ to_device) ⊎ (ch.dir ≡ from_device)
  pub doorbell : ch.offload_ch ≡ false → (ch.brst ≡ brst_disable) ⊎ (ch.brst ≡ brst_enable)

is_from_device-eq : (dir : DmaDirection) → is_from_device dir ≡ true → dir ≡ from_device
is_from_device-eq bidirectional h = absurd (ground (arith, h))
is_from_device-eq to_device h = absurd (ground (arith, h))
is_from_device-eq from_device h = refl
is_from_device-eq none_at_all h = absurd (ground (arith, h))

is_one_way-eq :
    (dir : DmaDirection) → is_one_way dir ≡ true → (dir ≡ to_device) ⊎ (dir ≡ from_device)
is_one_way-eq bidirectional h = absurd (ground (arith, h))
is_one_way-eq to_device h = inl refl
is_one_way-eq from_device h = inr refl
is_one_way-eq none_at_all h = absurd (ground (arith, h))

-- The members that the checks are about.
parse_channel_fields :
    (max : ℕ) (cfg : ChannelConfig) (old ch : ChanConf)
    → parse_channel max cfg old ≡ some ch
    → (ch.chan ≡ cfg.num)
      × (ch.tre_elements ≡ cfg.num_elements)
      × (ch.buf_elements
          ≡ (if cfg.local_elements == 0 then cfg.num_elements else cfg.local_elements))
      × (ch.pre_alloc ≡ cfg.auto_queue)
      × (ch.dir ≡ cfg.dir)
      × (ch.offload_ch ≡ cfg.offload_channel)
      × ((cfg.offload_channel ≡ false) → ch.brst ≡ cfg.doorbell)
unfolding parse_channel
parse_channel_fields max cfg old ch h = (
  ground (arith, h),
  ground (arith, h),
  ground (arith, h),
  ground (arith, h),
  ground (arith, h),
  ground (arith, h),
  λ o. ground (arith, h, o),
)

parse_channel-IsAcceptable :
    (max : ℕ) (cfg : ChannelConfig) (old ch : ChanConf)
    → parse_channel max cfg old ≡ some ch
    → IsAcceptable max cfg
unfolding parse_channel
parse_channel-IsAcceptable max cfg old ch h = record {
  there = ground (arith, h);
  room = ground (arith, h);
  downwards = λ a. is_from_device-eq cfg.dir (ground (arith, h, a));
  one_way = λ o. is_one_way-eq cfg.dir (ground (arith, h, o));
  doorbell = λ o. ground (arith, h, o);
}

parse_channel-IsWellFormed :
    (max : ℕ) (cfg : ChannelConfig) (old ch : ChanConf)
    → parse_channel max cfg old ≡ some ch
    → IsWellFormed cfg.num ch
parse_channel-IsWellFormed max cfg old ch h =
    let v = parse_channel-IsAcceptable max cfg old ch h in
    let (num, tre, buf, pre, dir, off, brst) = parse_channel_fields max cfg old ch h in
    record {
      number = num;
      tre_room = omega (arith, tre, v.room);
      buf_room = ground (arith, buf, v.room);
      downwards = λ a. dir ∙ v.downwards (sym pre ∙ a);
      one_way =
          λ o. elim (v.one_way (sym off ∙ o)) [ inl e ↦ inl (dir ∙ e) | inr e ↦ inr (dir ∙ e) ];
      doorbell = λ o. elim (v.doorbell (sym off ∙ o)) [
        | inl e ↦ inl (brst (sym off ∙ o) ∙ e)
        | inr e ↦ inr (brst (sym off ∙ o) ∙ e)
      ];
    }

-- The tests that a configuration passes that is acceptable.
IsAcceptable-tests :
    {max : ℕ} {cfg : ChannelConfig}
    → IsAcceptable max cfg
    → ((cfg.auto_queue ≡ false) ⊎ (is_from_device cfg.dir ≡ true))
      × ((cfg.offload_channel ≡ true)
          ⊎ ((is_one_way cfg.dir ≡ true) × (is_brst cfg.doorbell ≡ true)))
IsAcceptable-tests {cfg = cfg} v = (
  elim (Bool-cases cfg.auto_queue) [
    | inl a ↦ inr (ap is_from_device (v.downwards a))
    | inr a ↦ inl a
  ],
  elim (Bool-cases cfg.offload_channel) [
    | inl o ↦ inl o
    | inr o ↦ inr (
      elim (v.one_way o) [ inl e ↦ ap is_one_way e | inr e ↦ ap is_one_way e ],
      elim (v.doorbell o) [ inl e ↦ ap is_brst e | inr e ↦ ap is_brst e ],
    )
  ],
)

IsAcceptable-parse :
    (max : ℕ) (cfg : ChannelConfig) (old : ChanConf)
    → IsAcceptable max cfg
    → parse_channel max cfg old ≢ none
unfolding parse_channel
IsAcceptable-parse max cfg old v h =
    let (down, way) = IsAcceptable-tests v in ground (arith, h, v.there, v.room, down, way)

-- Every channel of an array is unconfigured or has its own number.
abbrev pub IsTable : ℕ → List ChanConf → Type 0
IsTable max chans =
    (length chans ≡ max)
    × ((k : ℕ)
        → (get_or chans k zero_chan).configured ≡ true
        → IsWellFormed k (get_or chans k zero_chan))

set-IsTable :
    (max : ℕ) (chans : List ChanConf) (k : ℕ) (ch : ChanConf)
    → IsTable max chans
    → k < max
    → IsWellFormed k ch
    → IsTable max (set chans k ch)
set-IsTable max chans k ch (size, good) hk v = (
  length-set chans k ch ∙ size,
  λ x. elim (ℕ_discrete k x) [
    | yes e ↦ rw (← e, get_or-set_self chans k ch zero_chan (omega (arith, size, hk))) (λ _. v)
    | no ne ↦ rw (get_or-set_ne chans ch zero_chan ne) (good x)
  ],
)

parse_channels-IsTable :
    (max : ℕ) (cfgs : List ChannelConfig) (s s' : List ChanConf × List ℕ)
    → IsTable max s.0
    → parse_channels max cfgs s ≡ some s'
    → All (IsAcceptable max) cfgs × IsTable max s'.0
unfolding parse_channels
parse_channels-IsTable max [] s s' v h =
    (tt, subst (λ (t : List ChanConf × List ℕ). IsTable max t.0) (some-injective s s' h) v)
parse_channels-IsTable max (cfg ∷ cfgs) (chans, lpm) s' v h =
    elim (Option-cases (parse_channel max cfg (get_or chans cfg.num zero_chan))) [
      | inl e ↦ absurd (ground (arith, e, h))
      | inr (ch, e) ↦
          let good = parse_channel-IsAcceptable max cfg _ ch e in
          let (rest, table) =
            parse_channels-IsTable max cfgs
              (set chans cfg.num ch, if ch.lpm_notify then lpm ++ (ch.chan ∷ []) else lpm) s'
              (set-IsTable max chans cfg.num ch v good.there
                (parse_channel-IsWellFormed max cfg _ ch e))
              (ground (arith, e, h)) in
          ((good, rest), table)
    ]

parse_channels-total :
    (max : ℕ) (cfgs : List ChannelConfig) (s : List ChanConf × List ℕ)
    → All (IsAcceptable max) cfgs
    → parse_channels max cfgs s ≢ none
unfolding parse_channels
parse_channels-total max [] s v h = ground (arith, h)
parse_channels-total max (cfg ∷ cfgs) (chans, lpm) (good, rest) h =
    elim (Option-cases (parse_channel max cfg (get_or chans cfg.num zero_chan))) [
      | inl e ↦ IsAcceptable-parse max cfg _ good e
      | inr (ch, e) ↦
          parse_channels-total max cfgs
            (set chans cfg.num ch, if ch.lpm_notify then lpm ++ (ch.chan ∷ []) else lpm) rest
            (ground (arith, e, h))
    ]

-- The two outcomes of `parse_ch_cfg` where there is memory.
parse_ch_cfg_ends :
    (mem : Memory) (size p : ℕ) (config : ControllerConfig) (c : Configured)
    → mem c.log (config.max_channels * size) ≡ some p
    → let r = parse_ch_cfg mem size config c in
      let o =
        parse_channels config.max_channels config.ch_cfg
          (replicate config.max_channels zero_chan, []) in
      ((o ≡ none) × (r.1 ≢ ok))
      ⊎ ((s : List ChanConf × List ℕ) × ((o ≡ some s) × (r.1 ≡ ok) × (r.0.chans ≡ s.0)))
unfolding parse_ch_cfg
parse_ch_cfg_ends mem size p config c there =
    elim (Option-cases (
      parse_channels config.max_channels config.ch_cfg
        (replicate config.max_channels zero_chan, []))) [
          | inl e ↦ inl (e, ground (arith, there, e))
          | inr (s, e) ↦ inr (s, (e, ground (arith, there, e), ground (arith, there, e)))
        ]

replicate_unconfigured : (n k : ℕ) → (get_or (replicate n zero_chan) k zero_chan).configured ≡ false
replicate_unconfigured zero k = refl
replicate_unconfigured (suc n) zero = refl
replicate_unconfigured (suc n) (suc k) = replicate_unconfigured n k

-- Where there is memory for the channels, `parse_ch_cfg` returns 0 exactly if every channel of the configuration
-- is acceptable: its number is below the number of channels, its transfer ring is not empty, it comes from the device
-- if the driver is to provide its buffers, and, unless the client manages it, it has one direction and
-- a doorbell mode that there is. Then the array has as many channels as the configuration says, and every one
-- that is configured has its place's number, rings that are not empty, and these properties.
pub parse_ch_cfg_lem :
    (mem : Memory) (size p : ℕ) (config : ControllerConfig) (c : Configured)
    → mem c.log (config.max_channels * size) ≡ some p
    → let r = parse_ch_cfg mem size config c in
      ((r.1 ≡ ok) ↔ All (IsAcceptable config.max_channels) config.ch_cfg)
      × ((r.1 ≡ ok) → IsTable config.max_channels r.0.chans)
parse_ch_cfg_lem mem size p config c there =
    let max = config.max_channels in
    let table : IsTable max (replicate max zero_chan) = (
      length-replicate max zero_chan,
      λ k h. absurd (ground (arith, h, replicate_unconfigured max k)),
    ) in
    elim (parse_ch_cfg_ends mem size p config c there) [
      | inl (e, bad) ↦ (
        (
          λ h. absurd (bad h),
          λ all.
              absurd (parse_channels-total max config.ch_cfg (replicate max zero_chan, []) all e),
        ),
        λ h. absurd (bad h),
      )
      | inr (s, (e, good, chans)) ↦
          let (all, after) =
            parse_channels-IsTable max config.ch_cfg (replicate max zero_chan, []) s table e in
          ((λ _. all, λ _. good), λ _. rw chans after)
    ]
