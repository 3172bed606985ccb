-- ===== src/Channel/Outcome.antt =====
-- Whether a channel is on after `mhi_prepare_channel` and `__mhi_unprepare_channel`.
use mhi_for_quectel_modem.Base.{
  ℕ, zero, suc, false, some, some-injective, Option-cases, Bool-cases, ◌≡◌, ◌≢◌, ◌⊎◌, inl, inr, sym,
  ap, ◌∙◌, arith, ◌==◌, get_elem?, set,
}
use mhi_for_quectel_modem.Ring.{get_nr_avail_ring_elements}
use mhi_for_quectel_modem.Tre.{start_chan, reset_chan}
use mhi_for_quectel_modem.Regs.{Log}
use mhi_for_quectel_modem.Ctrl.{Ctrl, Chan, Code, ok, enabled, disabled, ring_chan_db}
use mhi_for_quectel_modem.Queue.{Dma, send_cmd}
use mhi_for_quectel_modem.Complete.{drop_one, drop_all, reset_data_chan, rounds_in}
use mhi_for_quectel_modem.Channel.{
  Memory, Await, mark_stale_events, wake_up, reset_channel, release_channel, deinit_chan_ctxt,
  unprepare_channel, fill_channel, give_up, started, start_channel, init_chan_ctxt, prepare_channel,
}
use mhi_for_quectel_modem.Channel.Start.{fill_channel-state}

-- The wait for the device turns no channel on or off.
abbrev pub KeepsState : Await → Type 0
KeepsState await = (c : Ctrl) (ch : Chan) → (await c ch).1.ch_state ≡ ch.ch_state

drop_all-state :
    (fuel : ℕ) (s s' : Ctrl × Chan) → drop_all fuel s ≡ some s' → s'.1.ch_state ≡ s.1.ch_state
unfolding drop_all drop_one
drop_all-state zero s s' h = absurd (ground (arith, h))
drop_all-state (suc fuel) s s' h = elim (Bool-cases (s.1.tre_ring.rp == s.1.tre_ring.wp)) [
  | inl e ↦
      ap (λ (t : Ctrl × Chan). t.1.ch_state) (sym (some-injective s s' (ground (arith, e, h))))
  | inr e ↦ drop_all-state fuel (drop_one s) s' (ground (arith, e, h))
]

reset_channel-state :
    (c : Ctrl) (ch : Chan) (s : Ctrl × Chan)
    → reset_channel c ch ≡ some s
    → s.1.ch_state ≡ ch.ch_state
unfolding reset_channel reset_data_chan
reset_channel-state c ch s h = elim (Bool-cases ch.offload_ch) [
  | inl o ↦
      ap (λ (t : Ctrl × Chan). t.1.ch_state) (sym (some-injective (c, ch) s (ground (arith, o, h))))
  | inr o ↦ elim (Option-cases (get_elem? c.events ch.er_index)) [
    | inl e ↦ absurd (ground (arith, o, e, h))
    | inr (e, there) ↦ elim (Option-cases (mark_stale_events e ch.chan)) [
      | inl m ↦ absurd (ground (arith, o, there, m, h))
      | inr (e', m) ↦
          drop_all-state (rounds_in ch.tre_ring)
            (record c { events = set c.events ch.er_index e' }, ch) s
            (ground (arith, o, there, m, h))
    ]
  ]
]

release_channel-state :
    (c : Ctrl) (ch : Chan) (s : Ctrl × Chan)
    → release_channel c ch ≡ some s
    → s.1.ch_state ≡ ch.ch_state
unfolding release_channel deinit_chan_ctxt
release_channel-state c ch s h = elim (Bool-cases ch.offload_ch) [
  | inl o ↦
      ap (λ (t : Ctrl × Chan). t.1.ch_state) (sym (some-injective (c, ch) s (ground (arith, o, h))))
  | inr o ↦ elim (Option-cases (reset_channel c ch)) [
    | inl e ↦ absurd (ground (arith, o, e, h))
    | inr (s', e) ↦
        ap (λ (t : Ctrl × Chan). t.1.ch_state)
          (sym (some-injective (deinit_chan_ctxt s') s (ground (arith, o, e, h))))
        ∙ reset_channel-state c ch s' e
  ]
]

-- The calls of `release_channel` that `__mhi_unprepare_channel` ends in.
unprepare_channel_ends :
    (await : Await) (c : Ctrl) (ch : Chan) (s : Ctrl × Chan)
    → unprepare_channel await c ch ≡ some s
    → let ch₁ = record ch { ch_state = disabled; completed = false } in
      let c₁ = (send_cmd (wake_up c) ch.chan reset_chan).0 in
      let w = await c₁ ch₁ in
      ((ch.ch_state ≡ disabled) × (s ≡ (c, ch)))
      ⊎ ((release_channel c ch₁ ≡ some s)
          ⊎ ((release_channel c₁ ch₁ ≡ some s) ⊎ (release_channel w.0 w.1 ≡ some s)))
unfolding unprepare_channel
unprepare_channel_ends await c ch s h = ground arith

pub unprepare_channel-off :
    (await : Await) (c : Ctrl) (ch : Chan) (s : Ctrl × Chan)
    → KeepsState await
    → unprepare_channel await c ch ≡ some s
    → s.1.ch_state ≡ disabled
unprepare_channel-off await c ch s keeps h = elim (unprepare_channel_ends await c ch s h) [
  | inl (off, e) ↦ ap (λ (t : Ctrl × Chan). t.1.ch_state) e ∙ off
  | inr (inl e) ↦ release_channel-state _ _ s e
  | inr (inr (inl e)) ↦ release_channel-state _ _ s e
  | inr (inr (inr e)) ↦ release_channel-state _ _ s e ∙ keeps _ _
]

-- A channel is on exactly after a success.
abbrev pub Outcome : Chan → Code → Type 0
Outcome ch ret = ((ret ≡ ok) × (ch.ch_state ≡ enabled)) ⊎ ((ret ≢ ok) × (ch.ch_state ≡ disabled))

started_ends :
    (mem : Memory) (dma : Dma) (await : Await) (c : Ctrl) (ch : Chan) (s : Ctrl × Chan × Code)
    → started mem dma await c ch ≡ some s
    → let on = record ch { ch_state = enabled } in
      let f = fill_channel mem dma (get_nr_avail_ring_elements ch.tre_ring) c on in
      ((s.2 ≡ ok) × (s.1.ch_state ≡ enabled))
      ⊎ (((f.2 ≡ ok) × (s.2 ≡ ok) × (s.1.ch_state ≡ f.1.ch_state))
          ⊎ ((s.2 ≢ ok) × (unprepare_channel await f.0 f.1 ≡ some (s.0, s.1))))
unfolding started ring_chan_db
started_ends mem dma await c ch s h = ground arith

started-Outcome :
    (mem : Memory) (dma : Dma) (await : Await) (c : Ctrl) (ch : Chan) (s : Ctrl × Chan × Code)
    → KeepsState await
    → started mem dma await c ch ≡ some s
    → Outcome s.1 s.2
started-Outcome mem dma await c ch s keeps h =
    let on = record ch { ch_state = enabled } in
    elim (started_ends mem dma await c ch s h) [
      | inl e ↦ inl e
      | inr (inl (filled, done, e)) ↦ inl (done, e ∙ fill_channel-state mem dma _ c on filled)
      | inr (inr (failed, e)) ↦ inr (failed, unprepare_channel-off await _ _ (s.0, s.1) keeps e)
    ]

start_channel_ends :
    (mem : Memory) (dma : Dma) (await : Await) (c : Ctrl) (ch : Chan) (s : Ctrl × Chan × Code)
    → start_channel mem dma await c ch ≡ some s
    → let ch₁ = record ch { completed = false } in
      let c₁ = (send_cmd (wake_up c) ch.chan start_chan).0 in
      let w = await c₁ ch₁ in
      ((s.2 ≢ ok) × (s.1.ch_state ≡ ch.ch_state))
      ⊎ (((s.2 ≢ ok) × (s.1.ch_state ≡ w.1.ch_state)) ⊎ (started mem dma await w.0 w.1 ≡ some s))
unfolding start_channel give_up deinit_chan_ctxt
start_channel_ends mem dma await c ch s h = ground arith

start_channel-Outcome :
    (mem : Memory) (dma : Dma) (await : Await) (c : Ctrl) (ch : Chan) (s : Ctrl × Chan × Code)
    → KeepsState await
    → ch.ch_state ≡ disabled
    → start_channel mem dma await c ch ≡ some s
    → Outcome s.1 s.2
start_channel-Outcome mem dma await c ch s keeps off h =
    elim (start_channel_ends mem dma await c ch s h) [
      | inl (failed, e) ↦ inr (failed, e ∙ off)
      | inr (inl (failed, e)) ↦ inr (failed, e ∙ keeps _ _ ∙ off)
      | inr (inr e) ↦ started-Outcome mem dma await _ _ s keeps e
    ]

init-state :
    (mem : Memory) (log : Log) (ch : Chan) → (init_chan_ctxt mem log ch).0.ch_state ≡ ch.ch_state
unfolding init_chan_ctxt
init-state mem log ch = ground arith

prepare_channel_ends :
    (mem : Memory) (dma : Dma) (await : Await) (c : Ctrl) (ch : Chan) (s : Ctrl × Chan × Code)
    → prepare_channel mem dma await c ch ≡ some s
    → ch.ch_state ≡ disabled
    → let i = init_chan_ctxt mem c.log ch in
      ((s.2 ≢ ok) × (s.1.ch_state ≡ disabled))
      ⊎ ((start_channel mem dma await c ch ≡ some s) ⊎ (start_channel mem dma await c i.0 ≡ some s))
unfolding prepare_channel
prepare_channel_ends mem dma await c ch s h off = ground (arith, init-state mem c.log ch)

pub prepare_channel-Outcome :
    (mem : Memory) (dma : Dma) (await : Await) (c : Ctrl) (ch : Chan) (s : Ctrl × Chan × Code)
    → KeepsState await
    → ch.ch_state ≡ disabled
    → prepare_channel mem dma await c ch ≡ some s
    → Outcome s.1 s.2
prepare_channel-Outcome mem dma await c ch s keeps off h =
    elim (prepare_channel_ends mem dma await c ch s h off) [
      | inl e ↦ inr e
      | inr (inl e) ↦ start_channel-Outcome mem dma await c ch s keeps off e
      | inr (inr e) ↦
          start_channel-Outcome mem dma await c _ s keeps (init-state mem c.log ch ∙ off) e
    ]
