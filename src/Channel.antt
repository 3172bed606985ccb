-- ===== src/Channel.antt =====
-- The life of a channel: `mhi_init_chan_ctxt` and `mhi_deinit_chan_ctxt` of
-- drivers/bus/mhi/core/init.c, and `mhi_prepare_channel`, `__mhi_unprepare_channel`, `mhi_reset_chan`
-- and `mhi_mark_stale_events` of drivers/bus/mhi/core/main.c.
pub mod Stale
pub mod Start
pub mod Stop
pub mod Outcome
use mhi_for_quectel_modem.Base.{
  ℕ, zero, suc, ◌+◌, ◌-◌, ◌*◌, ◌/◌, ◌%◌, ◌^◌, bit_and, bit_or, Bool, true, false, not, ◌&&◌, ◌||◌,
  Option, none, some, List, [], ◌∷◌, get_elem?, get_or, set, replicate, test, ◌==◌, if◌then◌else◌,
}
use mhi_for_quectel_modem.Regs.{Act, Log, not32, vfree, kmalloc, kfree, runtime_get_put}
use mhi_for_quectel_modem.Tre.{
  Tre, reset_chan, start_chan, get_ev_type, get_ev_chid, ev_dword1, tx_event, stale_event,
}
use mhi_for_quectel_modem.Ring.{Ring, to_virtual, get_nr_avail_ring_elements}
use mhi_for_quectel_modem.Pm.State.{in_error_state}
use mhi_for_quectel_modem.Ctrl.{
  Ctrl, Chan, BufInfo, Event, disabled, enabled, Code, ok, err, eio, enomem, enotconn, act,
  db_access_valid, ring_chan_db,
}
use mhi_for_quectel_modem.Wake.{wake_toggle}
use mhi_for_quectel_modem.Queue.{Dma, slot, no_buf, no_tre, eot, gen_tre, send_cmd}
use mhi_for_quectel_modem.Complete.{rounds_in, reset_data_chan}

-- `vzalloc` and `kmalloc` of the kernel: the address of new memory of a length, if there is any.
abbrev pub Memory : Type 0
Memory = Log → ℕ → Option ℕ

-- `wait_for_completion_timeout` on the channel's completion, with what the other threads and the
-- device do meanwhile; 0 is a timeout.
abbrev pub Await : Type 0
Await = Ctrl → Chan → Ctrl × Chan × ℕ

-- `sizeof(struct mhi_buf_info)`, for 64-bit pointers.
abbrev pub buf_info_size : ℕ
buf_info_size = 56

-- MHI_EV_CC_SUCCESS
abbrev pub cc_success : ℕ
cc_success = 1

-- The buffer ring of `mhi_init_chan_ctxt`, before its memory is there.
abbrev pub sized_buf_ring : Ring → Ring
sized_buf_ring r = record r { el_size = buf_info_size; len = buf_info_size * r.elements; base = 0 }

-- `mhi_init_chan_ctxt`
unfoldable pub init_chan_ctxt : Memory → Log → Chan → Chan × Code
init_chan_ctxt mem log ch =
    let buf = sized_buf_ring ch.buf_ring in
    let tre = ch.tre_ring in
    elim (mem log (buf.len)) [
      | none ↦ (record ch { buf_ring = buf }, err enomem)
      | some p ↦ (
        record ch {
          chcfg = bit_or (bit_and ch.chcfg (not32 0xFF)) 1;
          tre_ring = record tre {
            ctxt_rbase = tre.iommu_base;
            ctxt_rp = tre.iommu_base;
            ctxt_wp = tre.iommu_base;
            ctxt_rlen = tre.len;
            rp = tre.base;
            wp = tre.base;
          };
          buf_ring = record buf { base = p; rp = p; wp = p };
          bufs = replicate buf.elements no_buf;
          db_cfg = record (ch.db_cfg) { db_mode = true };
        },
        ok,
      )
    ]

-- `mhi_deinit_chan_ctxt`
unfoldable pub deinit_chan_ctxt : Ctrl × Chan → Ctrl × Chan
deinit_chan_ctxt (c, ch) =
    (act (vfree ch.buf_ring.base) c, record ch { buf_ring = record (ch.buf_ring) { base = 0 } })

-- What `mhi_mark_stale_events` makes of one element of the event ring.
unfoldable pub mark_stale : ℕ → Tre → Tre
mark_stale chan tre =
    if (get_ev_type tre == tx_event) && (chan == get_ev_chid tre)
    then record tre { dword1 = ev_dword1 chan stale_event }
    else tre

-- `local_rp++`, back to the start at the very end.
abbrev pub step_event : Ring → ℕ → ℕ
step_event ring p = let q = p + 16 in if q == ring.base + ring.len then ring.base else q

-- `while (dev_rp != local_rp)`
unfoldable pub mark_from : ℕ → Ring → ℕ → ℕ → ℕ → List Tre → Option (List Tre)
mark_from zero ring chan dev_rp local_rp tres = none
mark_from (suc fuel) ring chan dev_rp local_rp tres =
    let k = slot ring local_rp in
    let rest =
      mark_from fuel ring chan dev_rp (step_event ring local_rp)
        (set tres k (mark_stale chan (get_or tres k no_tre))) in
    if dev_rp == local_rp then some tres else rest

-- `mhi_mark_stale_events`
unfoldable pub mark_stale_events : Event → ℕ → Option Event
mark_stale_events e chan =
    elim (mark_from (rounds_in e.ring) e.ring chan (to_virtual e.ring e.ring.ctxt_rp) e.ring.rp
      e.tres) [ none ↦ none | some tres ↦ some (record e { tres = tres }) ]

-- `mhi_reset_chan`. `none` is a loop that does not end, or an event ring that is not there.
unfoldable pub reset_channel : Ctrl → Chan → Option (Ctrl × Chan)
reset_channel c ch = if ch.offload_ch then some (c, ch) else elim (get_elem? c.events ch.er_index) [
  | none ↦ none
  | some e ↦ elim (mark_stale_events e ch.chan) [
    | none ↦ none
    | some e' ↦ reset_data_chan (record c { events = set c.events ch.er_index e' }) ch
  ]
]

-- The label `error_invalid_state` of `__mhi_unprepare_channel`.
unfoldable pub release_channel : Ctrl → Chan → Option (Ctrl × Chan)
release_channel c ch =
    if ch.offload_ch
    then some (c, ch)
    else elim (reset_channel c ch) [ none ↦ none | some s ↦ some (deinit_chan_ctxt s) ]

-- `wake_toggle`, `runtime_get` and `runtime_put`.
abbrev pub wake_up : Ctrl → Ctrl
wake_up c = act runtime_get_put (wake_toggle c)

-- `__mhi_unprepare_channel`. The result of the wait is only reported.
unfoldable pub unprepare_channel : Await → Ctrl → Chan → Option (Ctrl × Chan)
unprepare_channel await c ch = elim ch.ch_state [
  | disabled ↦ some (c, ch)
  | enabled ↦
      let ch₁ = record ch { ch_state = disabled; completed = false } in
      if in_error_state c.pm_state
      then release_channel c ch₁
      else (let (c₁, ret) = send_cmd (wake_up c) ch.chan reset_chan in
          elim ret [
            | err _ ↦ release_channel c₁ ch₁
            | ok ↦ let (c₂, ch₂, _) = await c₁ ch₁ in release_channel c₂ ch₂
          ])
]

-- `while (nr_el--)`: a buffer of the driver's for each free element.
unfoldable pub fill_channel : Memory → Dma → ℕ → Ctrl → Chan → Ctrl × Chan × Code
fill_channel mem dma zero c ch = (c, ch, ok)
fill_channel mem dma (suc nr_el) c ch = elim (mem c.log c.buffer_len) [
  | none ↦ (c, ch, err enomem)
  | some buf ↦
      let c₁ = act (kmalloc buf) c in
      let (ch₁, ret) =
        gen_tre dma c₁.log ch (record no_buf { v_addr = buf; cb_buf = buf; len = c.buffer_len })
          eot in
      elim ret [ err e ↦ (act (kfree buf) c₁, ch₁, err e) | ok ↦ fill_channel mem dma nr_el c₁ ch₁ ]
]

-- The labels `error_pm_state` and `error_init_chan` of `mhi_prepare_channel`.
unfoldable pub give_up : Ctrl → Chan → Code → Option (Ctrl × Chan × Code)
give_up c ch ret =
    if ch.offload_ch
    then some (c, ch, ret)
    else (let (c₁, ch₁) = deinit_chan_ctxt (c, ch) in some (c₁, ch₁, ret))

-- `mhi_prepare_channel` once the device has started the channel.
unfoldable pub started : Memory → Dma → Await → Ctrl → Chan → Option (Ctrl × Chan × Code)
started mem dma await c ch =
    let ch₁ = record ch { ch_state = enabled } in
    if not ch₁.pre_alloc
    then some (c, ch₁, ok)
    else (let (c₂, ch₂, ret) =
          fill_channel mem dma (get_nr_avail_ring_elements ch₁.tre_ring) c ch₁ in
        elim ret [
          | err e ↦ elim (unprepare_channel await c₂ ch₂) [
            | none ↦ none
            | some (c₃, ch₃) ↦ some (c₃, ch₃, err e)
          ]
          | ok ↦
              if db_access_valid c₂
              then (let (log, ch₃) = ring_chan_db c₂.log ch₂ in
                  some (record c₂ { log = log }, ch₃, ok))
              else some (c₂, ch₂, ok)
        ])

-- `mhi_prepare_channel` from the test of the power state on.
unfoldable pub start_channel : Memory → Dma → Await → Ctrl → Chan → Option (Ctrl × Chan × Code)
start_channel mem dma await c ch =
    let ch₁ = record ch { completed = false } in
    if in_error_state c.pm_state
    then give_up c ch₁ (err eio)
    else (let (c₁, ret) = send_cmd (wake_up c) ch.chan start_chan in
        elim ret [
          | err e ↦ give_up c₁ ch₁ (err e)
          | ok ↦
              let (c₂, ch₂, left) = await c₁ ch₁ in
              if (left == 0) || not (ch₂.ccs == cc_success)
              then give_up c₂ ch₂ (err eio)
              else started mem dma await c₂ ch₂
        ])

-- `mhi_prepare_channel`
unfoldable pub prepare_channel : Memory → Dma → Await → Ctrl → Chan → Option (Ctrl × Chan × Code)
prepare_channel mem dma await c ch =
    if not (test (2 ^ c.ee) ch.ee_mask) then some (c, ch, err enotconn) else elim ch.ch_state [
      | enabled ↦ some (c, ch, err eio)
      | disabled ↦
          if ch.offload_ch
          then start_channel mem dma await c ch
          else (let (ch₁, ret) = init_chan_ctxt mem c.log ch in
              elim ret [ err e ↦ some (c, ch₁, err e) | ok ↦ start_channel mem dma await c ch₁ ])
    ]
