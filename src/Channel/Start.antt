-- ===== src/Channel/Start.antt =====
-- What `mhi_prepare_channel` hands to the queueing functions.
use mhi_for_quectel_modem.Base.{
  ℕ, zero, suc, ◌+◌, ◌-◌, ◌*◌, ◌^◌, ◌<◌, ◌≤◌, Bool, true, false, some, length, length-replicate,
  if◌then◌else◌, ◌≡◌, ◌≢◌, ◌⊎◌, inl, inr, refl, sym, ap, ◌∙◌, arith, Option-cases, test,
}
use mhi_for_quectel_modem.Regs.{Log, kmalloc}
use mhi_for_quectel_modem.Ring.{get_nr_avail_ring_elements}
use mhi_for_quectel_modem.Ring.Slots.{next}
use mhi_for_quectel_modem.Ring.Space.{used, nr_avail-eq}
use mhi_for_quectel_modem.Ctrl.{Ctrl, Chan, BufInfo, Code, ok, act, enabled, disabled, ring_chan_db}
use mhi_for_quectel_modem.Tre.{start_chan}
use mhi_for_quectel_modem.Pm.State.{in_error_state}
use mhi_for_quectel_modem.Queue.{Dma, no_buf, eot, gen_tre, send_cmd}
use mhi_for_quectel_modem.Queue.Place.{IsQueue, gen_tre-IsQueue, used-next}
use mhi_for_quectel_modem.Queue.Visible.{IsAt-SameShape}
use mhi_for_quectel_modem.Channel.{
  Memory, Await, buf_info_size, init_chan_ctxt, fill_channel, started, start_channel,
  prepare_channel, cc_success, give_up, wake_up,
}

-- Both channels have the same rings and elements, and are filled by the same side.
pub record SameQueue (ch ch' : Chan) : Type 0 where
  pub tre : ch'.tre_ring ≡ ch.tre_ring
  pub buf : ch'.buf_ring ≡ ch.buf_ring
  pub tre_elements : ch'.tres ≡ ch.tres
  pub buf_elements : ch'.bufs ≡ ch.bufs
  pub alloc : ch'.pre_alloc ≡ ch.pre_alloc

-- The context of a channel whose transfer ring has `n` elements: an empty queue.
init-IsQueue :
    (mem : Memory) (log : Log) (ch : Chan) (n : ℕ)
    → 0 < n
    → 0 < ch.tre_ring.el_size
    → ch.tre_ring.len ≡ n * ch.tre_ring.el_size
    → length ch.tres ≡ n
    → n ≤ ch.buf_ring.elements
    → (init_chan_ctxt mem log ch).1 ≡ ok
    → let ch' = (init_chan_ctxt mem log ch).0 in
      IsQueue ch' n 0 0 ch.buf_ring.elements 0 0
      × (ch'.pre_alloc ≡ ch.pre_alloc)
      × (ch'.offload_ch ≡ ch.offload_ch)
unfolding init_chan_ctxt
init-IsQueue mem log ch n pos size len room larger h =
    elim (Option-cases (mem log (buf_info_size * ch.buf_ring.elements))) [
      | inl e ↦ absurd (ground (arith, e))
      | inr (p, e) ↦
          rw (e, init_chan_ctxt)
            (
              record {
                tre = omega arith;
                buf = omega arith;
                tre_room = room;
                buf_room = length-replicate ch.buf_ring.elements no_buf;
                larger = larger;
                level = omega arith;
              },
              refl,
              refl,
            )
    ]

-- The descriptor of a buffer that the driver allocates.
abbrev own_buf : ℕ → ℕ → BufInfo
own_buf buf len = record no_buf { v_addr = buf; cb_buf = buf; len = len }

-- One round of a filling that succeeds.
fill_channel-suc :
    (mem : Memory) (dma : Dma) (nr : ℕ) (c : Ctrl) (ch : Chan)
    → (fill_channel mem dma (suc nr) c ch).2 ≡ ok
    → (buf : ℕ) × (let c₁ = act (kmalloc buf) c in
        let g = gen_tre dma c₁.log ch (own_buf buf c.buffer_len) eot in
        (g.1 ≡ ok) × (fill_channel mem dma (suc nr) c ch ≡ fill_channel mem dma nr c₁ g.0))
unfolding fill_channel
fill_channel-suc mem dma nr c ch h = elim (Option-cases (mem c.log c.buffer_len)) [
  | inl e ↦ absurd (ground (arith, e))
  | inr (buf, e) ↦ (buf, (ground (arith, e), ground (arith, e)))
]

fill_channel-IsQueue :
    (mem : Memory) (dma : Dma) (nr : ℕ) (c : Ctrl) (ch : Chan) (n i j n' i' j' : ℕ)
    → IsQueue ch n i j n' i' j'
    → used n i j + nr < n
    → (fill_channel mem dma nr c ch).2 ≡ ok
    → (k : ℕ) × (k' : ℕ) × IsQueue (fill_channel mem dma nr c ch).1 n i k n' i' k'
      × (used n i k ≡ used n i j + nr)
unfolding fill_channel
fill_channel-IsQueue mem dma zero c ch n i j n' i' j' q room h = (j, j', q, omega arith)
fill_channel-IsQueue mem dma (suc nr) c ch n i j n' i' j' q room h =
    let (buf, (made, e)) = fill_channel-suc mem dma nr c ch h in
    let info = own_buf buf c.buffer_len in
    let c₁ = act (kmalloc buf) c in
    let spare : used n i j + 1 < n = omega arith in
    let (q₁, _, _, _, _, _) = gen_tre-IsQueue ch n i j n' i' j' dma c₁.log info eot q spare made in
    let more = used-next q spare in
    let (k, k', q₂, level) =
      fill_channel-IsQueue mem dma nr c₁ (gen_tre dma c₁.log ch info eot).0 n i (next n j) n' i'
        (next n' j') q₁ (omega (arith, more, room))
        (ap (λ (r : Ctrl × Chan × Code). r.2) (sym e) ∙ h) in
    (k, k', rw e q₂, omega (arith, level, more))

gen_tre-state :
    (dma : Dma) (log : Log) (ch : Chan) (info : BufInfo) (flags : ℕ)
    → (gen_tre dma log ch info flags).0.ch_state ≡ ch.ch_state
unfolding gen_tre
gen_tre-state dma log ch info flags = ground arith

pub fill_channel-state :
    (mem : Memory) (dma : Dma) (nr : ℕ) (c : Ctrl) (ch : Chan)
    → (fill_channel mem dma nr c ch).2 ≡ ok
    → (fill_channel mem dma nr c ch).1.ch_state ≡ ch.ch_state
unfolding fill_channel
fill_channel-state mem dma zero c ch h = refl
fill_channel-state mem dma (suc nr) c ch h =
    let (buf, (made, e)) = fill_channel-suc mem dma nr c ch h in
    let c₁ = act (kmalloc buf) c in
    let info = own_buf buf c.buffer_len in
    rw e (
      fill_channel-state mem dma nr c₁ (gen_tre dma c₁.log ch info eot).0
        (ap (λ (r : Ctrl × Chan × Code). r.2) (sym e) ∙ h)
      ∙ gen_tre-state dma c₁.log ch info eot)

-- What a success of `mhi_prepare_channel` consists of, once the device has started the channel.
started_parts :
    (mem : Memory) (dma : Dma) (await : Await) (c : Ctrl) (ch : Chan) (c' : Ctrl) (ch' : Chan)
    → started mem dma await c ch ≡ some (c', ch', ok)
    → let on = record ch { ch_state = enabled } in
      let f = fill_channel mem dma (get_nr_avail_ring_elements ch.tre_ring) c on in
      ((ch.pre_alloc ≡ false) × (ch' ≡ on))
      ⊎ ((ch.pre_alloc ≡ true) × (f.2 ≡ ok) × ((ch' ≡ f.1) ⊎ (ch' ≡ (ring_chan_db f.0.log f.1).1)))
unfolding started
started_parts mem dma await c ch c' ch' h = ground arith

-- Ringing the channel's doorbell moves nothing.
ring_chan_db-IsQueue :
    (log : Log) {ch : Chan} {n i j n' i' j' : ℕ}
    → IsQueue ch n i j n' i' j'
    → let ch' = (ring_chan_db log ch).1 in IsQueue ch' n i j n' i' j' × (ch'.ch_state ≡ ch.ch_state)
unfolding ring_chan_db
ring_chan_db-IsQueue log q = (
  record {
    tre = IsAt-SameShape q.tre (refl, refl, refl, refl, refl);
    buf = q.buf;
    tre_room = q.tre_room;
    buf_room = q.buf_room;
    larger = q.larger;
    level = q.level;
  },
  refl,
)

-- A channel that is on, and whose first slots hold the buffers that the driver put there.
abbrev pub IsReadyQueue : Chan → ℕ → ℕ → Bool → Type 0
IsReadyQueue ch n m pre_alloc =
    (k : ℕ) × (k' : ℕ) × IsQueue ch n 0 k m 0 k'
    × (used n 0 k ≡ (if pre_alloc then n - 1 else 0))
    × (ch.ch_state ≡ enabled)

-- The same rings and elements under another state.
IsQueue-SameQueue :
    {ch ch' : Chan} {n i j n' i' j' : ℕ}
    → IsQueue ch n i j n' i' j'
    → SameQueue ch ch'
    → IsQueue ch' n i j n' i' j'
IsQueue-SameQueue q e = record {
  tre = rw e.tre q.tre;
  buf = rw e.buf q.buf;
  tre_room = rw e.tre_elements q.tre_room;
  buf_room = rw e.buf_elements q.buf_room;
  larger = q.larger;
  level = q.level;
}

started_ok :
    (mem : Memory) (dma : Dma) (await : Await) (c : Ctrl) (ch : Chan) (n m : ℕ) (c' : Ctrl)
    (ch' : Chan)
    → IsQueue ch n 0 0 m 0 0
    → n ≤ 2 ^ 31
    → started mem dma await c ch ≡ some (c', ch', ok)
    → IsReadyQueue ch' n m ch.pre_alloc
started_ok mem dma await c ch n m c' ch' q small h =
    elim (started_parts mem dma await c ch c' ch' h) [
      | inl (pre, e) ↦ rw e (0, 0, on_IsQueue, ground (arith, pre), refl)
      | inr (pre, done, last) ↦
          let room = nr_avail-eq q.tre small in
          let (k, k', q', level) =
            fill_channel-IsQueue mem dma nr c on n 0 0 m 0 0 on_IsQueue
              (omega (arith, room, q.tre.rp_in)) done in
          let state = fill_channel-state mem dma nr c on done in
          let full : used n 0 k ≡ n - 1 = omega (arith, level, room, q.tre.rp_in) in
          rw pre (elim last [
            | inl e ↦ rw e (k, k', q', full, state)
            | inr e ↦
                let (q'', same) = ring_chan_db-IsQueue f.0.log q' in
                rw e (k, k', q'', full, same ∙ state)
          ])
    ]
  where
    on : Chan
    on = record ch { ch_state = enabled }

    nr : ℕ
    nr = get_nr_avail_ring_elements ch.tre_ring

    f : Ctrl × Chan × Code
    f = fill_channel mem dma nr c on

    on_IsQueue : IsQueue on n 0 0 m 0 0
    on_IsQueue =
        IsQueue-SameQueue q (record {
          tre = refl;
          buf = refl;
          tre_elements = refl;
          buf_elements = refl;
          alloc = refl;
        })

start_channel_parts :
    (mem : Memory) (dma : Dma) (await : Await) (c : Ctrl) (ch : Chan) (c' : Ctrl) (ch' : Chan)
    → start_channel mem dma await c ch ≡ some (c', ch', ok)
    → (c₁ : Ctrl) × (let w = await c₁ (record ch { completed = false }) in
        (in_error_state c.pm_state ≡ false)
        × (w.1.ccs ≡ cc_success)
        × (w.2 ≢ 0)
        × (started mem dma await w.0 w.1 ≡ some (c', ch', ok)))
unfolding start_channel give_up
start_channel_parts mem dma await c ch c' ch' h = (
  (send_cmd (wake_up c) ch.chan start_chan).0,
  (ground arith, ground arith, ground arith, ground arith),
)

-- What the wait for the device leaves alone: the two rings and their elements, and the side that
-- fills the channel.
abbrev pub Keeps : Await → Type 0
Keeps await = (c : Ctrl) (ch : Chan) → SameQueue ch (await c ch).1

start_channel_ok :
    (mem : Memory) (dma : Dma) (await : Await) (c : Ctrl) (ch : Chan) (n m : ℕ) (c' : Ctrl)
    (ch' : Chan)
    → Keeps await
    → IsQueue ch n 0 0 m 0 0
    → n ≤ 2 ^ 31
    → start_channel mem dma await c ch ≡ some (c', ch', ok)
    → IsReadyQueue ch' n m ch.pre_alloc
start_channel_ok mem dma await c ch n m c' ch' keeps q small h =
    let (c₁, (_, _, _, e)) = start_channel_parts mem dma await c ch c' ch' h in
    let ch₁ = record ch { completed = false } in
    let w = await c₁ ch₁ in
    let same = keeps c₁ ch₁ in
    rw (sym same.alloc) (
      started_ok mem dma await w.0 w.1 n m c' ch'
        (IsQueue-SameQueue
          (IsQueue-SameQueue {ch' = ch₁} q (record {
            tre = refl;
            buf = refl;
            tre_elements = refl;
            buf_elements = refl;
            alloc = refl;
          }))
          same)
        small e)

-- What a success of `mhi_prepare_channel` on a channel with rings consists of.
prepare_channel_parts :
    (mem : Memory) (dma : Dma) (await : Await) (c : Ctrl) (ch : Chan) (c' : Ctrl) (ch' : Chan)
    → prepare_channel mem dma await c ch ≡ some (c', ch', ok)
    → ch.offload_ch ≡ false
    → let i = init_chan_ctxt mem c.log ch in
      (test (2 ^ c.ee) ch.ee_mask ≡ true)
      × (ch.ch_state ≡ disabled)
      × (i.1 ≡ ok)
      × (start_channel mem dma await c i.0 ≡ some (c', ch', ok))
unfolding prepare_channel
prepare_channel_parts mem dma await c ch c' ch' h direct = ground arith

-- If `mhi_prepare_channel` returns 0 for a channel whose rings are the driver's, whose transfer ring has
-- `n` elements, at most 2 ^ 31 and at most as many as its buffer ring, and the wait for the
-- device leaves the channel's rings, elements and `pre_alloc` alone, then the channel was off and
-- is on, its transfer and buffer rings are queues of `n` and of all the buffer ring's elements that
-- start at the first slot, and hold no transfer, or `n - 1`, all that they can, if the driver
-- provides the channel's buffers.
pub prepare_channel_ok :
    (mem : Memory) (dma : Dma) (await : Await) (c : Ctrl) (ch : Chan) (n : ℕ) (c' : Ctrl)
    (ch' : Chan)
    → Keeps await
    → ch.offload_ch ≡ false
    → 0 < n
    → n ≤ 2 ^ 31
    → 0 < ch.tre_ring.el_size
    → ch.tre_ring.len ≡ n * ch.tre_ring.el_size
    → length ch.tres ≡ n
    → n ≤ ch.buf_ring.elements
    → prepare_channel mem dma await c ch ≡ some (c', ch', ok)
    → (ch.ch_state ≡ disabled) × IsReadyQueue ch' n ch.buf_ring.elements ch.pre_alloc
prepare_channel_ok mem dma await c ch n c' ch' keeps direct pos small size len room larger h =
    let (_, off, made, e) = prepare_channel_parts mem dma await c ch c' ch' h direct in
    let (q, alloc, _) = init-IsQueue mem c.log ch n pos size len room larger made in
    (
      off,
      rw (sym alloc) (
          start_channel_ok mem dma await c (init_chan_ctxt mem c.log ch).0 n ch.buf_ring.elements c'
            ch' keeps q small e),
    )
