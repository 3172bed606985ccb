-- ===== src/Complete/Event.antt =====
-- What a transfer event and a channel reset hand back to the client.
use mathlib.Core.Path.{ap₂}
use native.Mathlib.Nat.{mul-div_cancel}
use mhi_for_quectel_modem.Base.{
  ℕ, zero, suc, ◌+◌, ◌/◌, ◌^◌, ◌<◌, false, some, List, [], ◌∷◌, ◌≡◌, ◌⊎◌, refl, ap, ◌∙◌, arith,
  get_or,
}
use mhi_for_quectel_modem.Regs.{Status, Log, xfer_cb}
use mhi_for_quectel_modem.Tre.{Tre, get_ev_code, get_ev_len, get_ev_ptr}
use mhi_for_quectel_modem.Ring.{Ring, to_virtual, to_device}
use mhi_for_quectel_modem.Ring.Slots.{
  IsAt, PointsTo, IsMapped, next, next-lt, advance-PointsTo, to_virtual-to_device,
}
use mhi_for_quectel_modem.Ring.Space.{used}
use mhi_for_quectel_modem.Ctrl.{Ctrl, Chan, BufInfo, enabled}
use mhi_for_quectel_modem.Queue.{Dma, no_buf}
use mhi_for_quectel_modem.Queue.Place.{IsQueue, slot-PointsTo}
use mhi_for_quectel_modem.Complete.{
  cc_eot, cc_eob, cc_overflow, status_of, rounds_in, after_tre, oldest, recycle, complete_one,
  complete_to, drop_one, parse_xfer_event, reset_data_chan,
}
use mhi_for_quectel_modem.Complete.Order.{
  ReadsAt, ReadsAt-del, rounds, complete_to-rounds, drop_all-rounds,
}

-- The buffers that the client's callback was given, the latest first.
unfoldable pub callbacks : Log → List ℕ
callbacks [] = []
callbacks (xfer_cb ch buf bytes st ∷ log) = buf ∷ callbacks log
callbacks (_ ∷ log) = callbacks log

-- The client's buffers of `k` slots from slot `i` on, given one after the other.
abbrev pub deliver : List BufInfo → ℕ → ℕ → ℕ → List ℕ → List ℕ
deliver bufs n i zero given = given
deliver bufs n i (suc k) given = deliver bufs n (next n i) k ((get_or bufs i no_buf).cb_buf ∷ given)

-- A round of a loop that hands the oldest buffer to the client.
pub record Gives (n i : ℕ) (s s' : Ctrl × Chan) : Type 0 where
  pub given : callbacks s'.0.log ≡ (get_or s.1.bufs i no_buf).cb_buf ∷ callbacks s.0.log
  pub kept : s'.1.bufs ≡ s.1.bufs
  pub on : ReadsAt s'.1.buf_ring n (next n i)
  pub manual : s'.1.pre_alloc ≡ false

rounds-deliver :
    (f : Ctrl × Chan → Ctrl × Chan) (n : ℕ)
    → ((i : ℕ) (s : Ctrl × Chan)
        → ReadsAt s.1.buf_ring n i
        → s.1.pre_alloc ≡ false
        → Gives n i s (f s))
    → (k i : ℕ) (s : Ctrl × Chan) → ReadsAt s.1.buf_ring n i
    → s.1.pre_alloc ≡ false
    → callbacks (rounds k f s).0.log ≡ deliver s.1.bufs n i k (callbacks s.0.log)
unfolding rounds
rounds-deliver f n one zero i s v h = refl
rounds-deliver f n one (suc k) i s v h =
    let g = one i s v h in
    rounds-deliver f n one k (next n i) (f s) g.on g.manual
    ∙ ap₂ (λ bufs given. deliver bufs n (next n i) k given) g.kept g.given

oldest-eq : (ch : Chan) (n i : ℕ) → ReadsAt ch.buf_ring n i → oldest ch ≡ get_or ch.bufs i no_buf
oldest-eq ch n i v =
    ap (λ k. get_or ch.bufs k no_buf) (slot-PointsTo ch.buf_ring ch.buf_ring.rp i v.sized v.reads)

pub complete_one-Gives :
    (dma : Dma) (status : Status) (ev_tre ev_len n i : ℕ) (s : Ctrl × Chan)
    → ReadsAt s.1.buf_ring n i
    → s.1.pre_alloc ≡ false
    → Gives n i s (complete_one dma status ev_tre ev_len s)
unfolding complete_one recycle callbacks
complete_one-Gives dma status ev_tre ev_len n i (c, ch) v h = record {
  given = ground (arith, oldest-eq ch n i v);
  kept = ground arith;
  on = rw h (ReadsAt-del v);
  manual = ground arith;
}

pub drop_one-Gives :
    (n i : ℕ) (s : Ctrl × Chan)
    → ReadsAt s.1.buf_ring n i
    → s.1.pre_alloc ≡ false
    → Gives n i s (drop_one s)
unfolding drop_one callbacks
drop_one-Gives n i (c, ch) v h = record {
  given = ground (arith, oldest-eq ch n i v);
  kept = ground arith;
  on = ReadsAt-del v;
  manual = ground arith;
}

-- The read side of a ring.
pub reads_of : {r : Ring} {n i j : ℕ} → IsAt r n i j → ReadsAt r n i
reads_of v = record { sized = v.sized; measured = v.measured; reads = v.reads; rp_in = v.rp_in }

rounds_in-eq : {r : Ring} {n i j : ℕ} → IsAt r n i j → rounds_in r ≡ n + 1
rounds_in-eq {r} {n} v =
    ap (λ t. t / r.el_size + 1) v.measured ∙ ap (λ t. t + 1) (mul-div_cancel n v.sized)

used-lt : (n i m : ℕ) → i < n → m < n → used n i m < n + 1
used-lt n i m hi hm = ground arith

-- The event's loop, once its pointer is known.
runs :
    (dma : Dma) (c : Ctrl) (event : Tre) (ch : Chan) (p : ℕ)
    → ch.ch_state ≡ enabled
    → (get_ev_code event ≡ cc_eot)
      ⊎ ((get_ev_code event ≡ cc_eob) ⊎ (get_ev_code event ≡ cc_overflow))
    → to_virtual ch.tre_ring (get_ev_ptr event) ≡ p
    → parse_xfer_event dma c event ch
      ≡ complete_to
          (rounds_in ch.tre_ring)
          dma
          (status_of (get_ev_code event))
          p
          (get_ev_len event)
          (after_tre ch.tre_ring p)
          (c, ch)
unfolding parse_xfer_event
runs dma c event ch p on code e = ground (arith, e)

module _ (dma : Dma) (c : Ctrl) (event : Tre) (ch : Chan) (n i j n' i' j' k p : ℕ)
    (q : IsQueue ch n i j n' i' j') (on : ch.ch_state ≡ enabled)
    (code : (get_ev_code event ≡ cc_eot)
      ⊎ ((get_ev_code event ≡ cc_eob) ⊎ (get_ev_code event ≡ cc_overflow)))
    (size : ch.tre_ring.el_size ≡ 16) (mapped : IsMapped ch.tre_ring)
    (low : ch.tre_ring.base + ch.tre_ring.len < 2 ^ 64) (hk : k < n) (hp : PointsTo ch.tre_ring p k)
    (hev : get_ev_ptr event ≡ to_device ch.tre_ring p) where
  -- On an enabled channel that is a queue, let an event with the code EOT, EOB or OVERFLOW name
  -- its element by the bus address of slot `k`, in a ring of 16-byte elements that lies within the
  -- 64-bit address spaces. Then the loop of `parse_xfer_event` ends: the elements from the oldest
  -- up to slot `k` are completed one after the other, and the read pointer stands at the slot
  -- after `k`.
  pub parse_xfer_event-completes :
      let s =
        rounds
          (used n i (next n k))
          (complete_one dma (status_of (get_ev_code event)) p (get_ev_len event))
          (c, ch) in
      (parse_xfer_event dma c event ch ≡ some s) × ReadsAt s.1.tre_ring n (next n k)
  parse_xfer_event-completes = (
    runs dma c event ch p on code (
          ap (to_virtual ch.tre_ring) hev
          ∙ to_virtual-to_device ch.tre_ring n k p q.tre.measured hk hp mapped low)
        ∙ loop.0,
    loop.1,
  )
    where
      loop :
          (complete_to
              (rounds_in ch.tre_ring)
              dma
              (status_of (get_ev_code event))
              p
              (get_ev_len event)
              (after_tre ch.tre_ring p)
              (c, ch)
            ≡ some (
                rounds
                  (used n i (next n k))
                  (complete_one dma (status_of (get_ev_code event)) p (get_ev_len event))
                  (c, ch)))
          × ReadsAt
              (rounds
                (used n i (next n k))
                (complete_one dma (status_of (get_ev_code event)) p (get_ev_len event))
                (c, ch)).1.tre_ring
              n
              (next n k)
      loop =
          complete_to-rounds dma (status_of (get_ev_code event)) p (get_ev_len event)
            (after_tre ch.tre_ring p) (rounds_in ch.tre_ring) n i (next n k) (c, ch)
            (reads_of q.tre) (next-lt n k hk)
            (rw (← size) (advance-PointsTo ch.tre_ring n k p q.tre.sized q.tre.measured hk hp))
            (rw (rounds_in-eq q.tre) (used-lt n i (next n k) q.tre.rp_in (next-lt n k hk)))

  -- On an enabled channel that is a queue and whose buffers are the client's, let an event with
  -- the code EOT, EOB or OVERFLOW name its element by the bus address of slot `k`, in a ring of
  -- 16-byte elements that lies within the 64-bit address spaces. Then `parse_xfer_event` ends and
  -- hands the client exactly the buffers of the elements from the oldest up to slot `k`, oldest
  -- first.
  pub parse_xfer_event-gives :
      ch.pre_alloc ≡ false
      → (s : Ctrl × Chan) × (parse_xfer_event dma c event ch ≡ some s)
        × (callbacks s.0.log ≡ deliver ch.bufs n' i' (used n i (next n k)) (callbacks c.log))
  parse_xfer_event-gives own = (
    _,
    parse_xfer_event-completes.0,
    rounds-deliver _ n' (complete_one-Gives dma _ p _ n') _ i' (c, ch) (reads_of q.buf) own,
  )

module _ (c : Ctrl) (ch : Chan) (n i j n' i' j' : ℕ) (q : IsQueue ch n i j n' i' j') where
  -- On a channel that is a queue, `mhi_reset_data_chan` ends after as many rounds as elements are in
  -- use, with the transfer ring empty.
  pub reset_data_chan-empties :
      let s = rounds (used n i j) drop_one (c, ch) in
      (reset_data_chan c ch ≡ some s) × (s.1.tre_ring.rp ≡ s.1.tre_ring.wp)
  unfolding reset_data_chan
  reset_data_chan-empties =
      drop_all-rounds (rounds_in ch.tre_ring) n i j (c, ch) (reads_of q.tre) q.tre.wp_in
        q.tre.writes (rw (rounds_in-eq q.tre) (used-lt n i j q.tre.rp_in q.tre.wp_in))

  -- On a channel that is a queue and whose buffers are the client's, `mhi_reset_data_chan` gives the
  -- client every buffer that was queued, exactly once and oldest first.
  pub reset_data_chan-gives :
      ch.pre_alloc ≡ false
      → (s : Ctrl × Chan) × (reset_data_chan c ch ≡ some s)
        × (callbacks s.0.log ≡ deliver ch.bufs n' i' (used n' i' j') (callbacks c.log))
  reset_data_chan-gives own = (
    _,
    reset_data_chan-empties.0,
    rw (← q.level)
        (rounds-deliver drop_one n' (drop_one-Gives n') _ i' (c, ch) (reads_of q.buf) own),
  )
