-- ===== src/Complete/Fifo.antt =====
-- A channel whose buffers are the client's, as a queue of buffers: first in, first out.
pub mod Put
pub mod Run
use mathlib.Core.Path.{subst}
use mhi_for_quectel_modem.Base.{
  ℕ, zero, suc, ◌+◌, ◌-◌, ◌^◌, ◌<◌, ◌≤◌, Bool, true, false, some, List, [], ◌∷◌, ◌++◌, get_or, set,
  get_or-set_ne, length-set, ◌≡◌, ◌≢◌, ◌⊎◌, inl, inr, refl, sym, ap, ◌∙◌, arith, if◌then◌else◌,
}
use mhi_for_quectel_modem.Regs.{Log, Status, write_db}
use mhi_for_quectel_modem.Ring.Slots.{next, next-lt, del_ring_element-IsAt}
use mhi_for_quectel_modem.Ring.Space.{used}
use mhi_for_quectel_modem.Ctrl.{Ctrl, Chan, BufInfo, Code, Errno, ok, err, ring_chan_db}
use mhi_for_quectel_modem.Wake.{
  assert_dev_wake, deassert_dev_wake, wake_toggle, resume_if_suspended,
}
use mhi_for_quectel_modem.Queue.{Dma, no_buf, slot, gen_tre, finish_queue, queue_client}
use mhi_for_quectel_modem.Queue.Place.{IsQueue, gen_tre-IsQueue, used-next, slot-PointsTo}
use mhi_for_quectel_modem.Queue.Visible.{
  finish_queue_shape, queue_client_parts, queue_client_ok, room_of,
}
use mhi_for_quectel_modem.Complete.{complete_one, recycle, drop_one, del_both}
use mhi_for_quectel_modem.Complete.Order.{ReadsAt, rounds}
use mhi_for_quectel_modem.Complete.Event.{
  callbacks, deliver, Gives, complete_one-Gives, drop_one-Gives, reads_of,
}

-- The channel of `s` is a queue of the client's buffers with the slot numbers given. Handing all
-- that are left in it to the client, oldest first, after those that the client was given already,
-- makes `history`, the latest first.
pub record FifoAt (n i j n' i' j' : ℕ) (s : Ctrl × Chan) (history : List ℕ) : Type 0 where
  pub queue : IsQueue s.1 n i j n' i' j'
  pub own : s.1.pre_alloc ≡ false
  pub all : deliver s.1.bufs n' i' (used n' i' j') (callbacks s.0.log) ≡ history

-- Taking the oldest element out of both rings.
del_both-IsQueue :
    {ch : Chan} {n i j n' i' j' : ℕ}
    → IsQueue ch n i j n' i' j'
    → 0 < used n i j
    → IsQueue (del_both ch) n (next n i) j n' (next n' i') j'
      × (used n i j ≡ suc (used n (next n i) j))
      × (used n' i' j' ≡ suc (used n' (next n' i') j'))
del_both-IsQueue q some_in = (
  record {
    tre = del_ring_element-IsAt q.tre;
    buf = del_ring_element-IsAt q.buf;
    tre_room = q.tre_room;
    buf_room = q.buf_room;
    larger = q.larger;
    level = ground (arith, q.level, q.tre.rp_in, q.tre.wp_in, q.buf.rp_in, q.buf.wp_in);
  },
  ground (arith, q.tre.rp_in, q.tre.wp_in),
  ground (arith, q.level, q.buf.rp_in, q.buf.wp_in),
)

-- A round that hands over the oldest buffer and takes it out of both rings.
pub record Serves (f : Ctrl × Chan → Ctrl × Chan) : Type 0 where
  gives :
      (n i : ℕ) (s : Ctrl × Chan)
      → s.1.pre_alloc ≡ false
      → (ReadsAt s.1.buf_ring n i)
      → Gives n i s (f s)
  frees : (s : Ctrl × Chan) → s.1.pre_alloc ≡ false → (f s).1 ≡ del_both s.1

round-FifoAt :
    (f : Ctrl × Chan → Ctrl × Chan)
    → Serves f
    → {n i j n' i' j' : ℕ} {s : Ctrl × Chan} {history : List ℕ} → FifoAt n i j n' i' j' s history
    → 0 < used n i j
    → FifoAt n (next n i) j n' (next n' i') j' (f s) history
round-FifoAt f serves {n} {i} {j} {n'} {i'} {j'} {s} {history} v some_in =
    let g = serves.gives n' i' s v.own (reads_of v.queue.buf) in
    let (q, _, less) = del_both-IsQueue v.queue some_in in
    record {
      queue = rw (serves.frees s v.own) q;
      own = g.manual;
      all =
          rw (g.kept, g.given)
            (subst (λ k. deliver s.1.bufs n' i' k (callbacks s.0.log) ≡ history) less v.all);
    }

pub rounds-FifoAt :
    (f : Ctrl × Chan → Ctrl × Chan)
    → Serves f
    → (m : ℕ) {n i j n' i' j' : ℕ} {s : Ctrl × Chan} {history : List ℕ}
    → FifoAt n i j n' i' j' s history
    → m ≤ used n i j
    → (k : ℕ) × (k' : ℕ) × FifoAt n k j n' k' j' (rounds m f s) history
      × (used n k j + m ≡ used n i j)
unfolding rounds
rounds-FifoAt f serves zero {i = i} {i' = i'} v enough = (i, i', v, omega arith)
rounds-FifoAt f serves (suc m) v enough =
    let (_, less, _) = del_both-IsQueue v.queue (omega (arith, enough)) in
    let (k, k', v', rest) =
      rounds-FifoAt f serves m (round-FifoAt f serves v (omega (arith, enough)))
        (omega (arith, enough, less)) in
    (k, k', v', omega (arith, rest, less))

pub complete_one-Serves :
    (dma : Dma) (status : Status) (ev_tre ev_len : ℕ)
    → Serves (complete_one dma status ev_tre ev_len)
unfolding complete_one recycle
complete_one-Serves dma status ev_tre ev_len = record {
  gives = λ n i s own v. complete_one-Gives dma status ev_tre ev_len n i s v own;
  frees = λ s own. ground (arith, own);
}

pub drop_one-Serves : Serves drop_one
unfolding drop_one
drop_one-Serves = record {
  gives = λ n i s own v. drop_one-Gives n i s v own;
  frees = λ s own. refl;
}

-- Queueing a buffer does not call the client.
callbacks-assert :
    (c : Ctrl) (force : Bool) → callbacks (assert_dev_wake c force).log ≡ callbacks c.log
unfolding assert_dev_wake callbacks
callbacks-assert c force = ground arith

callbacks-deassert :
    (c : Ctrl) (override : Bool) → callbacks (deassert_dev_wake c override).log ≡ callbacks c.log
unfolding deassert_dev_wake callbacks
callbacks-deassert c override = ground arith

pub callbacks-wake :
    (c : Ctrl) → callbacks (wake_toggle (resume_if_suspended c)).log ≡ callbacks c.log
unfolding wake_toggle callbacks
callbacks-wake c =
    let c₁ = resume_if_suspended c in
    ground (arith, callbacks-assert c₁ false, callbacks-deassert (assert_dev_wake c₁ false) true)

pub callbacks-finish :
    (c : Ctrl) (ch : Chan) → callbacks (finish_queue c ch).0.log ≡ callbacks c.log
unfolding finish_queue ring_chan_db callbacks
callbacks-finish c ch = ground arith

-- What a list of slots holds that differs from another at most in slot `j`.
pub deliver-same :
    (bufs bufs' : List BufInfo) (n j : ℕ)
    → ((x : ℕ) → x ≢ j → get_or bufs' x no_buf ≡ get_or bufs x no_buf)
    → (k i : ℕ) (given : List ℕ) → i < n
    → j < n
    → used n i j ≡ k
    → deliver bufs' n i k given ≡ deliver bufs n i k given
deliver-same bufs bufs' n j same zero i given hi hj e = refl
deliver-same bufs bufs' n j same (suc k) i given hi hj e =
    rw (same i (λ h. absurd (ground (arith, h, e)))) (
      deliver-same bufs bufs' n j same k (next n i) _ (next-lt n i hi) hj
        (ground (arith, e, hi, hj)))

pub deliver-put :
    (bufs bufs' : List BufInfo) (n j : ℕ)
    → ((x : ℕ) → x ≢ j → get_or bufs' x no_buf ≡ get_or bufs x no_buf)
    → (k i : ℕ) (given : List ℕ) → i < n
    → j < n
    → used n i j ≡ k
    → deliver bufs' n i (suc k) given ≡ (get_or bufs' j no_buf).cb_buf ∷ deliver bufs n i k given
deliver-put bufs bufs' n j same zero i given hi hj e =
    let here : i ≡ j = ground (arith, e, hi, hj) in rw here refl
deliver-put bufs bufs' n j same (suc k) i given hi hj e =
    deliver-put bufs bufs' n j same k (next n i) _ (next-lt n i hi) hj (ground (arith, e, hi, hj))
    ∙ ap (λ b. (get_or bufs' j no_buf).cb_buf ∷ deliver bufs n (next n i) k (b.cb_buf ∷ given))
        (same i (λ h. absurd (ground (arith, h, e))))
