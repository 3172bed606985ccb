-- ===== src/Complete/Fifo/Run.antt =====
-- Sequences of queueings, completions and resets on one channel.
use mhi_for_quectel_modem.Base.{
  ℕ, zero, suc, some-injective, ◌+◌, ◌*◌, ◌^◌, ◌<◌, ◌≤◌, Option, none, some, List, [], ◌∷◌, ◌++◌,
  get_or, ◌≡◌, ◌⊎◌, refl, sym, ◌∙◌, arith,
}
use mathlib.Core.Path.{subst}
use mhi_for_quectel_modem.Tre.{Tre, get_ev_code, get_ev_len, get_ev_ptr}
use mhi_for_quectel_modem.Ring.{Ring, to_device}
use mhi_for_quectel_modem.Ring.Slots.{IsAt, PointsTo, IsMapped, next, gap}
use mhi_for_quectel_modem.Ring.Space.{used}
use mhi_for_quectel_modem.Ctrl.{Ctrl, Chan, BufInfo, Errno, ok, err, enabled}
use mhi_for_quectel_modem.Queue.{Dma, no_buf, queue_client}
use mhi_for_quectel_modem.Complete.{
  cc_eot, cc_eob, cc_overflow, status_of, complete_one, drop_one, parse_xfer_event, reset_data_chan,
}
use mhi_for_quectel_modem.Complete.Event.{
  callbacks, deliver, parse_xfer_event-completes, reset_data_chan-empties,
}
use mhi_for_quectel_modem.Complete.Fifo.{
  FifoAt, rounds-FifoAt, complete_one-Serves, drop_one-Serves,
}
use mhi_for_quectel_modem.Complete.Fifo.Put.{queue_client-FifoAt, queue_client_failed-FifoAt}

-- An event with the code EOT, EOB or OVERFLOW that names, by its bus address, slot `k` of the
-- transfer ring, which is in use; the ring's elements are of 16 bytes, and it lies within the 64-bit address
-- spaces.
pub record Names (event : Tre) (ch : Chan) (n i j k p : ℕ) : Type 0 where
  pub on : ch.ch_state ≡ enabled
  pub ring : IsAt ch.tre_ring n i j
  pub code :
      (get_ev_code event ≡ cc_eot)
      ⊎ ((get_ev_code event ≡ cc_eob) ⊎ (get_ev_code event ≡ cc_overflow))
  pub size : ch.tre_ring.el_size ≡ 16
  pub mapped : IsMapped ch.tre_ring
  pub low : ch.tre_ring.base + ch.tre_ring.len < 2 ^ 64
  pub in_use : used n i k < used n i j
  pub inside : k < n
  pub points : PointsTo ch.tre_ring p k
  pub named : get_ev_ptr event ≡ to_device ch.tre_ring p

-- What happens to a channel, with the buffer that the client queued by it.
pub data Step : Ctrl × Chan → Option ℕ → Ctrl × Chan → Type 0 where
  queued :
      (dma : Dma) (c : Ctrl) (ch : Chan) (info : BufInfo) (flags : ℕ)
      → (queue_client dma c ch info flags).2 ≡ ok
      → Step
          (c, ch)
          (some info.cb_buf)
          ((queue_client dma c ch info flags).0, (queue_client dma c ch info flags).1)
  turned_down :
      (dma : Dma) (c : Ctrl) (ch : Chan) (info : BufInfo) (flags : ℕ) (e : Errno)
      → (queue_client dma c ch info flags).2 ≡ err e
      → Step
          (c, ch)
          none
          ((queue_client dma c ch info flags).0, (queue_client dma c ch info flags).1)
  completed :
      (dma : Dma) (c : Ctrl) (ch : Chan) (event : Tre) (n i j k p : ℕ) (s : Ctrl × Chan)
      → Names event ch n i j k p
      → parse_xfer_event dma c event ch ≡ some s
      → Step (c, ch) none s
  dropped :
      (c : Ctrl) (ch : Chan) (s : Ctrl × Chan) → reset_data_chan c ch ≡ some s → Step (c, ch) none s
  elsewhere :
      (c c' : Ctrl) (ch : Chan) → callbacks c'.log ≡ callbacks c.log → Step (c, ch) none (c', ch)

-- The buffers queued so far, the latest first.
abbrev pub with_put : Option ℕ → List ℕ → List ℕ
with_put none l = l
with_put (some b) l = b ∷ l

pub data Run : Ctrl × Chan → List ℕ → Ctrl × Chan → Type 0 where
  start : {s : Ctrl × Chan} → Run s [] s
  then :
      {s s' s'' : Ctrl × Chan} {puts : List ℕ} {put : Option ℕ}
      → Run s puts s'
      → Step s' put s''
      → Run s (with_put put puts) s''

-- The slots are determined by the ring.
same_scale : (a b e : ℕ) → 0 < e → a * e ≡ b * e → a ≡ b
same_scale a b e pos h = ground (arith, gap a b e, gap b a e)

IsAt-unique :
    {r : Ring} {n i j m a b : ℕ} → IsAt r n i j → IsAt r m a b → (n ≡ m) × (i ≡ a) × (j ≡ b)
IsAt-unique {r} {n} {i} {j} {m} {a} {b} v w = (
  same_scale n m r.el_size v.sized (sym v.measured ∙ w.measured),
  same_scale i a r.el_size v.sized (omega (arith, v.reads, w.reads)),
  same_scale j b r.el_size v.sized (omega (arith, v.writes, w.writes)),
)

-- Some slot numbers make the channel such a queue.
abbrev pub IsFifo : Ctrl × Chan → List ℕ → Type 0
IsFifo s history =
    (n : ℕ) × (i : ℕ) × (j : ℕ) × (n' : ℕ) × (i' : ℕ) × (j' : ℕ) × FifoAt n i j n' i' j' s history

completed-IsFifo :
    (dma : Dma) (c : Ctrl) (ch : Chan) (event : Tre) (n i j k p n' i' j' : ℕ) (s : Ctrl × Chan)
    (history : List ℕ)
    → Names event ch n i j k p
    → parse_xfer_event dma c event ch ≡ some s
    → FifoAt n i j n' i' j' (c, ch) history
    → IsFifo s history
completed-IsFifo dma c ch event n i j k p n' i' j' s history names e v =
    let m = used n i (next n k) in
    let f = complete_one dma (status_of (get_ev_code event)) p (get_ev_len event) in
    let fits : m ≤ used n i j =
      ground (arith, names.in_use, names.inside, names.ring.rp_in, names.ring.wp_in) in
    let (a, b, v', _) = rounds-FifoAt f (complete_one-Serves dma _ p _) m v fits in
    let done =
      parse_xfer_event-completes dma c event ch n i j n' i' j' k p v.queue names.on names.code
        names.size names.mapped names.low names.inside names.points names.named in
    (
      n,
      a,
      j,
      n',
      b,
      j',
      subst (λ t. FifoAt n a j n' b j' t history) (some-injective _ _ (sym done.0 ∙ e)) v',
    )

dropped-IsFifo :
    (c : Ctrl) (ch : Chan) (n i j n' i' j' : ℕ) (s : Ctrl × Chan) (history : List ℕ)
    → reset_data_chan c ch ≡ some s
    → FifoAt n i j n' i' j' (c, ch) history
    → IsFifo s history
dropped-IsFifo c ch n i j n' i' j' s history e v =
    let (a, b, v', _) = rounds-FifoAt drop_one drop_one-Serves (used n i j) v (omega arith) in
    (
      n,
      a,
      j,
      n',
      b,
      j',
      subst (λ t. FifoAt n a j n' b j' t history)
          (some-injective _ _ (sym (reset_data_chan-empties c ch n i j n' i' j' v.queue).0 ∙ e)) v',
    )

Step-IsFifo :
    {s s' : Ctrl × Chan} {put : Option ℕ} {history : List ℕ}
    → Step s put s'
    → IsFifo s history
    → IsFifo s' (with_put put history)
Step-IsFifo {history = h} (queued dma c ch info flags e) (n, i, j, n', i', j', v) = (
  n,
  i,
  next n j,
  n',
  i',
  next n' j',
  queue_client-FifoAt dma c ch info flags n i j n' i' j' h v e,
)
Step-IsFifo {history = h} (turned_down dma c ch info flags x e) (n, i, j, n', i', j', v) =
    (n, i, j, n', i', j', queue_client_failed-FifoAt dma c ch info flags n i j n' i' j' h x v e)
Step-IsFifo {history = h} (completed dma c ch event n i j k p s names e) (m, a, b, n', i', j', v) =
    let (em, ea, eb) = IsAt-unique v.queue.tre names.ring in
    completed-IsFifo dma c ch event n i j k p n' i' j' s h names e (
      subst (λ t. FifoAt t i j n' i' j' (c, ch) h) em
        (subst (λ t. FifoAt m t j n' i' j' (c, ch) h) ea
          (subst (λ t. FifoAt m a t n' i' j' (c, ch) h) eb v)))
Step-IsFifo {history = h} (dropped c ch s e) (n, i, j, n', i', j', v) =
    dropped-IsFifo c ch n i j n' i' j' s h e v
Step-IsFifo (elsewhere c c' ch e) (n, i, j, n', i', j', v) =
    (n, i, j, n', i', j', record { queue = v.queue; own = v.own; all = rw e v.all })

Run-IsFifo :
    {s s' : Ctrl × Chan} {puts history : List ℕ}
    → Run s puts s'
    → IsFifo s history
    → IsFifo s' (puts ++ history)
Run-IsFifo start v = v
Run-IsFifo (then {put = none} r t) v = Step-IsFifo t (Run-IsFifo r v)
Run-IsFifo (then {put = some b} r t) v = Step-IsFifo t (Run-IsFifo r v)

-- What is delivered goes before what was given.
deliver-append :
    (bufs : List BufInfo) (n k i : ℕ) (more given : List ℕ)
    → deliver bufs n i k (more ++ given) ≡ deliver bufs n i k more ++ given
deliver-append bufs n zero i more given = refl
deliver-append bufs n (suc k) i more given =
    deliver-append bufs n k (next n i) ((get_or bufs i no_buf).cb_buf ∷ more) given

-- Let a channel be a queue of the client's buffers that, with what the client was given, come to
-- `history`, the latest first. Then after any sequence of calls of `mhi_queue_skb` or `mhi_queue_dma`,
-- successful or not, of completions by events that name an element in use, of resets of the channel, and of
-- other steps that give the client nothing, it is such a queue of `puts ++ history`, where `puts` are the
-- buffers that calls queued with success: what the client was given are the earliest buffers of it, in the
-- order of their queueing, and the others wait in the channel's slots.
pub served_in_order :
    (s s' : Ctrl × Chan) (puts history : List ℕ)
    → IsFifo s history
    → Run s puts s'
    → IsFifo s' (puts ++ history)
      × ((waiting : List ℕ) × (puts ++ history ≡ waiting ++ callbacks s'.0.log))
served_in_order s s' puts history v r =
    let (n, i, j, n', i', j', w) = Run-IsFifo r v in
    (
      (n, i, j, n', i', j', w),
      (
        deliver s'.1.bufs n' i' (used n' i' j') [],
        sym w.all ∙ deliver-append s'.1.bufs n' (used n' i' j') i' [] (callbacks s'.0.log),
      ),
    )
