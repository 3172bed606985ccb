-- ===== src/Queue/Place.antt =====
-- Where a queued transfer goes.
use mhi_for_quectel_modem.Base.{
  ℕ, ◌+◌, ◌-◌, ◌*◌, ◌/◌, ◌≤◌, ◌<◌, length, get_or, ◌≡◌, ◌≢◌, sym, ap, ◌∙◌, arith, length-set,
  get_or-set_self, get_or-set_ne, if◌then◌else◌,
}
use native.Mathlib.Nat.{mul-div_cancel}
use mhi_for_quectel_modem.Regs.{Log}
use mhi_for_quectel_modem.Ring.{Ring}
use mhi_for_quectel_modem.Ring.Slots.{IsAt, PointsTo, next, add_ring_element-IsAt}
use mhi_for_quectel_modem.Ring.Space.{used}
use mhi_for_quectel_modem.Ctrl.{Chan, BufInfo, ok}
use mhi_for_quectel_modem.Queue.{
  Dma, slot, no_buf, no_tre, described, data_tre, map_single, with_element, gen_tre,
}

-- A channel with `n` transfer slots, of which `i` is the oldest in use and `j` the next free one, and
-- the same of its `n'` buffer slots. The buffer ring is at least as large, and holds as many elements.
pub record IsQueue (ch : Chan) (n i j n' i' j' : ℕ) : Type 0 where
  pub tre : IsAt ch.tre_ring n i j
  pub buf : IsAt ch.buf_ring n' i' j'
  pub tre_room : length ch.tres ≡ n
  pub buf_room : length ch.bufs ≡ n'
  pub larger : n ≤ n'
  pub level : used n i j ≡ used n' i' j'

-- A pointer to slot `k` lies over element `k`.
pub slot-PointsTo : (r : Ring) (p k : ℕ) → 0 < r.el_size → PointsTo r p k → slot r p ≡ k
slot-PointsTo r p k h e = ap (λ t. t / r.el_size) diff ∙ mul-div_cancel k h
  where
    diff : p - r.base ≡ k * r.el_size
    diff = omega arith

module _ {ch : Chan} {n i j n' i' j' : ℕ} (q : IsQueue ch n i j n' i' j') where
  tre_at : slot ch.tre_ring ch.tre_ring.wp ≡ j
  tre_at = slot-PointsTo ch.tre_ring ch.tre_ring.wp j q.tre.sized q.tre.writes

  buf_at : slot ch.buf_ring ch.buf_ring.wp ≡ j'
  buf_at = slot-PointsTo ch.buf_ring ch.buf_ring.wp j' q.buf.sized q.buf.writes

  -- Where the transfer ring has room, so has the buffer ring.
  pub buf_has_room : used n i j + 1 < n → used n' i' j' + 1 < n'
  buf_has_room h = omega (arith, q.larger, q.level)

  -- One more element in use.
  pub used-next : used n i j + 1 < n → used n i (next n j) ≡ used n i j + 1
  used-next h = ground (arith, q.tre.rp_in, q.tre.wp_in)

  level-next : used n i j + 1 < n → used n i (next n j) ≡ used n' i' (next n' j')
  level-next h =
      ground (arith, q.tre.rp_in, q.tre.wp_in, q.buf.rp_in, q.buf.wp_in, q.larger, q.level)

  with_element-IsQueue :
      (buf : BufInfo) (len flags : ℕ)
      → used n i j + 1 < n
      → IsQueue (with_element ch buf len flags) n i (next n j) n' i' (next n' j')
  with_element-IsQueue buf len flags room = record {
    tre = add_ring_element-IsAt q.tre;
    buf = add_ring_element-IsAt q.buf;
    tre_room = length-set ch.tres _ _ ∙ q.tre_room;
    buf_room = length-set ch.bufs _ _ ∙ q.buf_room;
    larger = q.larger;
    level = level-next room;
  }

  with_element_slots :
      (buf : BufInfo) (len flags : ℕ)
      → let ch' = with_element ch buf len flags in
        (get_or ch'.bufs j' no_buf ≡ buf)
        × (get_or ch'.tres j no_tre ≡ data_tre ch buf.p_addr len flags)
        × ((k : ℕ) → k ≢ j → get_or ch'.tres k no_tre ≡ get_or ch.tres k no_tre)
        × ((k : ℕ) → k ≢ j' → get_or ch'.bufs k no_buf ≡ get_or ch.bufs k no_buf)
  with_element_slots buf len flags = (
    rw buf_at (get_or-set_self ch.bufs j' buf no_buf (omega (arith, q.buf_room, q.buf.wp_in))),
    rw tre_at (get_or-set_self ch.tres j _ no_tre (omega (arith, q.tre_room, q.tre.wp_in))),
    λ k ne. rw tre_at (get_or-set_ne ch.tres _ no_tre (λ e. ne (sym e))),
    λ k ne. rw buf_at (get_or-set_ne ch.bufs buf no_buf (λ e. ne (sym e))),
  )

-- What `mhi_gen_tre` returns when it succeeds: the channel with the element of a buffer that is the
-- client's, mapped or as the client mapped it.
gen_tre_ok :
    (ch : Chan) (dma : Dma) (log : Log) (info : BufInfo) (flags : ℕ)
    → (gen_tre dma log ch info flags).1 ≡ ok
    → (buf : BufInfo) × ((gen_tre dma log ch info flags).0 ≡ with_element ch buf info.len flags)
      × (buf.cb_buf ≡ info.cb_buf)
      × (buf.len ≡ info.len)
      × (buf.pre_mapped ≡ info.pre_mapped)
      × (buf.dir ≡ ch.dir)
      × (buf.p_addr ≡ (if info.pre_mapped then info.p_addr else (dma log info.v_addr info.len).0))
unfolding gen_tre map_single
gen_tre_ok ch dma log info flags h =
    let buf = described ch (get_or ch.bufs (slot ch.buf_ring ch.buf_ring.wp) no_buf) info in
    (
      if info.pre_mapped then buf else (map_single dma log buf).0,
      ground arith,
      ground arith,
      ground arith,
      ground arith,
      ground arith,
      ground arith,
    )

-- If `mhi_gen_tre` succeeds on a channel that is a queue with room in its transfer ring, the
-- channel is a queue with one element more: the free transfer slot holds the descriptor of the
-- buffer's bus address, length and flags, the free buffer slot holds the client's buffer and
-- length, and no other slot of either ring has changed.
pub gen_tre-IsQueue :
    (ch : Chan) (n i j n' i' j' : ℕ) (dma : Dma) (log : Log) (info : BufInfo) (flags : ℕ)
    → IsQueue ch n i j n' i' j'
    → used n i j + 1 < n
    → (gen_tre dma log ch info flags).1 ≡ ok
    → let ch' = (gen_tre dma log ch info flags).0 in
      let addr = if info.pre_mapped then info.p_addr else (dma log info.v_addr info.len).0 in
      IsQueue ch' n i (next n j) n' i' (next n' j')
      × (get_or ch'.tres j no_tre ≡ data_tre ch addr info.len flags)
      × ((get_or ch'.bufs j' no_buf).cb_buf ≡ info.cb_buf)
      × ((get_or ch'.bufs j' no_buf).len ≡ info.len)
      × ((k : ℕ) → k ≢ j → get_or ch'.tres k no_tre ≡ get_or ch.tres k no_tre)
      × ((k : ℕ) → k ≢ j' → get_or ch'.bufs k no_buf ≡ get_or ch.bufs k no_buf)
gen_tre-IsQueue ch n i j n' i' j' dma log info flags q room h =
    let (buf, e, cb, len, pre, dir, addr) = gen_tre_ok ch dma log info flags h in
    let (b, t, ts, bs) = with_element_slots q buf info.len flags in
    rw e (
      with_element-IsQueue q buf info.len flags room,
      t ∙ ap (λ a. data_tre ch a info.len flags) addr,
      ap (λ (x : BufInfo). x.cb_buf) b ∙ cb,
      ap (λ (x : BufInfo). x.len) b ∙ len,
      ts,
      bs,
    )
