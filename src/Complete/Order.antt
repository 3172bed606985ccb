-- ===== src/Complete/Order.antt =====
-- How many rounds the completion loops make, and in which order they hand buffers back.
use mhi_for_quectel_modem.Base.{
  ℕ, zero, suc, ◌*◌, ◌<◌, true, false, some, ◌≡◌, ◌≢◌, refl, ◌∙◌, arith, ◌==◌, ℕ_discrete, ==_iff,
}
use mathlib.Core.Path.{subst}
use mhi_for_quectel_modem.Regs.{Status, Log}
use mhi_for_quectel_modem.Ring.{Ring, del_ring_element, add_ring_element}
use mhi_for_quectel_modem.Ring.Slots.{PointsTo, next, advance-PointsTo, next-lt}
use mhi_for_quectel_modem.Ring.Space.{used, same_slot}
use mhi_for_quectel_modem.Ctrl.{Ctrl, Chan, BufInfo, ring_chan_db}
use mhi_for_quectel_modem.Wake.{wake_toggle, resume_if_suspended}
use mhi_for_quectel_modem.Queue.{Dma, queue_buf, gen_tre, finish_queue, no_buf, eot}
use mhi_for_quectel_modem.Complete.{
  oldest, complete_one, complete_to, recycle, drop_one, drop_all, del_both,
}

-- A ring of `n` elements whose read pointer stands at slot `i`.
pub record ReadsAt (r : Ring) (n i : ℕ) : Type 0 where
  pub sized : 0 < r.el_size
  pub measured : r.len ≡ n * r.el_size
  pub reads : PointsTo r r.rp i
  pub rp_in : i < n

pub ReadsAt-del : {r : Ring} {n i : ℕ} → ReadsAt r n i → ReadsAt (del_ring_element r) n (next n i)
unfolding del_ring_element
ReadsAt-del {r} {n} {i} v = record {
  sized = v.sized;
  measured = v.measured;
  rp_in = next-lt n i v.rp_in;
  reads = advance-PointsTo r n i r.rp v.sized v.measured v.rp_in v.reads;
}

-- The shape of a channel's transfer ring: all but its write side.
abbrev pub SameReads : Ring → Ring → Type 0
SameReads r r' = (r'.base ≡ r.base) × (r'.el_size ≡ r.el_size) × (r'.len ≡ r.len) × (r'.rp ≡ r.rp)

SameReads-finish : (c : Ctrl) (ch : Chan) → SameReads ch.tre_ring (finish_queue c ch).1.tre_ring
unfolding finish_queue ring_chan_db
SameReads-finish c ch = ground arith

SameReads-gen :
    (dma : Dma) (log : Log) (ch : Chan) (info : BufInfo) (flags : ℕ)
    → SameReads ch.tre_ring (gen_tre dma log ch info flags).0.tre_ring
unfolding gen_tre add_ring_element
SameReads-gen dma log ch info flags = ground arith

SameReads-queue :
    (dma : Dma) (c : Ctrl) (ch : Chan) (buf len flags : ℕ)
    → SameReads ch.tre_ring (queue_buf dma c ch buf len flags).1.tre_ring
unfolding queue_buf
SameReads-queue dma c ch buf len flags =
    let info = record no_buf { v_addr = buf; cb_buf = buf; len = len } in
    let ch₁ = (gen_tre dma c.log ch info flags).0 in
    ground (
      arith,
      SameReads-gen dma c.log ch info flags,
      SameReads-finish (wake_toggle (resume_if_suspended c)) ch₁,
    )

SameReads-recycle :
    (dma : Dma) (buf : BufInfo) (s : Ctrl × Chan)
    → SameReads s.1.tre_ring (recycle dma buf s).1.tre_ring
unfolding recycle
SameReads-recycle dma buf (c, ch) = ground (arith, SameReads-queue dma c ch buf.cb_buf buf.len eot)

ReadsAt-SameReads : {r r' : Ring} {n i : ℕ} → ReadsAt r n i → SameReads r r' → ReadsAt r' n i
ReadsAt-SameReads v e = record {
  sized = rw (e.1) v.sized;
  measured = rw (e.1, e.2) v.measured;
  rp_in = v.rp_in;
  reads = rw (e.0, e.1, e.3) v.reads;
}

-- What a round does to the transfer ring: the read pointer goes on to the next slot.
pub complete_one-ReadsAt :
    (dma : Dma) (status : Status) (ev_tre ev_len : ℕ) (s : Ctrl × Chan) {n i : ℕ}
    → ReadsAt s.1.tre_ring n i
    → let r' = (complete_one dma status ev_tre ev_len s).1.tre_ring in
      ReadsAt r' n (next n i) × (r'.base ≡ s.1.tre_ring.base) × (r'.el_size ≡ s.1.tre_ring.el_size)
unfolding complete_one del_ring_element
complete_one-ReadsAt dma status ev_tre ev_len (c, ch) v =
    let e = SameReads-recycle dma (oldest ch) (_, del_both ch) in
    (ReadsAt-SameReads (ReadsAt-del v) e, e.0, e.1)

-- `f`, a number of times.
unfoldable pub rounds {ℓ} : {S : Type ℓ} → ℕ → (S → S) → S → S
rounds zero f s = s
rounds (suc k) f s = rounds k f (f s)

-- One slot further on, one slot nearer.
pub used-step : (n i m : ℕ) → i < n → m < n → i ≢ m → used n i m ≡ suc (used n (next n i) m)
used-step n i m hi hm ne = ground arith

pub used_self : (n i m : ℕ) → i < n → m < n → i ≡ m → used n i m ≡ 0
used_self n i m hi hm e = ground arith

-- The loops' tests, on slots.
at_end :
    {r : Ring} {n i : ℕ} (m p : ℕ) → ReadsAt r n i → PointsTo r p m → i ≡ m → (r.rp == p) ≡ true
at_end {r} {n} {i} m p v q e = same_slot r i m r.rp p v.sized v.reads q ∙ (==_iff i m).1 e

not_at_end :
    {r : Ring} {n i : ℕ} (m p : ℕ) → ReadsAt r n i → PointsTo r p m → i ≢ m → (r.rp == p) ≡ false
not_at_end {r} {n} {i} m p v q ne = same_slot r i m r.rp p v.sized v.reads q ∙ ground arith

module _ (dma : Dma) (status : Status) (ev_tre ev_len dev_rp : ℕ) where
  -- The loop of `parse_xfer_event` ends, with fuel above the number of slots from the read pointer to
  -- the end that the event names, after that many rounds, with the read pointer at that end.
  pub complete_to-rounds :
      (fuel n i m : ℕ) (s : Ctrl × Chan)
      → ReadsAt s.1.tre_ring n i
      → m < n
      → PointsTo s.1.tre_ring dev_rp m
      → used n i m < fuel
      → let s' = rounds (used n i m) (complete_one dma status ev_tre ev_len) s in
        (complete_to fuel dma status ev_tre ev_len dev_rp s ≡ some s') × ReadsAt s'.1.tre_ring n m
  unfolding complete_to rounds
  complete_to-rounds zero n i m s v hm p h = absurd (omega arith)
  complete_to-rounds (suc fuel) n i m s v hm p h = elim (ℕ_discrete i m) [
    | yes here ↦
        rw (at_end m dev_rp v p here, used_self n i m v.rp_in hm here)
          (refl, subst (ReadsAt s.1.tre_ring n) here v)
    | no on ↦
        let (v', b, e) = complete_one-ReadsAt dma status ev_tre ev_len s v in
        let near = used-step n i m v.rp_in hm on in
        rw (not_at_end m dev_rp v p on, near)
          (complete_to-rounds fuel n (next n i) m (complete_one dma status ev_tre ev_len s) v' hm
            (rw (b, e) p) (omega (arith, near)))
  ]

-- What a round of `mhi_reset_data_chan` does to the transfer ring.
drop_one-ReadsAt :
    (s : Ctrl × Chan) {n i : ℕ}
    → ReadsAt s.1.tre_ring n i
    → let r' = (drop_one s).1.tre_ring in
      ReadsAt r' n (next n i)
      × (r'.base ≡ s.1.tre_ring.base)
      × (r'.el_size ≡ s.1.tre_ring.el_size)
      × (r'.wp ≡ s.1.tre_ring.wp)
unfolding drop_one del_ring_element
drop_one-ReadsAt (c, ch) v = (ReadsAt-del v, refl, refl, refl)

-- The loop of `mhi_reset_data_chan` ends, with fuel above the number of transfers in the ring, after
-- that many rounds, with the read pointer at the write pointer: the ring is empty.
pub drop_all-rounds :
    (fuel n i m : ℕ) (s : Ctrl × Chan)
    → ReadsAt s.1.tre_ring n i
    → m < n
    → PointsTo s.1.tre_ring s.1.tre_ring.wp m
    → used n i m < fuel
    → let s' = rounds (used n i m) drop_one s in
      (drop_all fuel s ≡ some s') × (s'.1.tre_ring.rp ≡ s'.1.tre_ring.wp)
unfolding drop_all rounds
drop_all-rounds zero n i m s v hm p h = absurd (omega arith)
drop_all-rounds (suc fuel) n i m s v hm p h = elim (ℕ_discrete i m) [
  | yes here ↦
      rw (at_end m s.1.tre_ring.wp v p here, used_self n i m v.rp_in hm here)
        (refl, (==_iff _ _).0 (at_end m s.1.tre_ring.wp v p here))
  | no on ↦
      let (v', b, e, w) = drop_one-ReadsAt s v in
      let near = used-step n i m v.rp_in hm on in
      rw (not_at_end m s.1.tre_ring.wp v p on, near)
        (drop_all-rounds fuel n (next n i) m (drop_one s) v' hm (rw (w, b, e) p)
          (omega (arith, near)))
]
