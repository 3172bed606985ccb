-- ===== src/Complete/Bounds/Loops.antt =====
-- The byte counts that the completion loops of drivers/bus/mhi/core/main.c report.
use mhi_for_quectel_modem.Base.{
  ℕ, zero, suc, ◌≤◌, some, ◌∷◌, ◌≡◌, ◌⊎◌, inl, inr, arith, ◌==◌, if◌then◌else◌, Bool-cases,
  some-injective,
}
use mathlib.Core.Path.{subst}
use mhi_for_quectel_modem.Regs.{Status}
use mhi_for_quectel_modem.Tre.{Tre, get_ev_ptr, get_ev_len, get_ev_code}
use mhi_for_quectel_modem.Ring.{to_virtual}
use mhi_for_quectel_modem.Ctrl.{Ctrl, Chan, ring_chan_db}
use mhi_for_quectel_modem.Queue.{Dma, slot, is_to_device}
use mhi_for_quectel_modem.Complete.{
  bytes_xferd, oldest, complete_one, complete_to, drop_one, drop_all, parse_xfer_event,
  reset_data_chan, rounds_in, after_tre, status_of,
}
use mhi_for_quectel_modem.Complete.Bounds.{
  reports, Within, IsSound, bytes_xferd-le, recycle-IsSound,
}

complete_one-IsSound :
    (room : ℕ → ℕ) (dma : Dma) (status : Status) (ev_tre ev_len : ℕ) (s : Ctrl × Chan)
    → IsSound room s
    → IsSound room (complete_one dma status ev_tre ev_len s)
unfolding complete_one reports
complete_one-IsSound room dma status ev_tre ev_len (c, ch) v =
    let small = v.fits (slot ch.buf_ring ch.buf_ring.rp) in
    let x = if ch.tre_ring.rp == ev_tre then ev_len else (oldest ch).len in
    let bound : (bytes_xferd x (oldest ch).len ≤ room (oldest ch).cb_buf)
        × Within room (reports c.log) =
      (omega (arith, bytes_xferd-le x (oldest ch).len, small), v.within) in
    recycle-IsSound room dma (oldest ch) _
      (record {
        fits = v.fits;
        within = elim (Bool-cases (oldest ch).pre_mapped) [
          | inl e ↦ elim (Bool-cases (is_to_device ch.dir)) [
            | inl f ↦ rw (e, f) bound
            | inr f ↦ rw (e, f) bound
          ]
          | inr e ↦ elim (Bool-cases (is_to_device ch.dir)) [
            | inl f ↦ rw (e, f) bound
            | inr f ↦ rw (e, f) bound
          ]
        ];
      })
      small

complete_to-IsSound :
    (room : ℕ → ℕ) (fuel : ℕ) (dma : Dma) (status : Status) (ev_tre ev_len dev_rp : ℕ)
    (s s' : Ctrl × Chan)
    → IsSound room s
    → complete_to fuel dma status ev_tre ev_len dev_rp s ≡ some s'
    → IsSound room s'
unfolding complete_to
complete_to-IsSound room zero dma status ev_tre ev_len dev_rp s s' v h = absurd (ground (arith, h))
complete_to-IsSound room (suc fuel) dma status ev_tre ev_len dev_rp s s' v h =
    elim (Bool-cases (s.1.tre_ring.rp == dev_rp)) [
      | inl e ↦ subst (IsSound room) (some-injective _ _ (ground (arith, e, h))) v
      | inr e ↦
          complete_to-IsSound room fuel dma status ev_tre ev_len dev_rp _ s'
            (complete_one-IsSound room dma status ev_tre ev_len s v) (ground (arith, e, h))
    ]

-- What a round of `mhi_reset_data_chan` reports: no bytes, if anything.
reports_drop :
    (s : Ctrl × Chan)
    → (reports (drop_one s).0.log ≡ reports s.0.log)
      ⊎ (reports (drop_one s).0.log ≡ ((oldest s.1).cb_buf, 0) ∷ reports s.0.log)
unfolding drop_one reports
reports_drop (c, ch) = ground arith

drop_one-IsSound : (room : ℕ → ℕ) (s : Ctrl × Chan) → IsSound room s → IsSound room (drop_one s)
unfolding drop_one
drop_one-IsSound room (c, ch) v = record {
  fits = v.fits;
  within = elim (reports_drop (c, ch)) [
    | inl e ↦ rw e v.within
    | inr e ↦ rw e (omega arith, v.within)
  ];
}

drop_all-IsSound :
    (room : ℕ → ℕ) (fuel : ℕ) (s s' : Ctrl × Chan)
    → IsSound room s
    → drop_all fuel s ≡ some s'
    → IsSound room s'
unfolding drop_all
drop_all-IsSound room zero s s' v h = absurd (ground (arith, h))
drop_all-IsSound room (suc fuel) s s' v h = elim (Bool-cases (s.1.tre_ring.rp == s.1.tre_ring.wp)) [
  | inl e ↦ subst (IsSound room) (some-injective _ _ (ground (arith, e, h))) v
  | inr e ↦
      drop_all-IsSound room fuel (drop_one s) s' (drop_one-IsSound room s v) (ground (arith, e, h))
]

pub reset_data_chan-IsSound :
    (room : ℕ → ℕ) (c : Ctrl) (ch : Chan) (s : Ctrl × Chan)
    → IsSound room (c, ch)
    → reset_data_chan c ch ≡ some s
    → IsSound room s
unfolding reset_data_chan
reset_data_chan-IsSound room c ch s v h = drop_all-IsSound room _ (c, ch) s v h

-- The two outcomes of `parse_xfer_event`: the loop, or no report.
parse_xfer_event_parts :
    (dma : Dma) (c : Ctrl) (event : Tre) (ch : Chan) (s : Ctrl × Chan)
    → parse_xfer_event dma c event ch ≡ some s
    → ((reports s.0.log ≡ reports c.log) × (s.1.bufs ≡ ch.bufs))
      ⊎ (let p = to_virtual ch.tre_ring (get_ev_ptr event) in
          complete_to
            (rounds_in ch.tre_ring)
            dma
            (status_of (get_ev_code event))
            p
            (get_ev_len event)
            (after_tre ch.tre_ring p)
            (c, ch)
          ≡ some s)
unfolding parse_xfer_event ring_chan_db reports
parse_xfer_event_parts dma c event ch s h = ground arith

pub parse_xfer_event-IsSound :
    (room : ℕ → ℕ) (dma : Dma) (c : Ctrl) (event : Tre) (ch : Chan) (s : Ctrl × Chan)
    → IsSound room (c, ch)
    → parse_xfer_event dma c event ch ≡ some s
    → IsSound room s
parse_xfer_event-IsSound room dma c event ch s v h =
    elim (parse_xfer_event_parts dma c event ch s h) [
      | inl (log, bufs) ↦ record { fits = rw bufs v.fits; within = rw log v.within }
      | inr e ↦ complete_to-IsSound room _ dma _ _ _ _ (c, ch) s v e
    ]
