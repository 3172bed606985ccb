-- ===== src/Complete/Bounds.antt =====
-- The byte counts that the driver reports to a channel's client.
pub mod Loops
use mhi_for_quectel_modem.Base.{
  ℕ, zero, suc, ◌+◌, ◌-◌, ◌%◌, ◌^◌, ◌≤◌, ◌<◌, Bool, true, false, Option, none, some, List, [], ◌∷◌,
  get_or, set, get_or-set, ◌≡◌, ◌⊎◌, inl, inr, refl, sym, ap, ◌∙◌, arith, ◌==◌, if◌then◌else◌,
  Bool-cases, some-injective,
}
use mathlib.Core.Path.{subst}
use mhi_for_quectel_modem.Regs.{Log, Act, Status, xfer_cb}
use mhi_for_quectel_modem.Tre.{Tre, get_ev_ptr, get_ev_len, get_ev_code}
use mhi_for_quectel_modem.Ring.{to_virtual}
use mhi_for_quectel_modem.Ctrl.{Ctrl, Chan, BufInfo, ring_chan_db}
use mhi_for_quectel_modem.Wake.{
  assert_dev_wake, deassert_dev_wake, wake_toggle, resume_if_suspended,
}
use mhi_for_quectel_modem.Queue.{
  Dma, no_buf, slot, eot, is_to_device, described, gen_tre, map_single, finish_queue, queue_client,
  queue_buf,
}
use mhi_for_quectel_modem.Complete.{
  bytes_xferd, oldest, recycle, complete_one, complete_to, drop_one, drop_all, parse_xfer_event,
  reset_data_chan, rounds_in, after_tre, status_of,
}

-- What the client was told: a buffer, and how many bytes it holds.
unfoldable pub reports : Log → List (ℕ × ℕ)
reports [] = []
reports (xfer_cb ch buf bytes st ∷ log) = (buf, bytes) ∷ reports log
reports (_ ∷ log) = reports log

-- Nothing was reported above the capacity that `room` says of a buffer.
abbrev pub Within : (ℕ → ℕ) → List (ℕ × ℕ) → Type 0
Within room [] = Unit
Within room ((buf, bytes) ∷ l) = (bytes ≤ room buf) × Within room l

-- The descriptors in a channel's buffer ring claim no more than their buffers hold.
abbrev pub Fits : (ℕ → ℕ) → List BufInfo → Type 0
Fits room bufs = (k : ℕ) → (get_or bufs k no_buf).len ≤ room (get_or bufs k no_buf).cb_buf

pub record IsSound (room : ℕ → ℕ) (s : Ctrl × Chan) : Type 0 where
  pub fits : Fits room s.1.bufs
  pub within : Within room (reports s.0.log)

pub bytes_xferd-le : (x len : ℕ) → bytes_xferd x len ≤ len
bytes_xferd-le x len = ground arith

pub Fits-set :
    (room : ℕ → ℕ) (bufs : List BufInfo) (i : ℕ) (b : BufInfo)
    → Fits room bufs
    → b.len ≤ room b.cb_buf
    → Fits room (set bufs i b)
Fits-set room bufs i b fits small k = elim (get_or-set bufs i k b no_buf) [
  | inl e ↦ rw e small
  | inr e ↦ rw e (fits k)
]

-- Queueing reports nothing.
reports-assert : (c : Ctrl) (force : Bool) → reports (assert_dev_wake c force).log ≡ reports c.log
unfolding assert_dev_wake reports
reports-assert c force = ground arith

reports-deassert :
    (c : Ctrl) (override : Bool) → reports (deassert_dev_wake c override).log ≡ reports c.log
unfolding deassert_dev_wake reports
reports-deassert c override = ground arith

reports-wake : (c : Ctrl) → reports (wake_toggle (resume_if_suspended c)).log ≡ reports c.log
unfolding wake_toggle reports
reports-wake c =
    let c₁ = resume_if_suspended c in
    ground (arith, reports-assert c₁ false, reports-deassert (assert_dev_wake c₁ false) true)

reports-finish :
    (c : Ctrl) (ch : Chan)
    → (reports (finish_queue c ch).0.log ≡ reports c.log) × ((finish_queue c ch).1.bufs ≡ ch.bufs)
unfolding finish_queue ring_chan_db reports
reports-finish c ch = ground arith

Fits-gen :
    (room : ℕ → ℕ) (dma : Dma) (log : Log) (ch : Chan) (info : BufInfo) (flags : ℕ)
    → Fits room ch.bufs
    → info.len ≤ room info.cb_buf
    → Fits room (gen_tre dma log ch info flags).0.bufs
unfolding gen_tre map_single
Fits-gen room dma log ch info flags fits small =
    let at = slot ch.buf_ring ch.buf_ring.wp in
    let buf = described ch (get_or ch.bufs at no_buf) info in
    let b = if info.pre_mapped then buf else (map_single dma log buf).0 in
    let e : (gen_tre dma log ch info flags).0.bufs ≡ set ch.bufs at b = ground arith in
    rw e (Fits-set room ch.bufs at b fits (ground (arith, small)))

reports-queue :
    (dma : Dma) (c : Ctrl) (ch : Chan) (buf len flags : ℕ)
    → reports (queue_buf dma c ch buf len flags).0.log ≡ reports c.log
unfolding queue_buf
reports-queue dma c ch buf len flags = ground (
  arith,
  reports-wake c,
  reports-finish (wake_toggle (resume_if_suspended c))
      (gen_tre dma c.log ch (record no_buf { v_addr = buf; cb_buf = buf; len = len }) flags).0,
)

queue_buf_bufs :
    (dma : Dma) (c : Ctrl) (ch : Chan) (buf len flags : ℕ)
    → let bufs = (queue_buf dma c ch buf len flags).1.bufs in
      (bufs ≡ ch.bufs)
      ⊎ (bufs
          ≡ (gen_tre dma c.log ch
              (record no_buf { v_addr = buf; cb_buf = buf; len = len })
              flags).0.bufs)
unfolding queue_buf
queue_buf_bufs dma c ch buf len flags = ground (
  arith,
  reports-finish (wake_toggle (resume_if_suspended c))
      (gen_tre dma c.log ch (record no_buf { v_addr = buf; cb_buf = buf; len = len }) flags).0,
)

Fits-queue :
    (room : ℕ → ℕ) (dma : Dma) (c : Ctrl) (ch : Chan) (buf len flags : ℕ)
    → Fits room ch.bufs
    → len ≤ room buf
    → Fits room (queue_buf dma c ch buf len flags).1.bufs
Fits-queue room dma c ch buf len flags fits small = elim (queue_buf_bufs dma c ch buf len flags) [
  | inl e ↦ rw e fits
  | inr e ↦ rw e (
      Fits-gen room dma c.log ch (record no_buf { v_addr = buf; cb_buf = buf; len = len }) flags
        fits small)
]

-- `mhi_queue_skb` and `mhi_queue_dma`.
queue_client_bufs :
    (dma : Dma) (c : Ctrl) (ch : Chan) (info : BufInfo) (flags : ℕ)
    → let r = queue_client dma c ch info flags in
      let c₁ = wake_toggle (resume_if_suspended c) in
      (reports r.0.log ≡ reports c.log)
      × ((r.1.bufs ≡ ch.bufs) ⊎ (r.1.bufs ≡ (gen_tre dma c₁.log ch info flags).0.bufs))
unfolding queue_client
queue_client_bufs dma c ch info flags =
    let c₁ = wake_toggle (resume_if_suspended c) in
    let ch₁ = (gen_tre dma c₁.log ch info flags).0 in
    (ground (arith, reports-wake c, reports-finish c₁ ch₁), ground (arith, reports-finish c₁ ch₁))

pub queue_client-IsSound :
    (room : ℕ → ℕ) (dma : Dma) (c : Ctrl) (ch : Chan) (info : BufInfo) (flags : ℕ)
    → IsSound room (c, ch)
    → info.len ≤ room info.cb_buf
    → let r = queue_client dma c ch info flags in IsSound room (r.0, r.1)
queue_client-IsSound room dma c ch info flags v small =
    let c₁ = wake_toggle (resume_if_suspended c) in
    let (log, left) = queue_client_bufs dma c ch info flags in
    record {
      within = rw log v.within;
      fits = elim left [
        | inl e ↦ rw e v.fits
        | inr e ↦ rw e (Fits-gen room dma c₁.log ch info flags v.fits small)
      ];
    }

recycle_bufs :
    (dma : Dma) (buf : BufInfo) (c : Ctrl) (ch : Chan)
    → let r = recycle dma buf (c, ch) in
      (reports r.0.log ≡ reports c.log)
      × ((r.1.bufs ≡ ch.bufs) ⊎ (r.1.bufs ≡ (queue_buf dma c ch buf.cb_buf buf.len eot).1.bufs))
unfolding recycle reports
recycle_bufs dma buf c ch =
    (ground (arith, reports-queue dma c ch buf.cb_buf buf.len eot), ground arith)

pub recycle-IsSound :
    (room : ℕ → ℕ) (dma : Dma) (buf : BufInfo) (s : Ctrl × Chan)
    → IsSound room s
    → buf.len ≤ room buf.cb_buf
    → IsSound room (recycle dma buf s)
recycle-IsSound room dma buf (c, ch) v small =
    let (log, left) = recycle_bufs dma buf c ch in
    record {
      within = rw log v.within;
      fits = elim left [
        | inl e ↦ rw e v.fits
        | inr e ↦ rw e (Fits-queue room dma c ch buf.cb_buf buf.len eot v.fits small)
      ];
    }
