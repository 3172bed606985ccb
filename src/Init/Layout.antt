-- ===== src/Init/Layout.antt =====
-- `mhi_alloc_dev_ctxt` and `mhi_deinit_dev_ctxt` of drivers/bus/mhi/core/init.c: one piece of coherent
-- memory, the control segment, holds the contexts and after them all rings.
pub mod Apart
pub mod Places
use mhi_for_quectel_modem.Base.{
  ℕ, ◌+◌, ◌*◌, Bool, true, not, ◌&&◌, if◌then◌else◌, Option, none, some, List, [], ◌∷◌, map, length,
}
use mhi_for_quectel_modem.Base.Word.{u64}
use mhi_for_quectel_modem.Regs.{Log, kmalloc, kfree, alloc_coherent, free_coherent}
use mhi_for_quectel_modem.Ring.{Ring}
use mhi_for_quectel_modem.Ctrl.{Ctrl, Chan, Event, act}
use mhi_for_quectel_modem.Channel.{Memory}
use mhi_for_quectel_modem.Boot.{Coherent}

-- `struct mhi_ctxt` at the address `at`.
pub record MhiCtxt : Type 0 where
  pub at : ℕ
  pub chan_ctxt : ℕ
  pub er_ctxt : ℕ
  pub cmd_ctxt : ℕ
  pub chan_ctxt_addr : ℕ
  pub er_ctxt_addr : ℕ
  pub cmd_ctxt_addr : ℕ
  pub ctrl_seg : ℕ
  pub ctrl_seg_addr : ℕ
  pub ctrl_seg_len : ℕ

-- The sizes of `struct mhi_ctxt` and of a context entry (the same for the three kinds), and
-- CMD_EL_PER_RING.
abbrev pub mhi_ctxt_size : ℕ
mhi_ctxt_size = 72

abbrev pub ctxt_size : ℕ
ctxt_size = 44

abbrev pub cmd_el_per_ring : ℕ
cmd_el_per_ring = 128

-- The three loops over rings differ in what holds a ring: whether it takes part, and the ring.
pub record Holder (A : Type 0) : Type 0 where
  pub has_ring : A → Bool
  pub ring : A → Ring
  pub with_ring : Ring → A → A

-- "Skip if it is an invaild or offload channel"
abbrev pub chan_holder : Holder Chan
chan_holder = record {
  has_ring = λ ch. ch.named && not ch.offload_ch;
  ring = λ ch. ch.tre_ring;
  with_ring = λ r ch. record ch { tre_ring = r };
}

-- "Skip if it is an offload event"
abbrev pub event_holder : Holder Event
event_holder = record {
  has_ring = λ event. not event.offload_ev;
  ring = λ event. event.ring;
  with_ring = λ r event. record event { ring = r };
}

-- `mhi_aligned_ring`, with `ctrl_seg_len` before and after. `align` is ALIGN of the kernel.
unfoldable pub aligned_ring : (ℕ → ℕ → ℕ) → ℕ → Ring → ℕ × Ring
aligned_ring align seg ring =
    let len = u64 (16 * ring.elements) in
    let at = align seg len in
    (u64 (at + len), record ring { el_size = 16; len = len; iommu_base = at })

-- From the place in the segment to its addresses.
abbrev pub placed : ℕ → ℕ → Ring → Ring
placed ctrl_seg ctrl_seg_addr ring = record ring {
  base = ctrl_seg + ring.iommu_base;
  iommu_base = u64 (ring.iommu_base + ctrl_seg_addr);
}

abbrev pub forgotten : Ring → Ring
forgotten ring = record ring { base = 0; iommu_base = 0 }

module _ {A : Type 0} (h : Holder A) where
  -- One round of a loop that lays rings out, and the loop.
  unfoldable pub lay_one : (ℕ → ℕ → ℕ) → ℕ → A → ℕ × A
  unfolding aligned_ring
  lay_one align seg x =
      if h.has_ring x
      then (let (seg', r) = aligned_ring align seg (h.ring x) in (seg', h.with_ring r x))
      else (seg, x)

  unfoldable pub lay_all : (ℕ → ℕ → ℕ) → ℕ → List A → ℕ × List A
  unfolding lay_one
  lay_all align seg [] = (seg, [])
  lay_all align seg (x ∷ xs) =
      let (seg₁, x') = lay_one align seg x in
      let (seg₂, xs') = lay_all align seg₁ xs in (seg₂, x' ∷ xs')

  -- A loop that only changes rings.
  abbrev pub on_ring : (Ring → Ring) → A → A
  on_ring f x = if h.has_ring x then h.with_ring (f (h.ring x)) x else x

-- The end of the contexts in the segment, where the rings begin.
abbrev pub contexts_end : Ctrl → ℕ
contexts_end c = u64 (ctxt_size * (length c.chans + length c.events + 1))

-- All rings at their places in the segment, and its length.
unfoldable pub lay_out : (ℕ → ℕ → ℕ) → Ctrl → ℕ × Ctrl
unfolding lay_all aligned_ring
lay_out align c =
    let (seg₁, chans) = lay_all chan_holder align (contexts_end c) c.chans in
    let (seg₂, events) = lay_all event_holder align seg₁ c.events in
    let (seg₃, cmd) =
      aligned_ring align seg₂ (record (c.cmd_ring) { elements = cmd_el_per_ring }) in
    (seg₃, record c { chans = chans; events = events; cmd_ring = cmd })

-- A change of all rings that the segment holds.
unfoldable pub on_rings : (Ring → Ring) → Ctrl → Ctrl
on_rings f c = record c {
  chans = map (on_ring chan_holder f) c.chans;
  events = map (on_ring event_holder f) c.events;
  cmd_ring = f c.cmd_ring;
}

-- `mhi_alloc_dev_ctxt`; `none` is a null pointer.
unfoldable pub alloc_dev_ctxt : (ℕ → ℕ → ℕ) → Coherent → Memory → Ctrl → Ctrl × Option MhiCtxt
unfolding lay_out on_rings
alloc_dev_ctxt align mem kernel c = elim (kernel c.log mhi_ctxt_size) [
  | none ↦ (c, none)
  | some at ↦
      let er = u64 (ctxt_size * length c.chans) in
      let cmd = u64 (er + ctxt_size * length c.events) in
      let (len, c₁) = lay_out align (act (kmalloc at) c) in
      elim (mem c₁.log len) [
        | none ↦ (act (kfree at) c₁, none)
        | some r ↦ (
          on_rings (placed r.buf r.dma_addr) (act (alloc_coherent r.buf len r.dma_addr) c₁),
          some (record {
            at = at;
            chan_ctxt = r.buf;
            er_ctxt = r.buf + er;
            cmd_ctxt = r.buf + cmd;
            chan_ctxt_addr = r.dma_addr;
            er_ctxt_addr = u64 (er + r.dma_addr);
            cmd_ctxt_addr = u64 (cmd + r.dma_addr);
            ctrl_seg = r.buf;
            ctrl_seg_addr = r.dma_addr;
            ctrl_seg_len = len;
          }),
        )
      ]
]

-- `mhi_deinit_dev_ctxt` on the context that the controller points to.
unfoldable pub deinit_dev_ctxt : MhiCtxt → Ctrl → Ctrl
deinit_dev_ctxt ctxt c = act (kfree ctxt.at) (
    act (free_coherent ctxt.ctrl_seg ctxt.ctrl_seg_len ctxt.ctrl_seg_addr) (record c {
      events = map (on_ring event_holder forgotten) c.events;
      cmd_ring = forgotten c.cmd_ring;
    }))
