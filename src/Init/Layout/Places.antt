-- ===== src/Init/Layout/Places.antt =====
-- Where `mhi_alloc_dev_ctxt` of drivers/bus/mhi/core/init.c puts the rings: one after another behind
-- the contexts, each aligned to its length.
use native.Mathlib.Nat.{dvd-add}
use Prim.Native.Nat.{◌∣◌}
use mathlib.Core.Path.{subst}
use mathlib.Core.List.{map-append}
use mhi_for_quectel_modem.Base.{
  ℕ, ◌+◌, ◌*◌, ◌^◌, ◌≤◌, Option, none, some, List, [], ◌∷◌, ◌++◌, map, length, Bool-cases,
  Option-cases, All, ◌≡◌, refl, sym, ap, ◌∙◌, inl, inr, ◌⊎◌, arith,
}
use mhi_for_quectel_modem.Base.Word.{u64}
use mhi_for_quectel_modem.Ring.{Ring}
use mhi_for_quectel_modem.Regs.{kmalloc, kfree, alloc_coherent}
use mhi_for_quectel_modem.Ctrl.{Ctrl, act}
use mhi_for_quectel_modem.Channel.{Memory}
use mhi_for_quectel_modem.Boot.{Coherent, Region}
use mhi_for_quectel_modem.Init.Layout.{
  MhiCtxt, ctxt_size, mhi_ctxt_size, contexts_end, cmd_el_per_ring, on_rings, Holder, chan_holder,
  event_holder, placed, lay_all, on_ring, lay_out, alloc_dev_ctxt,
}
use mhi_for_quectel_modem.Init.Layout.Apart.{
  IsPow, IsAlign, IsDmaAligned, IsSized, rings_of, rings, AreApart, from-AreApart, append-AreApart,
  len-IsPow, pow-positive, IsHolder, aligned_ring_lem, lay_all-AreApart,
}

-- The addresses of the rings, `addr` further on.
module _ (buf addr hi : ℕ) (law : (p : ℕ) → IsPow p → p ≤ hi → p ∣ addr)
    (fits : addr + hi ≤ 2 ^ 64) where
  within-AreApart : (lo : ℕ) (rs : List Ring) → AreApart lo rs hi → lo ≤ hi
  within-AreApart lo [] a = a
  within-AreApart lo (r ∷ rs) (s, l, g, d, a) =
      omega (arith, g, within-AreApart (r.iommu_base + r.len) rs a)

  placed-AreApart :
      (lo : ℕ) (rs : List Ring)
      → AreApart lo rs hi
      → AreApart (addr + lo) (map (placed buf addr) rs) (addr + hi)
        × All (λ r. r.base + addr ≡ r.iommu_base + buf) (map (placed buf addr) rs)
  placed-AreApart lo [] a = (omega (arith, a), tt)
  placed-AreApart lo (r ∷ rs) (s, l, g, d, a) =
      let inside = within-AreApart (r.iommu_base + r.len) rs a in
      let some_len = pow-positive r.elements s.0 in
      let no_wrap : (u64 (r.iommu_base + addr) ≡ r.iommu_base + addr) =
        omega (arith, inside, some_len, l, fits) in
      let pow : IsPow r.len = rw l (len-IsPow r.elements s.0) in
      let (apart, same) = placed-AreApart (r.iommu_base + r.len) rs a in
      (
        (
          s,
          l,
          omega (arith, no_wrap, g),
          rw no_wrap (dvd-add r.len d (law r.len pow (omega (arith, inside)))),
          subst (λ at. AreApart at (map (placed buf addr) rs) (addr + hi)) (omega (arith, no_wrap))
              apart,
        ),
        (omega (arith, no_wrap), same),
      )

-- A change of the rings in their holders is a change of the list of rings.
module _ {A : Type 0} (h : Holder A) (holds : IsHolder h) where
  rings_of-map :
      (f : Ring → Ring) (xs : List A) → rings_of h (map (on_ring h f) xs) ≡ map f (rings_of h xs)
  rings_of-map f [] = refl
  rings_of-map f (x ∷ xs) = elim (Bool-cases (h.has_ring x)) [
    | inl e ↦
        let has = (holds (f (h.ring x)) x).0 in
        rw e (
          rw (has ∙ e)
            (rw (holds (f (h.ring x)) x).1 (ap (λ rs. f (h.ring x) ∷ rs) (rings_of-map f xs))))
    | inr e ↦ rw e (rw e (rings_of-map f xs))
  ]

-- The outcome of `mhi_alloc_dev_ctxt`. Without memory nothing is held. With memory the contexts and
-- the rings lie in the segment, one after another, and the two addresses of each ring agree.
abbrev pub IsPlaced : Ctrl → Ctrl × Option MhiCtxt → Type 0
IsPlaced c (c', none) = (c'.log ≡ c.log) ⊎ ((at : ℕ) × (c'.log ≡ kfree at ∷ (kmalloc at ∷ c.log)))
IsPlaced c (c', some x) =
    (c'.log ≡ alloc_coherent x.ctrl_seg x.ctrl_seg_len x.ctrl_seg_addr ∷ (kmalloc x.at ∷ c.log))
    × (x.chan_ctxt_addr ≡ x.ctrl_seg_addr)
    × (x.er_ctxt_addr ≡ x.chan_ctxt_addr + ctxt_size * length c.chans)
    × (x.cmd_ctxt_addr ≡ x.er_ctxt_addr + ctxt_size * length c.events)
    × AreApart (x.cmd_ctxt_addr + ctxt_size) (rings c') (x.ctrl_seg_addr + x.ctrl_seg_len)
    × All (λ r. r.base + x.ctrl_seg_addr ≡ r.iommu_base + x.ctrl_seg) (rings c')

chan-IsHolder : IsHolder chan_holder
chan-IsHolder r x = (refl, refl)

event-IsHolder : IsHolder event_holder
event-IsHolder r x = (refl, refl)

module _ (align : ℕ → ℕ → ℕ) (law : IsAlign align) (c : Ctrl)
    (chans : All IsSized (rings_of chan_holder c.chans))
    (events : All IsSized (rings_of event_holder c.events))
    (few : length c.chans + length c.events ≤ 2 ^ 16) where
  lay_out-AreApart : AreApart (contexts_end c) (rings (lay_out align c).1) (lay_out align c).0
  unfolding lay_out
  lay_out-AreApart =
      let n = length c.chans in
      let k = length c.events in
      let seg = contexts_end c in
      let (apart₁, far₁) =
        lay_all-AreApart align law chan_holder chan-IsHolder seg c.chans chans
          (omega (arith, few)) in
      let seg₁ = (lay_all chan_holder align seg c.chans).0 in
      let (apart₂, far₂) =
        lay_all-AreApart align law event_holder event-IsHolder seg₁ c.events events
          (omega (arith, few, far₁)) in
      let seg₂ = (lay_all event_holder align seg₁ c.events).0 in
      let (s, l, g, d, end, near) =
        aligned_ring_lem align law seg₂ (record (c.cmd_ring) { elements = cmd_el_per_ring })
          ((7, refl), omega arith) (omega (arith, few, far₁, far₂)) in
      append-AreApart seg seg₁ _ _ _ apart₁
        (append-AreApart seg₁ seg₂ _ _ _ apart₂ (s, l, g, d, omega (arith, end)))

rings-on_rings : (f : Ring → Ring) (c : Ctrl) → rings (on_rings f c) ≡ map f (rings c)
unfolding on_rings
rings-on_rings f c = rw (rings_of-map chan_holder chan-IsHolder f c.chans) (
    rw (rings_of-map event_holder event-IsHolder f c.events) (
      rw
        (map-append f (rings_of chan_holder c.chans)
          (rings_of event_holder c.events ++ (c.cmd_ring ∷ [])))
        (rw (map-append f (rings_of event_holder c.events) (c.cmd_ring ∷ [])) refl)))

module _ (align : ℕ → ℕ → ℕ) (mem : Coherent) (kernel : Memory) (c : Ctrl) where
  alloc_dev_ctxt-no_ctxt :
      kernel c.log mhi_ctxt_size ≡ none → alloc_dev_ctxt align mem kernel c ≡ (c, none)
  unfolding alloc_dev_ctxt
  alloc_dev_ctxt-no_ctxt e = rw (e, alloc_dev_ctxt) refl

  module _ (at : ℕ) (has : kernel c.log mhi_ctxt_size ≡ some at) where
    abbrev laid : ℕ × Ctrl
    laid = lay_out align (act (kmalloc at) c)

    alloc_dev_ctxt-no_segment :
        mem laid.1.log laid.0 ≡ none
        → alloc_dev_ctxt align mem kernel c ≡ (act (kfree at) laid.1, none)
    unfolding alloc_dev_ctxt
    alloc_dev_ctxt-no_segment e = rw (has, alloc_dev_ctxt) (rw e refl)

    alloc_dev_ctxt-some :
        (r : Region)
        → mem laid.1.log laid.0 ≡ some r
        → alloc_dev_ctxt align mem kernel c ≡ (
          on_rings (placed r.buf r.dma_addr) (act (alloc_coherent r.buf laid.0 r.dma_addr) laid.1),
          some (record {
            at = at;
            chan_ctxt = r.buf;
            er_ctxt = r.buf + u64 (ctxt_size * length c.chans);
            cmd_ctxt = r.buf + u64 (u64 (ctxt_size * length c.chans) + ctxt_size * length c.events);
            chan_ctxt_addr = r.dma_addr;
            er_ctxt_addr = u64 (u64 (ctxt_size * length c.chans) + r.dma_addr);
            cmd_ctxt_addr =
                u64 (
                  u64 (u64 (ctxt_size * length c.chans) + ctxt_size * length c.events)
                  + r.dma_addr);
            ctrl_seg = r.buf;
            ctrl_seg_addr = r.dma_addr;
            ctrl_seg_len = laid.0;
          }),
        )
    unfolding alloc_dev_ctxt
    alloc_dev_ctxt-some r e = rw (has, alloc_dev_ctxt) (rw e refl)

lay_out-log : (align : ℕ → ℕ → ℕ) (c : Ctrl) → (lay_out align c).1.log ≡ c.log
unfolding lay_out
lay_out-log align c = refl

on_rings-log : (f : Ring → Ring) (c : Ctrl) → (on_rings f c).log ≡ c.log
unfolding on_rings
on_rings-log f c = refl

-- `mhi_alloc_dev_ctxt`, if no more than 65536 channels and event rings have rings, and these have a
-- power of two of elements, at most 2 ^ 32: either it returns a null pointer and holds no memory; or
-- the control segment has the contexts of channels, events and commands, one after another, and after
-- them all rings without overlap, each at a bus address that is a multiple of its length, up to
-- the segment's end; and the pointer and the bus address of a ring have the same offset.
pub alloc_dev_ctxt-IsPlaced :
    (align : ℕ → ℕ → ℕ) (mem : Coherent) (kernel : Memory) (c : Ctrl)
    → IsAlign align
    → IsDmaAligned mem
    → All IsSized (rings_of chan_holder c.chans)
    → All IsSized (rings_of event_holder c.events)
    → length c.chans + length c.events ≤ 2 ^ 16
    → IsPlaced c (alloc_dev_ctxt align mem kernel c)
alloc_dev_ctxt-IsPlaced align mem kernel c law dma chans events few =
    elim (Option-cases (kernel c.log mhi_ctxt_size)) [
      | inl e ↦ rw (alloc_dev_ctxt-no_ctxt align mem kernel c e) (inl refl)
      | inr (at, has) ↦
          let c' = act (kmalloc at) c in
          let len = (lay_out align c').0 in
          let c₁ = (lay_out align c').1 in
          elim (Option-cases (mem c₁.log len)) [
            | inl e ↦
                rw (alloc_dev_ctxt-no_segment align mem kernel c at has e)
                  (inr (at, ap (λ log. kfree at ∷ log) (lay_out-log align c')))
            | inr (r, e) ↦
                let apart = lay_out-AreApart align law c' chans events few in
                let (fits, aligned) = dma c₁.log len r e in
                let inside =
                  within-AreApart r.buf r.dma_addr len aligned fits (contexts_end c') (rings c₁)
                    apart in
                let (moved, same) =
                  placed-AreApart r.buf r.dma_addr len aligned fits (contexts_end c') (rings c₁)
                    apart in
                let f = placed r.buf r.dma_addr in
                let c₂ = act (alloc_coherent r.buf len r.dma_addr) c₁ in
                let all = sym (rings-on_rings f c₂) in
                let cmd = u64 (
                  u64 (u64 (ctxt_size * length c.chans) + ctxt_size * length c.events)
                  + r.dma_addr) in
                let hi = r.dma_addr + len in
                rw (alloc_dev_ctxt-some align mem kernel c at has r e) (
                  on_rings-log f c₂
                      ∙ ap (λ log. alloc_coherent r.buf len r.dma_addr ∷ log)
                          (lay_out-log align c'),
                  refl,
                  omega (arith, few, inside, fits),
                  omega (arith, few, inside, fits),
                  subst (λ rs. AreApart (cmd + ctxt_size) rs hi) all
                      (from-AreApart (cmd + ctxt_size) (r.dma_addr + contexts_end c') hi
                        (map f (rings c₁)) (omega (arith, few, inside, fits)) moved),
                  subst (λ rs. All (λ r'. r'.base + r.dma_addr ≡ r'.iommu_base + r.buf) rs) all
                      same,
                )
          ]
    ]
