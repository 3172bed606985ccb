-- ===== src/Tests/LayoutRuns.antt =====
-- The layout of the control segment.
use native.Mathlib.Nat.{div-add-mod', mod-lt, dvd-mul_left, one-le-pow}
use Prim.Native.Nat.{◌∣◌}
use mathlib.Core.Path.{subst}
use mhi_for_quectel_modem.Base.{
  ℕ, ◌+◌, ◌-◌, ◌*◌, ◌/◌, ◌^◌, ◌≤◌, ◌<◌, none, some, [], ltb, if◌then◌else◌, Bool-cases, inl, inr,
  ◌≡◌, refl, sym, ap, ◌∙◌, arith,
}
use mhi_for_quectel_modem.Base.Word.{pow-add}
use mhi_for_quectel_modem.Boot.{Coherent, Region}
use mhi_for_quectel_modem.Channel.{Memory}
use mhi_for_quectel_modem.Init.Layout.{alloc_dev_ctxt}
use mhi_for_quectel_modem.Init.Layout.Apart.{IsPow, IsAlign, IsDmaAligned}
use mhi_for_quectel_modem.Init.Layout.Places.{IsPlaced, alloc_dev_ctxt-IsPlaced}
use mhi_for_quectel_modem.Tests.Data.{ctrl}

-- The next multiple.
abbrev round_up : ℕ → ℕ → ℕ
round_up x a = (x + (a - 1)) / a * a

round_up-IsAlign : IsAlign round_up
round_up-IsAlign x a (k, e) h =
    let some_a : (1 ≤ a) = omega (arith, e, one-le-pow k 2) in
    let whole = div-add-mod' (x + (a - 1)) a in
    let part = mod-lt (x + (a - 1)) {m = a} some_a in
    (
      dvd-mul_left a ((x + (a - 1)) / a),
      omega (arith, some_a, whole, part),
      omega (arith, some_a, whole, part),
    )

-- Up to 1 MiB of memory, at a fixed bus address.
abbrev region : Region
region = record { buf = 4096; dma_addr = 2 ^ 40; bytes = []; vec = [] }

abbrev segment : Coherent
segment log len = if ltb (2 ^ 20) len then none else some region

beyond : (k : ℕ) → 40 < k → 41 + (k - 41) ≡ k
beyond k h = omega (arith, h)

within : (k : ℕ) → k ≤ 40 → 40 - k + k ≡ 40
within k h = omega (arith, h)

divides : (p : ℕ) → IsPow p → p ≤ 2 ^ 20 → p ∣ 2 ^ 40
divides p (k, e) h = elim (Bool-cases (ltb 40 k)) [
  | inl far ↦ absurd (
      omega (
        arith,
        h,
        e,
        pow-add 2 41 (k - 41),
        one-le-pow (k - 41) 2,
        ap (λ n. 2 ^ n) (beyond k (ground (arith, far))),
      ))
  | inr near ↦
      subst (λ n. p ∣ n)
        (ap (λ q. 2 ^ (40 - k) * q) e
          ∙ sym (pow-add 2 (40 - k) k)
          ∙ ap (λ n. 2 ^ n) (within k (ground (arith, near))))
        (dvd-mul_left p (2 ^ (40 - k)))
]

segment-IsDmaAligned : IsDmaAligned segment
segment-IsDmaAligned log len r e = elim (Bool-cases (ltb (2 ^ 20) len)) [
  | inl far ↦ absurd (ground (arith, e, far))
  | inr near ↦
      let short : (len ≤ 2 ^ 20) = ground (arith, near) in
      let same : (region ≡ r) = ground (arith, e, near) in
      (
        subst (λ (r : Region). r.dma_addr + len ≤ 2 ^ 64) same (omega (arith, short)),
        subst (λ (r : Region). (p : ℕ) → IsPow p → p ≤ len → p ∣ r.dma_addr) same
            (λ p pow h. divides p pow (omega (arith, h, short))),
      )
]

abbrev lot : Memory
lot log len = some 600

-- The command ring is put at the next multiple of its 2048 bytes.
laid_out : (alloc_dev_ctxt round_up segment lot ctrl).0.cmd_ring.iommu_base ≡ 2 ^ 40 + 2048
unfolding alloc_dev_ctxt
laid_out = refl

alloc_dev_ctxt-IsPlaced_example : IsPlaced ctrl (alloc_dev_ctxt round_up segment lot ctrl)
alloc_dev_ctxt-IsPlaced_example =
    alloc_dev_ctxt-IsPlaced round_up segment lot ctrl round_up-IsAlign segment-IsDmaAligned
      (((2, refl), omega arith), tt) tt (omega arith)
