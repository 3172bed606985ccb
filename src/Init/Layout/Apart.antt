-- ===== src/Init/Layout/Apart.antt =====
-- The loops of `mhi_alloc_dev_ctxt` (drivers/bus/mhi/core/init.c) that lay rings out: one after
-- another, each aligned to its length.
use native.Mathlib.Nat.{pow-suc, one-le-pow}
use Prim.Native.Nat.{◌∣◌}
use mathlib.Core.Path.{subst}
use mhi_for_quectel_modem.Base.{
  ℕ, suc, ◌+◌, ◌*◌, ◌^◌, ◌≤◌, ◌<◌, true, false, some, List, [], ◌∷◌, ◌++◌, length, if◌then◌else◌,
  Bool-cases, All, ◌≡◌, refl, ◌∙◌, inl, inr, arith,
}
use mhi_for_quectel_modem.Base.Word.{u64}
use mhi_for_quectel_modem.Ring.{Ring}
use mhi_for_quectel_modem.Regs.{Log}
use mhi_for_quectel_modem.Ctrl.{Ctrl}
use mhi_for_quectel_modem.Boot.{Coherent, Region}
use mhi_for_quectel_modem.Init.Layout.{
  Holder, chan_holder, event_holder, aligned_ring, lay_one, lay_all,
}

abbrev pub IsPow : ℕ → Type 0
IsPow a = (k : ℕ) × (a ≡ 2 ^ k)

-- What ALIGN documents: the next multiple of a power of two.
abbrev pub IsAlign : (ℕ → ℕ → ℕ) → Type 0
IsAlign align =
    (x a : ℕ) → IsPow a → x + a ≤ 2 ^ 64 → (a ∣ align x a) × (x ≤ align x a) × (align x a < x + a)

-- What `dma_alloc_coherent` documents of bus addresses: memory of a length is aligned to every power
-- of two up to that.
abbrev pub IsDmaAligned : Coherent → Type 0
IsDmaAligned mem =
    (log : Log) (len : ℕ) (r : Region)
    → mem log len ≡ some r
    → (r.dma_addr + len ≤ 2 ^ 64) × ((p : ℕ) → IsPow p → p ≤ len → p ∣ r.dma_addr)

-- The number of elements is a power of two within 32 bits.
abbrev pub IsSized : Ring → Type 0
IsSized r = IsPow r.elements × (r.elements ≤ 2 ^ 32)

-- The rings that the segment holds, in its order.
abbrev pub rings_of : {A : Type 0} → Holder A → List A → List Ring
rings_of h [] = []
rings_of h (x ∷ xs) = if h.has_ring x then h.ring x ∷ rings_of h xs else rings_of h xs

abbrev pub rings : Ctrl → List Ring
rings c = rings_of chan_holder c.chans ++ (rings_of event_holder c.events ++ (c.cmd_ring ∷ []))

-- From `lo` to `hi` there are these rings one after another, each aligned to its length.
abbrev pub AreApart : ℕ → List Ring → ℕ → Type 0
AreApart lo [] hi = lo ≤ hi
AreApart lo (r ∷ rs) hi =
    IsSized r
    × (r.len ≡ 16 * r.elements)
    × (lo ≤ r.iommu_base)
    × (r.len ∣ r.iommu_base)
    × AreApart (r.iommu_base + r.len) rs hi

pub from-AreApart :
    (lo lo' hi : ℕ) (rs : List Ring) → lo ≤ lo' → AreApart lo' rs hi → AreApart lo rs hi
from-AreApart lo lo' hi [] h a = omega (arith, h, a)
from-AreApart lo lo' hi (r ∷ rs) h (s, l, g, d, a) = (s, l, omega (arith, h, g), d, a)

pub append-AreApart :
    (lo mid hi : ℕ) (rs ss : List Ring)
    → AreApart lo rs mid
    → AreApart mid ss hi
    → AreApart lo (rs ++ ss) hi
append-AreApart lo mid hi [] ss a b = from-AreApart lo mid hi ss a b
append-AreApart lo mid hi (r ∷ rs) ss (s, l, g, d, a) b =
    (s, l, g, d, append-AreApart (r.iommu_base + r.len) mid hi rs ss a b)

-- The length of such a ring is a power of two too.
pub len-IsPow : (n : ℕ) → IsPow n → IsPow (16 * n)
len-IsPow n (k, e) = (
  suc (suc (suc (suc k))),
  omega (
    arith,
    e,
    pow-suc 2 (suc (suc (suc k))),
    pow-suc 2 (suc (suc k)),
    pow-suc 2 (suc k),
    pow-suc 2 k,
  ),
)

pub pow-positive : (n : ℕ) → IsPow n → 1 ≤ n
pow-positive n (k, e) = omega (arith, e, one-le-pow k 2)

-- What takes a ring to the holder that it came from gives that ring.
abbrev pub IsHolder : {A : Type 0} → Holder A → Type 0
IsHolder {A} h =
    (r : Ring) (x : A)
    → (h.has_ring (h.with_ring r x) ≡ h.has_ring x) × (h.ring (h.with_ring r x) ≡ r)

module _ (align : ℕ → ℕ → ℕ) (law : IsAlign align) where
  pub aligned_ring_lem :
      (seg : ℕ) (ring : Ring)
      → IsSized ring
      → seg ≤ 2 ^ 60
      → let seg' = (aligned_ring align seg ring).0 in
        let r = (aligned_ring align seg ring).1 in
        IsSized r
        × (r.len ≡ 16 * r.elements)
        × (seg ≤ r.iommu_base)
        × (r.len ∣ r.iommu_base)
        × (seg' ≡ r.iommu_base + r.len)
        × (seg' ≤ seg + 2 ^ 37)
  unfolding aligned_ring
  aligned_ring_lem seg ring (p, b) h =
      let len = u64 (16 * ring.elements) in
      let el : (len ≡ 16 * ring.elements) = omega (arith, b) in
      let pow : IsPow len = rw el (len-IsPow ring.elements p) in
      let (d, g, l) = law seg len pow (omega (arith, el, b, h)) in
      ((p, b), el, g, d, omega (arith, el, b, h, l), omega (arith, el, b, h, l))

  module _ {A : Type 0} (h : Holder A) (holds : IsHolder h) where
    lay_one-yes :
        (seg : ℕ) (x : A)
        → h.has_ring x ≡ true
        → let (seg', r) = aligned_ring align seg (h.ring x) in
          lay_one h align seg x ≡ (seg', h.with_ring r x)
    unfolding lay_one
    lay_one-yes seg x e = rw e refl

    lay_one-no : (seg : ℕ) (x : A) → h.has_ring x ≡ false → lay_one h align seg x ≡ (seg, x)
    unfolding lay_one
    lay_one-no seg x e = rw e refl

    yes-IsSized :
        (x : A) (xs : List A)
        → h.has_ring x ≡ true
        → All IsSized (rings_of h (x ∷ xs))
        → IsSized (h.ring x) × All IsSized (rings_of h xs)
    yes-IsSized x xs e = rw e (λ a. a)

    no-IsSized :
        (x : A) (xs : List A)
        → h.has_ring x ≡ false
        → All IsSized (rings_of h (x ∷ xs))
        → All IsSized (rings_of h xs)
    no-IsSized x xs e = rw e (λ a. a)

    pub lay_all-AreApart :
        (seg : ℕ) (xs : List A)
        → All IsSized (rings_of h xs)
        → seg + length xs * 2 ^ 37 ≤ 2 ^ 60
        → AreApart seg (rings_of h (lay_all h align seg xs).1) (lay_all h align seg xs).0
          × ((lay_all h align seg xs).0 ≤ seg + length xs * 2 ^ 37)
    unfolding lay_all
    lay_all-AreApart seg [] a b = (omega arith, omega arith)
    lay_all-AreApart seg (x ∷ xs) a b = elim (Bool-cases (h.has_ring x)) [
      | inl e ↦
          let r = (aligned_ring align seg (h.ring x)).1 in
          let (sized, rest) = yes-IsSized x xs e a in
          let (s, l, g, d, end, near) = aligned_ring_lem seg (h.ring x) sized (omega (arith, b)) in
          let seg' = (aligned_ring align seg (h.ring x)).0 in
          let (apart, far) = lay_all-AreApart seg' xs rest (omega (arith, near, b)) in
          let ends = (lay_all h align seg' xs).0 in
          let rs = rings_of h (lay_all h align seg' xs).1 in
          rw (lay_one-yes seg x e) (
            rw ((holds r x).0 ∙ e) (
              rw (holds r x).1 (
                (s, l, g, d, subst (λ lo. AreApart lo rs ends) end apart),
                omega (arith, near, far),
              )))
      | inr e ↦
          let (apart, far) = lay_all-AreApart seg xs (no-IsSized x xs e a) (omega (arith, b)) in
          rw (lay_one-no seg x e) (rw e (apart, omega (arith, far)))
    ]
