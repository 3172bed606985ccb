-- ===== src/Ring/Slots.antt =====
-- A ring's pointers as slot numbers.
use mhi_for_quectel_modem.Base.{
  ℕ, ◌+◌, ◌-◌, ◌*◌, ◌^◌, ◌≤◌, ◌<◌, ◌≡◌, ap, dec_lt, arith, leb, if◌then◌else◌,
}
use mhi_for_quectel_modem.Ring.{
  Ring, advance, add_ring_element, del_ring_element, recycle_ev_ring_element, to_virtual, to_device,
}

-- The slot after `k` in a ring of `n`.
abbrev pub next : ℕ → ℕ → ℕ
next n k = if leb n (k + 1) then 0 else k + 1

-- `p` points to slot `k`.
abbrev pub PointsTo : Ring → ℕ → ℕ → Type 0
PointsTo r p k = p ≡ r.base + k * r.el_size

-- A ring of `n` elements whose read pointer stands at slot `i` and write pointer at slot `j`.
pub record IsAt (r : Ring) (n i j : ℕ) : Type 0 where
  pub sized : 0 < r.el_size
  pub measured : r.len ≡ n * r.el_size
  pub reads : PointsTo r r.rp i
  pub writes : PointsTo r r.wp j
  pub rp_in : i < n
  pub wp_in : j < n

-- A later slot lies at least one element further on.
pub gap : (a b e : ℕ) → a < b → a * e + e ≤ b * e
gap a b e h = grind arith

pub mul-add-one : (k e : ℕ) → (k + 1) * e ≡ k * e + e
mul-add-one k e = grind arith

pub advance-PointsTo :
    (r : Ring) (n k p : ℕ)
    → 0 < r.el_size
    → r.len ≡ n * r.el_size
    → k < n
    → PointsTo r p k
    → PointsTo r (advance r p) (next n k)
advance-PointsTo r n k p e l h q = elim (dec_lt (k + 1) n) [
  | yes more ↦ ground (arith, gap (k + 1) n r.el_size more, mul-add-one k r.el_size)
  | no last ↦
      let eq : n ≡ k + 1 = omega arith in
      ground (arith, mul-add-one k r.el_size, ap (λ t. t * r.el_size) eq)
]

pub next-lt : (n k : ℕ) → k < n → next n k < n
next-lt n k h = ground arith

-- `mhi_add_ring_element` moves the write pointer to the next slot of the ring, and only it.
pub add_ring_element-IsAt :
    {r : Ring} {n i j : ℕ} → IsAt r n i j → IsAt (add_ring_element r) n i (next n j)
unfolding add_ring_element
add_ring_element-IsAt {r} {n} {i} {j} v = record {
  sized = v.sized;
  measured = v.measured;
  reads = v.reads;
  writes = advance-PointsTo r n j r.wp v.sized v.measured v.wp_in v.writes;
  rp_in = v.rp_in;
  wp_in = next-lt n j v.wp_in;
}

-- `mhi_del_ring_element` moves the read pointer to the next slot of the ring, and only it.
pub del_ring_element-IsAt :
    {r : Ring} {n i j : ℕ} → IsAt r n i j → IsAt (del_ring_element r) n (next n i) j
unfolding del_ring_element
del_ring_element-IsAt {r} {n} {i} {j} v = record {
  sized = v.sized;
  measured = v.measured;
  writes = v.writes;
  reads = advance-PointsTo r n i r.rp v.sized v.measured v.rp_in v.reads;
  rp_in = next-lt n i v.rp_in;
  wp_in = v.wp_in;
}

-- The context's write pointer is the bus address of the ring's.
abbrev pub IsSynced : Ring → Type 0
IsSynced r = r.ctxt_wp ≡ r.iommu_base + (r.wp - r.base)

-- The ring's bus addresses do not run over 64 bits.
abbrev pub IsMapped : Ring → Type 0
IsMapped r = r.iommu_base + r.len < 2 ^ 64

-- In an event ring whose bus addresses stay within 64 bits, `mhi_recycle_ev_ring_element` moves
-- both pointers to their next slots, and keeps the write pointer that the device sees equal to the
-- ring's, if it is so before.
pub recycle_ev_ring_element-IsAt :
    {r : Ring} {n i j : ℕ}
    → IsAt r n i j
    → IsMapped r
    → IsSynced r
    → let r' = recycle_ev_ring_element r in IsAt r' n (next n i) (next n j) × IsSynced r'
unfolding recycle_ev_ring_element
recycle_ev_ring_element-IsAt {r} {n} {i} {j} v m s = (at, ground (arith, gap j n r.el_size v.wp_in))
  where
    at : IsAt (recycle_ev_ring_element r) n (next n i) (next n j)
    at = record {
      sized = v.sized;
      measured = v.measured;
      writes = advance-PointsTo r n j r.wp v.sized v.measured v.wp_in v.writes;
      reads = advance-PointsTo r n i r.rp v.sized v.measured v.rp_in v.reads;
      rp_in = next-lt n i v.rp_in;
      wp_in = next-lt n j v.wp_in;
    }

-- In a ring that lies within the 64-bit address spaces, the bus address that the driver hands to
-- the device for a slot is turned back into the same pointer.
pub to_virtual-to_device :
    (r : Ring) (n k p : ℕ)
    → r.len ≡ n * r.el_size
    → k < n
    → PointsTo r p k
    → IsMapped r
    → r.base + r.len < 2 ^ 64
    → to_virtual r (to_device r p) ≡ p
unfolding to_virtual to_device
to_virtual-to_device r n k p l h q m b = omega (arith, gap k n r.el_size h)
