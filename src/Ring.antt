-- ===== src/Ring.antt =====
-- Rings of elements shared with the device: `struct mhi_ring`, and its pointer arithmetic in
-- drivers/bus/mhi/core/main.c.
pub mod Slots
pub mod Space
use mhi_for_quectel_modem.Base.{
  ℕ, ◌+◌, ◌-◌, ◌*◌, ◌/◌, ◌%◌, ◌^◌, Bool, true, false, ltb, leb, ◌==◌, if◌then◌else◌,
}
use mhi_for_quectel_modem.Base.Word.{u32, u64}

-- `struct mhi_ring`. A pointer is its address. `ctxt_wp` is the write pointer of the context entry
-- that the C field points to; `ctxt_rbase`, `ctxt_rlen` and `ctxt_rp` are the other words of that entry
-- (`rbase`, `rlen`, and `rp`, which the device writes).
pub record Ring : Type 0 where
  pub iommu_base : ℕ
  pub ctxt_rbase : ℕ
  pub ctxt_rp : ℕ
  pub ctxt_wp : ℕ
  pub ctxt_rlen : ℕ
  pub base : ℕ
  pub rp : ℕ
  pub wp : ℕ
  pub el_size : ℕ
  pub len : ℕ
  pub elements : ℕ
  pub db_addr : ℕ

-- `get_nr_avail_ring_elements`. The `int` result is its 32-bit pattern.
unfoldable pub get_nr_avail_ring_elements : Ring → ℕ
get_nr_avail_ring_elements ring =
    if ltb ring.wp ring.rp
    then u32 ((ring.rp - ring.wp) / ring.el_size + 2 ^ 32 - 1)
    else u32 (
        u32 ((ring.rp - ring.base) / ring.el_size)
        + ((ring.base + ring.len - ring.wp) / ring.el_size + 2 ^ 32 - 1))

-- `mhi_to_virtual`, in the 64-bit arithmetic of `dma_addr_t`.
unfoldable pub to_virtual : Ring → ℕ → ℕ
to_virtual ring addr = u64 (u64 (addr + 2 ^ 64 - ring.iommu_base) + ring.base)

-- The bus address of a pointer into the ring: `ring->iommu_base + (p - ring->base)`.
unfoldable pub to_device : Ring → ℕ → ℕ
to_device ring p = u64 (ring.iommu_base + (p - ring.base))

-- The element after a pointer, at the end of the ring the first.
abbrev pub advance : Ring → ℕ → ℕ
advance ring p = let q = p + ring.el_size in if leb (ring.base + ring.len) q then ring.base else q

unfoldable pub add_ring_element : Ring → Ring
add_ring_element ring = record ring { wp = advance ring ring.wp }

unfoldable pub del_ring_element : Ring → Ring
del_ring_element ring = record ring { rp = advance ring ring.rp }

-- `mhi_recycle_ev_ring_element`: the context's write pointer follows the ring's.
unfoldable pub recycle_ev_ring_element : Ring → Ring
recycle_ev_ring_element ring =
    let wp = ring.wp + ring.el_size in
    let ctxt_wp = u64 (ring.ctxt_wp + ring.el_size) in
    let wraps = leb (ring.base + ring.len) wp in
    record ring {
      wp = if wraps then ring.base else wp;
      ctxt_wp = if wraps then ring.iommu_base else ctxt_wp;
      rp = advance ring ring.rp;
    }

unfoldable pub is_ring_full : Ring → Bool
is_ring_full ring = advance ring ring.wp == ring.rp
