-- ===== src/Boot/Table.antt =====
-- What `mhi_alloc_bhie_table` of drivers/bus/mhi/core/boot.c allocates, and that it frees it again when
-- it fails.
use mhi_for_quectel_modem.Base.{
  ℕ, zero, suc, ◌+◌, ◌*◌, Option, none, some, List, [], ◌∷◌, Option-cases, ◌≡◌, ◌⊎◌, inl, inr, refl,
  ap, arith,
}
use mhi_for_quectel_modem.Base.Word.{u32}
use mhi_for_quectel_modem.Regs.{Log, alloc_coherent, kmalloc}
use mhi_for_quectel_modem.Channel.{Memory}
use mhi_for_quectel_modem.Boot.{
  MhiBuf, VecEntry, ImageInfo, Region, Coherent, Segments, all, failed, after, segment_of, vec_size,
  image_info_size, mhi_buf_size, div_round_up, as_rounds, alloc_segments, alloc_bhie_table,
}
use mhi_for_quectel_modem.Boot.Held.{
  hit, among, Gains, among-append, allocs-free_segments, frees-free_segments,
}

abbrev segments_of : Segments → List MhiBuf
segments_of (all ms vec) = ms
segments_of (failed ms) = ms

-- The coherent memory of an image, if there is one.
abbrev pub held_by : Option ImageInfo → List MhiBuf
held_by none = []
held_by (some image) = image.mhi_buf

pub Segments-cases :
    (r : Segments)
    → ((ms : List MhiBuf) × (r ≡ failed ms))
      ⊎ ((ms : List MhiBuf) × ((vec : List VecEntry) × (r ≡ all ms vec)))
Segments-cases (failed ms) = inl (ms, refl)
Segments-cases (all ms vec) = inr (ms, (vec, refl))

among-after :
    (buf len dma : ℕ) (m : MhiBuf) (vec : List VecEntry) (left : ℕ) (rest : Segments)
    → (left ≡ 0 → segments_of rest ≡ [])
    → among buf len dma (segments_of (after m vec left rest))
      ≡ hit buf len dma m.buf m.len m.dma_addr + among buf len dma (segments_of rest)
among-after buf len dma m vec zero rest h = rw (h refl) refl
among-after buf len dma m vec (suc left) (all ms vec') h = refl
among-after buf len dma m vec (suc left) (failed ms) h =
    omega (arith, among-append buf len dma ms (m ∷ []))

none-left :
    (mem : Coherent) (log : Log) (seg left i : ℕ)
    → left ≡ 0
    → segments_of (alloc_segments mem log seg left i).1 ≡ []
unfolding alloc_segments
none-left mem log seg zero i h = refl
none-left mem log seg (suc left) i h = absurd (omega arith)

pub alloc_segments-some :
    (mem : Coherent) (log : Log) (seg left i : ℕ) (r : Region)
    → mem log (vec_size seg left i) ≡ some r
    → let size = vec_size seg left i in
      let rest = alloc_segments mem (alloc_coherent r.buf size r.dma_addr ∷ log) seg left (i + 1) in
      alloc_segments mem log seg (suc left) i
      ≡ (rest.0, after (segment_of r size) r.vec left rest.1)
unfolding alloc_segments
alloc_segments-some mem log seg left i r e = ground (arith, e)

pub alloc_segments-none :
    (mem : Coherent) (log : Log) (seg left i : ℕ)
    → mem log (vec_size seg left i) ≡ none
    → alloc_segments mem log seg (suc left) i ≡ (log, failed [])
unfolding alloc_segments
alloc_segments-none mem log seg left i e = ground (arith, e)

alloc_segments-zero :
    (mem : Coherent) (log : Log) (seg i : ℕ) → alloc_segments mem log seg zero i ≡ (log, all [] [])
unfolding alloc_segments
alloc_segments-zero mem log seg i = refl

alloc_segments-Gains :
    (mem : Coherent) (log : Log) (seg left i : ℕ)
    → let r = alloc_segments mem log seg left i in Gains (segments_of r.1) log r.0
alloc_segments-Gains mem log seg zero i buf len dma =
    rw (alloc_segments-zero mem log seg i) (omega arith)
alloc_segments-Gains mem log seg (suc left) i buf len dma =
    elim (Option-cases (mem log (vec_size seg left i))) [
      | inl e ↦ rw (alloc_segments-none mem log seg left i e) (omega arith)
      | inr (r, e) ↦
          let size = vec_size seg left i in
          let log' = alloc_coherent r.buf size r.dma_addr ∷ log in
          let rest = (alloc_segments mem log' seg left (i + 1)).1 in
          rw (alloc_segments-some mem log seg left i r e) (
            omega (
              arith,
              alloc_segments-Gains mem log' seg left (i + 1) buf len dma,
              among-after buf len dma (segment_of r size) r.vec left rest
                  (none-left mem log' seg left (i + 1)),
            ))
    ]

-- `mhi_alloc_bhie_table` leaves the coherent memory of the table allocated that it returns, each
-- segment once, and no other: when it fails, whatever the allocation that failed, all that it
-- allocated before is freed again with its own length and addresses.
pub alloc_bhie_table-Gains :
    (mem : Coherent) (kernel : Memory) (log : Log) (seg_size alloc_size : ℕ)
    → let r = alloc_bhie_table mem kernel log seg_size alloc_size in Gains (held_by r.2) log r.0
unfolding alloc_bhie_table
alloc_bhie_table-Gains mem kernel log seg_size alloc_size buf len dma =
    elim (Option-cases (kernel log image_info_size)) [
      | inl e ↦ rw (e, alloc_bhie_table) (omega arith)
      | inr (at, e) ↦
          let segments = u32 (div_round_up alloc_size seg_size + 1) in
          elim (Option-cases (kernel (kmalloc at ∷ log) (segments * mhi_buf_size))) [
            | inl e₁ ↦ rw (e, e₁, alloc_bhie_table) (omega arith)
            | inr (array, e₁) ↦
                let log₁ : Log = kmalloc array ∷ kmalloc at ∷ log in
                let gains =
                  alloc_segments-Gains mem log₁ seg_size (as_rounds segments) 0 buf len dma in
                elim (Segments-cases (alloc_segments mem log₁ seg_size (as_rounds segments) 0).1) [
                  | inl (ms, e₂) ↦
                      rw (e, e₁, e₂, alloc_bhie_table)
                        (omega (
                          arith,
                          gains,
                          ap (λ r. among buf len dma (segments_of r)) e₂,
                          allocs-free_segments buf len dma _ ms,
                          frees-free_segments buf len dma _ ms,
                        ))
                  | inr (ms, (vec, e₂)) ↦
                      rw (e, e₁, e₂, alloc_bhie_table)
                        (omega (arith, gains, ap (λ r. among buf len dma (segments_of r)) e₂))
                ]
          ]
    ]
