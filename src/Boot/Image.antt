-- ===== src/Boot/Image.antt =====
-- The table that `mhi_alloc_bhie_table` and `mhi_firmware_copy` of drivers/bus/mhi/core/boot.c make of
-- a firmware image.
use mhi_for_quectel_modem.Base.{
  ℕ, zero, suc, ◌+◌, ◌-◌, ◌*◌, ◌^◌, ◌≤◌, ◌<◌, Option, none, some, List, [], ◌∷◌, length,
  Option-cases, some-injective, ◌≡◌, ◌⊎◌, inl, inr, refl, sym, ap, ◌∙◌, arith,
}
use mathlib.Core.Path.{subst}
use native.Mathlib.Nat.{div-mul-le_self, lt-div-mul-add}
use mhi_for_quectel_modem.Base.Word.{u32, u64}
use mhi_for_quectel_modem.Regs.{Log, kmalloc}
use mhi_for_quectel_modem.Channel.{Memory}
use mhi_for_quectel_modem.Boot.{
  MhiBuf, ImageInfo, Coherent, all, div_round_up, as_rounds, alloc_segments, alloc_bhie_table,
  copy_from, firmware_copy, image_info_size, mhi_buf_size,
}
use mhi_for_quectel_modem.Boot.Held.{among}
use mhi_for_quectel_modem.Boot.Copy.{
  device_reads, IsCoherent, Fits, Good, alloc_segments-Good, Copied, copy-Copied, Kept,
  copy_from-Kept,
}
use mhi_for_quectel_modem.Boot.Table.{Segments-cases}

-- The number of segments for `n` bytes, and its rounding.
pub div_round_up_bounds :
    (n d : ℕ) → 0 < d → n + d < 2 ^ 64 → (n ≤ div_round_up n d * d) × (div_round_up n d * d < n + d)
div_round_up_bounds n d pos small =
    let t = n + d - 1 in
    let same : u64 t ≡ t = omega arith in
    rw same (omega (arith, div-mul-le_self t d, lt-div-mul-add {a = t} pos))

-- An image that is copied.
abbrev Filled : List ℕ → ImageInfo → Option ImageInfo → Type 0
Filled firmware image none = ⊥
Filled firmware image (some image') =
    (device_reads image'.mhi_buf image'.bhi_vec ≡ some firmware)
    × (length image'.bhi_vec ≡ length image.bhi_vec)
    × (image'.entries ≡ image.entries)
    × (length image'.mhi_buf ≡ length image.mhi_buf)
    × ((buf len dma : ℕ) → among buf len dma image'.mhi_buf ≡ among buf len dma image.mhi_buf)

firmware_copy-Filled :
    (firmware : List ℕ) (image : ImageInfo)
    → Copied firmware (length image.bhi_vec) (copy_from firmware image.mhi_buf image.bhi_vec)
    → Filled firmware image (firmware_copy firmware image)
unfolding firmware_copy
firmware_copy-Filled firmware image h =
    elim (Option-cases (copy_from firmware image.mhi_buf image.bhi_vec)) [
      | inl e ↦ absurd (subst (Copied firmware (length image.bhi_vec)) e h)
      | inr ((ms, vec), e) ↦
          rw (e, firmware_copy)
            (let (reads, same) = subst (Copied firmware (length image.bhi_vec)) e h in
              let (size, kept) =
                subst (Kept image.mhi_buf) e
                  (copy_from-Kept firmware image.mhi_buf image.bhi_vec) in
              (reads, same, refl, size, kept))
    ]

-- The memory of a table that was allocated.
record Parts (mem : Coherent) (seg_size segments : ℕ) (image : ImageInfo) : Type 0 where
  log : Log
  segs :
      (alloc_segments mem log seg_size (as_rounds segments) 0).1 ≡ all image.mhi_buf image.bhi_vec
  count : image.entries ≡ segments

abbrev segments_for : ℕ → ℕ → ℕ
segments_for seg_size alloc_size = u32 (div_round_up alloc_size seg_size + 1)

alloc_bhie_table-Parts :
    (mem : Coherent) (kernel : Memory) (log : Log) (seg_size alloc_size : ℕ)
    → let r = alloc_bhie_table mem kernel log seg_size alloc_size in
      (r.2 ≡ none)
      ⊎ ((image : ImageInfo) × ((r.2 ≡ some image)
            × Parts mem seg_size (segments_for seg_size alloc_size) image))
unfolding alloc_bhie_table
alloc_bhie_table-Parts mem kernel log seg_size alloc_size =
    elim (Option-cases (kernel log image_info_size)) [
      | inl e ↦ inl (rw (e, alloc_bhie_table) refl)
      | inr (at, e) ↦
          let segments = segments_for seg_size alloc_size in
          elim (Option-cases (kernel (kmalloc at ∷ log) (segments * mhi_buf_size))) [
            | inl e₁ ↦ inl (rw (e, e₁, alloc_bhie_table) refl)
            | inr (array, e₁) ↦
                let log₁ : Log = kmalloc array ∷ kmalloc at ∷ log in
                elim (Segments-cases (alloc_segments mem log₁ seg_size (as_rounds segments) 0).1) [
                  | inl (ms, e₂) ↦ inl (rw (e, e₁, e₂, alloc_bhie_table) refl)
                  | inr (ms, (vec, e₂)) ↦ inr (
                    record {
                      at = at;
                      array = array;
                      mhi_buf = ms;
                      bhi_vec = vec;
                      entries = segments;
                    },
                    (
                      rw (e, e₁, e₂, alloc_bhie_table) refl,
                      record { log = log₁; segs = e₂; count = refl },
                    ),
                  )
                ]
          ]
    ]

Parts-Fits :
    (mem : Coherent) (law : IsCoherent mem) (seg_size n segments : ℕ) (image : ImageInfo)
    → as_rounds segments ≡ suc n
    → Parts mem seg_size segments image
    → Fits seg_size n image.mhi_buf × (length image.bhi_vec ≡ n + 0)
Parts-Fits mem law seg_size n segments image e p =
    subst (Good seg_size n 0) (ap (λ k. (alloc_segments mem p.log seg_size k 0).1) (sym e) ∙ p.segs)
      (alloc_segments-Good mem law p.log seg_size n 0)

Fits-length : (seg n : ℕ) (ms : List MhiBuf) → Fits seg n ms → length ms ≡ suc n
Fits-length seg n [] f = absurd f
Fits-length seg zero (m ∷ ms) f = rw f refl
Fits-length seg (suc n) (m ∷ ms) f = ap suc (Fits-length seg n ms f.2)

copied_table :
    (mem : Coherent) (law : IsCoherent mem) (seg_size : ℕ) (firmware : List ℕ) (image : ImageInfo)
    → 0 < seg_size
    → length firmware + seg_size < 2 ^ 64
    → div_round_up (length firmware) seg_size + 1 < 2 ^ 31
    → Parts mem seg_size (segments_for seg_size (length firmware)) image
    → (image' : ImageInfo) × ((firmware_copy firmware image ≡ some image')
        × (device_reads image'.mhi_buf image'.bhi_vec ≡ some firmware)
        × (image'.entries ≡ length image'.bhi_vec + 1)
        × (image'.entries ≡ length image'.mhi_buf)
        × ((buf len dma : ℕ) → among buf len dma image'.mhi_buf ≡ among buf len dma image.mhi_buf))
copied_table mem law seg_size firmware image pos small few p =
    let n = div_round_up (length firmware) seg_size in
    let (fits, same) =
      Parts-Fits mem law seg_size n (segments_for seg_size (length firmware)) image (ground arith)
        p in
    let (enough, tight) = div_round_up_bounds (length firmware) seg_size pos small in
    let filled = firmware_copy-Filled firmware image (
      copy-Copied seg_size n firmware image.mhi_buf image.bhi_vec pos fits (omega (arith, same))
        enough tight) in
    elim (Option-cases (firmware_copy firmware image)) [
      | inl e ↦ absurd (subst (Filled firmware image) e filled)
      | inr (image', e) ↦
          let (reads, kept, entries, size, addresses) = subst (Filled firmware image) e filled in
          (
            image',
            (
              e,
              reads,
              omega (arith, entries, kept, same, p.count),
              omega (arith, entries, size, Fits-length seg_size n image.mhi_buf fits, p.count),
              addresses,
            ),
          )
    ]

-- Let the table be allocated for the firmware's size, by an allocator that gives the length asked for,
-- with segments of a length that is not 0, and neither the size in 64 bits nor the number of segments
-- in an `int` overflow. Then `mhi_firmware_copy` stays within the table, a device that follows the
-- table reads the firmware, byte for byte, the table has an entry for every segment but the last,
-- which is its own, and the segments are those that were allocated.
pub alloc-firmware_copy :
    (mem : Coherent) (kernel : Memory) (log : Log) (seg_size : ℕ) (firmware : List ℕ)
    (image : ImageInfo)
    → IsCoherent mem
    → 0 < seg_size
    → length firmware + seg_size < 2 ^ 64
    → div_round_up (length firmware) seg_size + 1 < 2 ^ 31
    → (alloc_bhie_table mem kernel log seg_size (length firmware)).2 ≡ some image
    → (image' : ImageInfo) × ((firmware_copy firmware image ≡ some image')
        × (device_reads image'.mhi_buf image'.bhi_vec ≡ some firmware)
        × (image'.entries ≡ length image'.bhi_vec + 1)
        × (image'.entries ≡ length image'.mhi_buf)
        × ((buf len dma : ℕ) → among buf len dma image'.mhi_buf ≡ among buf len dma image.mhi_buf))
alloc-firmware_copy mem kernel log seg_size firmware image law pos small few h =
    let n = div_round_up (length firmware) seg_size in
    elim (alloc_bhie_table-Parts mem kernel log seg_size (length firmware)) [
      | inl e ↦ absurd (ground (arith, e, h))
      | inr (image₀, (e, parts)) ↦
          let same : image₀ ≡ image = some-injective image₀ image (sym e ∙ h) in
          copied_table mem law seg_size firmware image pos small few
            (subst (Parts mem seg_size (segments_for seg_size (length firmware))) same parts)
    ]
