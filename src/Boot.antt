-- ===== src/Boot.antt =====
-- Firmware loading (drivers/bus/mhi/core/boot.c): the data, the tables of segments, and the copying
-- of an image into a table. The transfers to and from the device are in the children.
pub mod Held
pub mod Table
pub mod Copy
pub mod Image
pub mod Load
pub mod Rddm
pub mod Handler
pub mod Ledger
pub mod Clean
pub mod Stages
pub mod Outcome
use mhi_for_quectel_modem.Base.{
  ℕ, zero, suc, ◌+◌, ◌-◌, ◌*◌, ◌/◌, ◌^◌, min, Option, none, some, List, [], ◌∷◌, ◌++◌, length, take,
  drop, ltb, if◌then◌else◌,
}
use mhi_for_quectel_modem.Base.Word.{u32, u64}
use mhi_for_quectel_modem.Regs.{Log, alloc_coherent, free_coherent, kmalloc, kfree}
use mhi_for_quectel_modem.Ctrl.{Code, ok, err, enomem}
use mhi_for_quectel_modem.Channel.{Memory}

-- `struct bhi_vec_entry`.
pub record VecEntry : Type 0 where
  pub dma_addr : ℕ
  pub size : ℕ

-- `struct mhi_buf`, with the bytes that `buf` points to.
pub record MhiBuf : Type 0 where
  pub buf : ℕ
  pub dma_addr : ℕ
  pub len : ℕ
  pub bytes : List ℕ

-- `struct image_info` at the address `at`. `array` is the address of the array `mhi_buf`, and
-- `bhi_vec` has the entries of the last segment.
pub record ImageInfo : Type 0 where
  pub at : ℕ
  pub array : ℕ
  pub mhi_buf : List MhiBuf
  pub bhi_vec : List VecEntry
  pub entries : ℕ

-- Memory from `dma_alloc_coherent`: its two addresses, and what it holds at first, read as bytes and
-- as entries of a vector table.
pub record Region : Type 0 where
  pub buf : ℕ
  pub dma_addr : ℕ
  pub bytes : List ℕ
  pub vec : List VecEntry

-- `dma_alloc_coherent` of the kernel, for a length.
abbrev pub Coherent : Type 0
Coherent = Log → ℕ → Option Region

-- `mhi_free_bhie_table`: the segments, first to last, then the array and the image.
unfoldable pub free_segments : Log → List MhiBuf → Log
free_segments log [] = log
free_segments log (m ∷ ms) = free_segments (free_coherent m.buf m.len m.dma_addr ∷ log) ms

unfoldable pub free_bhie_table : Log → ImageInfo → Log
unfolding free_segments
free_bhie_table log image = kfree image.at ∷ kfree image.array ∷ free_segments log image.mhi_buf

-- DIV_ROUND_UP, on `size_t`.
abbrev pub div_round_up : ℕ → ℕ → ℕ
div_round_up n d = u64 (n + d - 1) / d

-- `sizeof(struct bhi_vec_entry)`, `sizeof(struct mhi_buf)` and `sizeof(struct image_info)`.
abbrev pub vec_entry_size : ℕ
vec_entry_size = 16

abbrev pub mhi_buf_size : ℕ
mhi_buf_size = 32

abbrev pub image_info_size : ℕ
image_info_size = 24

-- The rounds of `for (i = 0; i < segments; i++)`, with `int segments`.
abbrev pub as_rounds : ℕ → ℕ
as_rounds segments = if ltb segments (2 ^ 31) then segments else 0

-- The length of segment `i`, if `left` segments come after it.
abbrev pub vec_size : ℕ → ℕ → ℕ → ℕ
vec_size seg_size zero i = vec_entry_size * i
vec_size seg_size (suc left) i = seg_size

-- How the loop over the segments ended: with all of them and the vector table, or without memory for
-- one, after those that are listed, the latest first.
pub data Segments : Type 0 where
  all : List MhiBuf → List VecEntry → Segments
  failed : List MhiBuf → Segments

-- A segment in front of those that come after it. If one of these failed, it is freed after them.
abbrev pub after : MhiBuf → List VecEntry → ℕ → Segments → Segments
after m vec zero _ = all (m ∷ []) vec
after m vec (suc left) (all ms vec') = all (m ∷ ms) vec'
after m vec (suc left) (failed ms) = failed (ms ++ (m ∷ []))

abbrev pub segment_of : Region → ℕ → MhiBuf
segment_of r size = record { buf = r.buf; dma_addr = r.dma_addr; len = size; bytes = r.bytes }

-- The loop that allocates the segments, from number `i` on, `left` of them.
unfoldable pub alloc_segments : Coherent → Log → ℕ → ℕ → ℕ → Log × Segments
alloc_segments mem log seg_size zero i = (log, all [] [])
alloc_segments mem log seg_size (suc left) i =
    let size = vec_size seg_size left i in
    elim (mem log size) [
      | none ↦ (log, failed [])
      | some r ↦
          let (log', rest) =
            alloc_segments mem (alloc_coherent r.buf size r.dma_addr ∷ log) seg_size left (i + 1) in
          (log', after (segment_of r size) r.vec left rest)
    ]

-- `mhi_alloc_bhie_table`. The array of the segments is not freed if a segment fails.
unfoldable pub alloc_bhie_table : Coherent → Memory → Log → ℕ → ℕ → Log × Code × Option ImageInfo
unfolding alloc_segments free_segments
alloc_bhie_table mem kernel log seg_size alloc_size =
    let segments = u32 (div_round_up alloc_size seg_size + 1) in
    elim (kernel log image_info_size) [
      | none ↦ (log, err enomem, none)
      | some at ↦
          let log₁ = kmalloc at ∷ log in
          elim (kernel log₁ (segments * mhi_buf_size)) [
            | none ↦ (kfree at ∷ log₁, err enomem, none)
            | some array ↦
                let (log₂, result) =
                  alloc_segments mem (kmalloc array ∷ log₁) seg_size (as_rounds segments) 0 in
                elim result [
                  | failed ms ↦ (kfree at ∷ free_segments log₂ ms, err enomem, none)
                  | all ms vec ↦ (
                    log₂,
                    ok,
                    some (record {
                      at = at;
                      array = array;
                      mhi_buf = ms;
                      bhi_vec = vec;
                      entries = segments;
                    }),
                  )
                ]
          ]
    ]

-- `memcpy(mhi_buf->buf, buf, n)`, and the entry that tells the device of it.
abbrev pub copied : List ℕ → ℕ → MhiBuf → MhiBuf
copied rest n m = record m { bytes = take n rest ++ drop n m.bytes }

-- The loop of `mhi_firmware_copy`, with what is left of the firmware. `none` is a write past the end
-- of the table.
unfoldable pub copy_from :
    List ℕ → List MhiBuf → List VecEntry → Option (List MhiBuf × List VecEntry)
copy_from [] ms vec = some (ms, vec)
copy_from (b ∷ rest) [] vec = none
copy_from (b ∷ rest) (m ∷ ms) [] = none
copy_from (b ∷ rest) (m ∷ ms) (v ∷ vec) =
    let to_cpy = min (length (b ∷ rest)) m.len in
    elim (copy_from (drop to_cpy (b ∷ rest)) ms vec) [
      | none ↦ none
      | some (ms', vec') ↦
          some (
            copied (b ∷ rest) to_cpy m ∷ ms',
            record { dma_addr = m.dma_addr; size = to_cpy } ∷ vec',
          )
    ]

-- `mhi_firmware_copy`
unfoldable pub firmware_copy : List ℕ → ImageInfo → Option ImageInfo
unfolding copy_from
firmware_copy firmware image = elim (copy_from firmware image.mhi_buf image.bhi_vec) [
  | none ↦ none
  | some (ms, vec) ↦ some (record image { mhi_buf = ms; bhi_vec = vec })
]
