-- ===== src/Boot/Copy.antt =====
-- An image that `mhi_firmware_copy` of drivers/bus/mhi/core/boot.c puts into a table of
-- `mhi_alloc_bhie_table` is what the device reads through the table.
use mhi_for_quectel_modem.Base.{
  ℕ, zero, suc, ◌+◌, ◌*◌, ◌/◌, ◌≤◌, ◌<◌, min, ◌&&◌, Option, none, some, List, [], ◌∷◌, ◌++◌, length,
  take, drop, take_append, take-append-drop, length-take, length-drop, leb, ◌==◌, if◌then◌else◌,
  Option-cases, ◌≡◌, inl, inr, refl, sym, ap, ◌∙◌, arith,
}
use mathlib.Core.Path.{subst}
use mhi_for_quectel_modem.Regs.{Log, alloc_coherent}
use mhi_for_quectel_modem.Boot.{
  MhiBuf, VecEntry, Region, Coherent, Segments, all, failed, after, segment_of, copied, vec_size,
  alloc_segments, copy_from,
}
use mhi_for_quectel_modem.Boot.Held.{among}
use mhi_for_quectel_modem.Boot.Table.{alloc_segments-none, alloc_segments-some}

-- What a device reads that follows the table: of each segment as many bytes as its entry says. An
-- entry with another address than the segment's, or with more bytes, is an error.
abbrev pub device_reads : List MhiBuf → List VecEntry → Option (List ℕ)
device_reads ms [] = some []
device_reads [] (v ∷ vec) = none
device_reads (m ∷ ms) (v ∷ vec) = elim (device_reads ms vec) [
  | none ↦ none
  | some rest ↦
      if (v.dma_addr == m.dma_addr) && leb v.size m.len
      then some (take v.size m.bytes ++ rest)
      else none
]

-- What `dma_alloc_coherent` documents: memory of the length asked for.
abbrev pub IsCoherent : Coherent → Type 0
IsCoherent mem =
    (log : Log) (len : ℕ) (r : Region)
    → mem log len ≡ some r
    → (length r.bytes ≡ len) × (length r.vec ≡ len / 16)

-- `n` segments of the length `seg`, and one more.
abbrev pub Fits : ℕ → ℕ → List MhiBuf → Type 0
Fits seg n [] = ⊥
Fits seg zero (m ∷ ms) = ms ≡ []
Fits seg (suc n) (m ∷ ms) = (m.len ≡ seg) × (length m.bytes ≡ seg) × Fits seg n ms

abbrev pub Good : ℕ → ℕ → ℕ → Segments → Type 0
Good seg left i (failed ms) = Unit {0}
Good seg left i (all ms vec) = Fits seg left ms × (length vec ≡ left + i)

after-Good :
    (seg left i : ℕ) (m : MhiBuf) (vec : List VecEntry) (rest : Segments)
    → m.len ≡ seg
    → length m.bytes ≡ seg
    → Good seg left (i + 1) rest
    → Good seg (suc left) i (after m vec (suc left) rest)
after-Good seg left i m vec (failed ms) l b g = tt
after-Good seg left i m vec (all ms vec') l b g = ((l, b, g.0), omega (arith, g.1))

module _ (mem : Coherent) (law : IsCoherent mem) where
  pub alloc_segments-Good :
      (log : Log) (seg left i : ℕ) → Good seg left i (alloc_segments mem log seg (suc left) i).1
  alloc_segments-Good log seg zero i = elim (Option-cases (mem log (vec_size seg zero i))) [
    | inl e ↦ rw (alloc_segments-none mem log seg zero i e) tt
    | inr (r, e) ↦
        rw (alloc_segments-some mem log seg zero i r e)
          (refl, omega (arith, (law log (16 * i) r e).1))
  ]
  alloc_segments-Good log seg (suc left) i =
      elim (Option-cases (mem log (vec_size seg (suc left) i))) [
        | inl e ↦ rw (alloc_segments-none mem log seg (suc left) i e) tt
        | inr (r, e) ↦
            let log' = alloc_coherent r.buf seg r.dma_addr ∷ log in
            rw (alloc_segments-some mem log seg (suc left) i r e) (
              after-Good seg left i (segment_of r seg) r.vec
                (alloc_segments mem log' seg (suc left) (i + 1)).1 refl (law log seg r e).0
                (alloc_segments-Good log' seg left (i + 1)))
      ]

-- The copied bytes, and only these, are read back.
take-copied :
    (rest bytes : List ℕ) (n : ℕ)
    → n ≤ length rest
    → take n (take n rest ++ drop n bytes) ≡ take n rest
take-copied rest bytes n h =
    ap (λ k. take k (take n rest ++ drop n bytes)) (sym (length-take n rest h))
    ∙ take_append (take n rest) (drop n bytes)

-- What copying into a table that fits leaves.
abbrev pub Copied : List ℕ → ℕ → Option (List MhiBuf × List VecEntry) → Type 0
Copied firmware n none = ⊥
Copied firmware n (some (ms, vec)) = (device_reads ms vec ≡ some firmware) × (length vec ≡ n)

copy_from-some :
    (b : ℕ) (r : List ℕ) (m : MhiBuf) (ms : List MhiBuf) (v : VecEntry) (vec : List VecEntry)
    (ms' : List MhiBuf) (vec' : List VecEntry)
    → let n = min (length (b ∷ r)) m.len in
      copy_from (drop n (b ∷ r)) ms vec ≡ some (ms', vec')
      → copy_from (b ∷ r) (m ∷ ms) (v ∷ vec)
        ≡ some (copied (b ∷ r) n m ∷ ms', record { dma_addr = m.dma_addr; size = n } ∷ vec')
unfolding copy_from
copy_from-some b r m ms v vec ms' vec' e = ground (arith, e)

copy_from-none :
    (b : ℕ) (r : List ℕ) (m : MhiBuf) (ms : List MhiBuf) (v : VecEntry) (vec : List VecEntry)
    → copy_from (drop (min (length (b ∷ r)) m.len) (b ∷ r)) ms vec ≡ none
    → copy_from (b ∷ r) (m ∷ ms) (v ∷ vec) ≡ none
unfolding copy_from
copy_from-none b r m ms v vec e = ground (arith, e)

-- The device reads the bytes that were copied, and then those of the other segments.
reads-copied :
    (rest : List ℕ) (m : MhiBuf) (ms : List MhiBuf) (vec : List VecEntry) (others : List ℕ)
    → let n = min (length rest) m.len in
      device_reads ms vec ≡ some others
      → device_reads (copied rest n m ∷ ms) (record { dma_addr = m.dma_addr; size = n } ∷ vec)
        ≡ some (take n rest ++ others)
reads-copied rest m ms vec others e =
    let n = min (length rest) m.len in ground (arith, e, take-copied rest m.bytes n (omega arith))

copy-step :
    (b : ℕ) (r : List ℕ) (m : MhiBuf) (ms : List MhiBuf) (v : VecEntry) (vec : List VecEntry)
    → let n = min (length (b ∷ r)) m.len in
      Copied (drop n (b ∷ r)) (length vec) (copy_from (drop n (b ∷ r)) ms vec)
      → Copied (b ∷ r) (suc (length vec)) (copy_from (b ∷ r) (m ∷ ms) (v ∷ vec))
copy-step b r m ms v vec h =
    let n = min (length (b ∷ r)) m.len in
    elim (Option-cases (copy_from (drop n (b ∷ r)) ms vec)) [
      | inl e ↦ absurd (subst (Copied (drop n (b ∷ r)) (length vec)) e h)
      | inr ((ms', vec'), e) ↦
          let (reads, same) = subst (Copied (drop n (b ∷ r)) (length vec)) e h in
          rw (copy_from-some b r m ms v vec ms' vec' e) (
            reads-copied (b ∷ r) m ms' vec' (drop n (b ∷ r)) reads
                ∙ ap some (take-append-drop n (b ∷ r)),
            ap suc same,
          )
    ]

copy-empty : (ms : List MhiBuf) → Copied [] 0 (copy_from [] ms [])
unfolding copy_from
copy-empty ms = (refl, refl)

pub copy-Copied :
    (seg n : ℕ) (rest : List ℕ) (ms : List MhiBuf) (vec : List VecEntry)
    → 0 < seg
    → Fits seg n ms
    → length vec ≡ n
    → length rest ≤ n * seg
    → n * seg < length rest + seg
    → Copied rest (length vec) (copy_from rest ms vec)
copy-Copied seg zero [] ms [] pos fits same le lt = copy-empty ms
copy-Copied seg zero [] ms (v ∷ vec) pos fits same le lt = absurd (omega arith)
copy-Copied seg zero (b ∷ rest) ms vec pos fits same le lt = absurd (grind arith)
copy-Copied seg (suc n) [] ms vec pos fits same le lt = absurd (grind arith)
copy-Copied seg (suc n) (b ∷ rest) ms [] pos fits same le lt = absurd (omega arith)
copy-Copied seg (suc n) (b ∷ rest) [] vec pos fits same le lt = absurd fits
copy-Copied seg (suc n) (b ∷ rest) (m ∷ ms) (v ∷ vec) pos (len, bytes, fits) same le lt =
    let k = min (length (b ∷ rest)) m.len in
    let left = length-drop k (b ∷ rest) in
    copy-step b rest m ms v vec (
      copy-Copied seg n (drop k (b ∷ rest)) ms vec pos fits (omega arith) (grind (arith, left))
        (grind (arith, left)))

-- Copying leaves the segments where they are.
abbrev pub Kept : List MhiBuf → Option (List MhiBuf × List VecEntry) → Type 0
Kept ms none = Unit {0}
Kept ms (some (ms', vec)) =
    (length ms' ≡ length ms) × ((buf len dma : ℕ) → among buf len dma ms' ≡ among buf len dma ms)

pub copy_from-Kept :
    (rest : List ℕ) (ms : List MhiBuf) (vec : List VecEntry) → Kept ms (copy_from rest ms vec)
unfolding copy_from
copy_from-Kept [] ms vec = (refl, λ buf len dma. refl)
copy_from-Kept (b ∷ r) [] vec = tt
copy_from-Kept (b ∷ r) (m ∷ ms) [] = tt
copy_from-Kept (b ∷ r) (m ∷ ms) (v ∷ vec) =
    let n = min (length (b ∷ r)) m.len in
    elim (Option-cases (copy_from (drop n (b ∷ r)) ms vec)) [
      | inl e ↦ rw (copy_from-none b r m ms v vec e) tt
      | inr ((ms', vec'), e) ↦
          let (same, addresses) = subst (Kept ms) e (copy_from-Kept (drop n (b ∷ r)) ms vec) in
          rw (copy_from-some b r m ms v vec ms' vec' e)
            (ap suc same, λ buf len dma. omega (arith, addresses buf len dma))
    ]
