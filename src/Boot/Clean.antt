-- ===== src/Boot/Clean.antt =====
-- The accounts of memory and firmware that the parts of `mhi_fw_load_handler` of
-- drivers/bus/mhi/core/boot.c keep.
use mathlib.Core.Path.{subst}
use mhi_for_quectel_modem.Base.{
  ℕ, zero, suc, ◌+◌, ◌*◌, Bool, true, false, not, if◌then◌else◌, Option, none, some, List, [], ◌∷◌,
  Option-cases, ◌≡◌, inl, inr, refl, sym, ap, ◌∙◌, arith,
}
use mhi_for_quectel_modem.Regs.{
  Log, alloc_coherent, free_coherent, get_firmware, release_firmware, kmalloc,
}
use mhi_for_quectel_modem.Ctrl.{Ctrl, act}
use mhi_for_quectel_modem.Base.Word.{u32}
use mhi_for_quectel_modem.Channel.{Memory}
use mhi_for_quectel_modem.Boot.{
  MhiBuf, ImageInfo, Coherent, alloc_segments, vec_size, image_info_size, mhi_buf_size,
  div_round_up, as_rounds, alloc_bhie_table, free_bhie_table, free_segments,
}
use mhi_for_quectel_modem.Boot.Held.{
  allocs, frees, among, gets, releases, hit, allocs-free_segments, frees-free_segments,
}
use mhi_for_quectel_modem.Boot.Table.{held_by, Segments-cases}
use mhi_for_quectel_modem.Boot.Ledger.{ledger, IsQuiet}
use mhi_for_quectel_modem.Boot.Handler.{Loader, release, error_read}

allocs-ledger :
    (buf len dma : ℕ) (log : Log) → allocs buf len dma (ledger log) ≡ allocs buf len dma log
allocs-ledger buf len dma [] = refl
allocs-ledger buf len dma (alloc_coherent b l d ∷ log) =
    ap (λ n. hit buf len dma b l d + n) (allocs-ledger buf len dma log)
allocs-ledger buf len dma (_ ∷ log) = allocs-ledger buf len dma log

frees-ledger :
    (buf len dma : ℕ) (log : Log) → frees buf len dma (ledger log) ≡ frees buf len dma log
frees-ledger buf len dma [] = refl
frees-ledger buf len dma (free_coherent b l d ∷ log) =
    ap (λ n. hit buf len dma b l d + n) (frees-ledger buf len dma log)
frees-ledger buf len dma (_ ∷ log) = frees-ledger buf len dma log

gets-ledger : (log : Log) → gets (ledger log) ≡ gets log
gets-ledger [] = refl
gets-ledger (get_firmware ∷ log) = ap suc (gets-ledger log)
gets-ledger (_ ∷ log) = gets-ledger log

releases-ledger : (log : Log) → releases (ledger log) ≡ releases log
releases-ledger [] = refl
releases-ledger (release_firmware ∷ log) = ap suc (releases-ledger log)
releases-ledger (_ ∷ log) = releases-ledger log

-- Logs with the same ledger have the same counts.
pub same_memory :
    (log log' : Log)
    → ledger log' ≡ ledger log
    → (buf len dma : ℕ)
    → (allocs buf len dma log' ≡ allocs buf len dma log)
      × (frees buf len dma log' ≡ frees buf len dma log)
same_memory log log' e buf len dma = (
  omega (
    arith,
    allocs-ledger buf len dma log,
    allocs-ledger buf len dma log',
    ap (allocs buf len dma) e,
  ),
  omega (
    arith,
    frees-ledger buf len dma log,
    frees-ledger buf len dma log',
    ap (frees buf len dma) e,
  ),
)

pub same_firmware :
    (log log' : Log)
    → ledger log' ≡ ledger log
    → (gets log' ≡ gets log) × (releases log' ≡ releases log)
same_firmware log log' e = (
  omega (arith, gets-ledger log, gets-ledger log', ap gets e),
  omega (arith, releases-ledger log, releases-ledger log', ap releases e),
)

-- 1 for firmware that was taken and is to be released.
abbrev pub due : Bool → ℕ
due loaded = if loaded then 1 else 0

-- Between the two states, the coherent memory that was allocated and not freed is that of the image
-- that the controller holds after, less that of the one it held before; all firmware that was taken,
-- with what was due, was released, and none twice.
pub record IsClean (loaded : Bool) (l l' : Loader) : Type 0 where
  pub memory :
      (buf len dma : ℕ)
      → allocs buf len dma l'.ctrl.log
          + frees buf len dma l.ctrl.log
          + among buf len dma (held_by l.fbc_image)
        ≡ allocs buf len dma l.ctrl.log
          + frees buf len dma l'.ctrl.log
          + among buf len dma (held_by l'.fbc_image)
  pub firmware :
      gets l'.ctrl.log + releases l.ctrl.log + due loaded ≡ gets l.ctrl.log + releases l'.ctrl.log

-- The function returns, and leaves this behind.
abbrev pub Ends : Bool → Loader → Option Loader → Type 0
Ends loaded l none = ⊥
Ends loaded l (some l') = IsClean loaded l l'

-- Whatever is quiet may come first.
pub IsQuiet-Ends :
    (loaded : Bool) (l : Loader) (c : Ctrl) (o : Option Loader)
    → IsQuiet l.ctrl c
    → Ends loaded (record l { ctrl = c }) o
    → Ends loaded l o
IsQuiet-Ends loaded l c none q h = h
IsQuiet-Ends loaded l c (some l') q h = record {
  memory = λ buf len dma.
      omega (arith, h.memory buf len dma, same_memory l.ctrl.log c.log q.books buf len dma);
  firmware = omega (arith, h.firmware, same_firmware l.ctrl.log c.log q.books);
}

-- What the release does to the counts.
pub releases-release :
    (loaded : Bool) (l : Loader)
    → releases (release loaded l).ctrl.log ≡ releases l.ctrl.log + due loaded
releases-release true l = omega arith
releases-release false l = omega arith

pub gets-release : (loaded : Bool) (l : Loader) → gets (release loaded l).ctrl.log ≡ gets l.ctrl.log
gets-release true l = refl
gets-release false l = refl

pub memory-release :
    (loaded : Bool) (l : Loader) (buf len dma : ℕ)
    → (allocs buf len dma (release loaded l).ctrl.log ≡ allocs buf len dma l.ctrl.log)
      × (frees buf len dma (release loaded l).ctrl.log ≡ frees buf len dma l.ctrl.log)
      × (among buf len dma (held_by (release loaded l).fbc_image)
          ≡ among buf len dma (held_by l.fbc_image))
memory-release true l buf len dma = (refl, refl, refl)
memory-release false l buf len dma = (refl, refl, refl)

pub release-IsClean : (loaded : Bool) (l : Loader) → IsClean loaded l (release loaded l)
release-IsClean loaded l = record {
  memory = λ buf len dma. omega (arith, memory-release loaded l buf len dma);
  firmware = omega (arith, gets-release loaded l, releases-release loaded l);
}

pub gets-free_segments : (log : Log) (ms : List MhiBuf) → gets (free_segments log ms) ≡ gets log
unfolding free_segments
gets-free_segments log [] = refl
gets-free_segments log (m ∷ ms) = gets-free_segments _ ms

pub releases-free_segments :
    (log : Log) (ms : List MhiBuf) → releases (free_segments log ms) ≡ releases log
unfolding free_segments
releases-free_segments log [] = refl
releases-free_segments log (m ∷ ms) = releases-free_segments _ ms

-- The image is given back.
abbrev freed : ImageInfo → Loader → Loader
freed image l = record l {
  ctrl = record (l.ctrl) { log = free_bhie_table l.ctrl.log image };
  fbc_image = none;
}

freed-IsClean :
    (loaded : Bool) (image : ImageInfo) (l : Loader)
    → l.fbc_image ≡ some image
    → IsClean loaded l (release loaded (freed image l))
unfolding free_bhie_table
freed-IsClean loaded image l e = record {
  memory = λ buf len dma. omega (
    arith,
    ap (λ o. among buf len dma (held_by o)) e,
    memory-release loaded (freed image l) buf len dma,
    allocs-free_segments buf len dma l.ctrl.log image.mhi_buf,
    frees-free_segments buf len dma l.ctrl.log image.mhi_buf,
  );
  firmware = omega (
    arith,
    gets-release loaded (freed image l),
    releases-release loaded (freed image l),
    gets-free_segments l.ctrl.log image.mhi_buf,
    releases-free_segments l.ctrl.log image.mhi_buf,
  );
}

error_read-some :
    (loaded : Bool) (image : ImageInfo) (l : Loader)
    → l.fbc_image ≡ some image
    → error_read loaded l ≡ some (release loaded (freed image l))
unfolding error_read
error_read-some loaded image l e = ground (arith, e)

pub error_read-Ends :
    (loaded : Bool) (image : ImageInfo) (l : Loader)
    → l.fbc_image ≡ some image
    → Ends loaded l (error_read loaded l)
error_read-Ends loaded image l e =
    subst (Ends loaded l) (sym (error_read-some loaded image l e)) (freed-IsClean loaded image l e)

-- Allocating a table takes no firmware and releases none.
alloc_segments-firmware :
    (mem : Coherent) (log : Log) (seg left i : ℕ)
    → let r = alloc_segments mem log seg left i in
      (gets r.0 ≡ gets log) × (releases r.0 ≡ releases log)
unfolding alloc_segments
alloc_segments-firmware mem log seg zero i = (refl, refl)
alloc_segments-firmware mem log seg (suc left) i =
    elim (Option-cases (mem log (vec_size seg left i))) [
      | inl e ↦ ground (arith, e)
      | inr (r, e) ↦
          let log' = alloc_coherent r.buf (vec_size seg left i) r.dma_addr ∷ log in
          ground (arith, e, alloc_segments-firmware mem log' seg left (i + 1))
    ]

pub alloc_bhie_table-firmware :
    (mem : Coherent) (kernel : Memory) (log : Log) (seg_size alloc_size : ℕ)
    → let r = alloc_bhie_table mem kernel log seg_size alloc_size in
      (gets r.0 ≡ gets log) × (releases r.0 ≡ releases log)
unfolding alloc_bhie_table
alloc_bhie_table-firmware mem kernel log seg_size alloc_size =
    elim (Option-cases (kernel log image_info_size)) [
      | inl e ↦ rw (e, alloc_bhie_table) (refl, refl)
      | inr (at, e) ↦
          let segments = u32 (div_round_up alloc_size seg_size + 1) in
          elim (Option-cases (kernel (kmalloc at ∷ log) (segments * mhi_buf_size))) [
            | inl e₁ ↦ rw (e, e₁, alloc_bhie_table) (refl, refl)
            | inr (array, e₁) ↦
                let log₁ : Log = kmalloc array ∷ kmalloc at ∷ log in
                let (got, released) =
                  alloc_segments-firmware mem log₁ seg_size (as_rounds segments) 0 in
                elim (Segments-cases (alloc_segments mem log₁ seg_size (as_rounds segments) 0).1) [
                  | inl (ms, e₂) ↦
                      rw (e, e₁, e₂, alloc_bhie_table)
                        (gets-free_segments _ ms ∙ got, releases-free_segments _ ms ∙ released)
                  | inr (ms, (vec, e₂)) ↦ rw (e, e₁, e₂, alloc_bhie_table) (got, released)
                ]
          ]
    ]

-- What owes nothing may come first.
pub IsClean-Ends :
    (loaded : Bool) (l l₁ : Loader) (o : Option Loader)
    → IsClean false l l₁
    → Ends loaded l₁ o
    → Ends loaded l o
IsClean-Ends loaded l l₁ none c h = h
IsClean-Ends loaded l l₁ (some l') c h = record {
  memory = λ buf len dma. omega (arith, c.memory buf len dma, h.memory buf len dma);
  firmware = omega (arith, c.firmware, h.firmware);
}

-- Firmware that is due may be released first, or is passed on.
pub release-Ends :
    (kept : Bool) (l : Loader) (o : Option Loader)
    → Ends kept (release (not kept) l) o
    → Ends true l o
release-Ends true l o h = h
release-Ends false l none h = h
release-Ends false l (some l') h = record {
  memory = h.memory;
  firmware = omega (arith, h.firmware);
}

-- Firmware that is taken is due.
pub get_firmware-Ends :
    (l : Loader) (o : Option Loader)
    → Ends true (record l { ctrl = act get_firmware l.ctrl }) o
    → Ends false l o
get_firmware-Ends l none h = h
get_firmware-Ends l (some l') h = record { memory = h.memory; firmware = omega (arith, h.firmware) }
