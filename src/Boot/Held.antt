-- ===== src/Boot/Held.antt =====
-- How much coherent memory a log leaves allocated (drivers/bus/mhi/core/boot.c,
-- drivers/bus/mhi/core/internal.h: mhi_alloc_coherent and mhi_free_coherent).
use mhi_for_quectel_modem.Base.{
  ℕ, suc, ◌+◌, ◌&&◌, List, [], ◌∷◌, ◌++◌, ◌==◌, if◌then◌else◌, ◌≡◌, arith,
}
use mhi_for_quectel_modem.Regs.{Log, alloc_coherent, free_coherent, get_firmware, release_firmware}
use mhi_for_quectel_modem.Boot.{MhiBuf, free_segments}

-- 1 for the memory asked for, else 0.
abbrev pub hit : ℕ → ℕ → ℕ → ℕ → ℕ → ℕ → ℕ
hit buf len dma b l d = if (b == buf) && (l == len) && (d == dma) then 1 else 0

-- How often memory of these addresses and this length was allocated, and how often it was freed.
abbrev pub allocs : ℕ → ℕ → ℕ → Log → ℕ
allocs buf len dma [] = 0
allocs buf len dma (alloc_coherent b l d ∷ log) = hit buf len dma b l d + allocs buf len dma log
allocs buf len dma (_ ∷ log) = allocs buf len dma log

abbrev pub frees : ℕ → ℕ → ℕ → Log → ℕ
frees buf len dma [] = 0
frees buf len dma (free_coherent b l d ∷ log) = hit buf len dma b l d + frees buf len dma log
frees buf len dma (_ ∷ log) = frees buf len dma log

-- How often it stands in a list of segments.
abbrev pub among : ℕ → ℕ → ℕ → List MhiBuf → ℕ
among buf len dma [] = 0
among buf len dma (m ∷ ms) = hit buf len dma m.buf m.len m.dma_addr + among buf len dma ms

-- Between the logs, exactly these segments were allocated and not freed.
abbrev pub Gains : List MhiBuf → Log → Log → Type 0
Gains ms log log' =
    (buf len dma : ℕ)
    → allocs buf len dma log' + frees buf len dma log
      ≡ allocs buf len dma log + frees buf len dma log' + among buf len dma ms

pub among-append :
    (buf len dma : ℕ) (ms ns : List MhiBuf)
    → among buf len dma (ms ++ ns) ≡ among buf len dma ms + among buf len dma ns
among-append buf len dma [] ns = omega arith
among-append buf len dma (m ∷ ms) ns = omega (arith, among-append buf len dma ms ns)

pub allocs-free_segments :
    (buf len dma : ℕ) (log : Log) (ms : List MhiBuf)
    → allocs buf len dma (free_segments log ms) ≡ allocs buf len dma log
unfolding free_segments
allocs-free_segments buf len dma log [] = omega arith
allocs-free_segments buf len dma log (m ∷ ms) =
    allocs-free_segments buf len dma (free_coherent m.buf m.len m.dma_addr ∷ log) ms

pub frees-free_segments :
    (buf len dma : ℕ) (log : Log) (ms : List MhiBuf)
    → frees buf len dma (free_segments log ms) ≡ frees buf len dma log + among buf len dma ms
unfolding free_segments
frees-free_segments buf len dma log [] = omega arith
frees-free_segments buf len dma log (m ∷ ms) =
    omega (arith, frees-free_segments buf len dma (free_coherent m.buf m.len m.dma_addr ∷ log) ms)

-- How often firmware was taken, and how often it was released.
abbrev pub gets : Log → ℕ
gets [] = 0
gets (get_firmware ∷ log) = suc (gets log)
gets (_ ∷ log) = gets log

abbrev pub releases : Log → ℕ
releases [] = 0
releases (release_firmware ∷ log) = suc (releases log)
releases (_ ∷ log) = releases log
