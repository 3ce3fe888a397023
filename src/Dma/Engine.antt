-- ===== src/Dma/Engine.antt =====
-- Setting up and taking down the DMA engine: tlkm_dma_init and tlkm_dma_exit of
-- runtime/kernel/dma/tlkm_dma.c. What the engine's functions and ioremap return is an argument; what
-- is held is the mapping of the registers and the buffers, each a number; the memory that a failing
-- allocation of a buffer keeps is listed apart.
pub mod Lifetime
mod Tests
use tapasco.Base.{
  ℕ, zero, suc, ◌+◌, ◌*◌, Bool, true, false, List, [], ◌∷◌, Option, none, some, if◌then◌else◌, Ret,
  ok, err, enodev,
}
use tapasco.Base.Stages.{Held, acquire, release}
use tapasco.Dma.{chunks}

abbrev pub regs : ℕ
regs = 0

abbrev pub read_buf : ℕ → ℕ
read_buf i = 1 + 2 * i

abbrev pub write_buf : ℕ → ℕ
write_buf i = 2 + 2 * i

-- Whether the registers are mapped, and whether `regs` points to them.
pub record Engine : Type 0 where
  pub mapped : Bool
  pub held : Held
  pub lost : List ℕ

-- What `allocate_buffer` does: it gives the buffer; it fails with nothing held; it fails and keeps the
-- buffer's memory, as that of a PCIe device does when the mapping fails.
pub data Allocation : Type 0 where
  granted refused unmapped : Allocation

-- What the calls return: `ioremap`, the test of each kind of engine, and the allocations of buffers
-- for reads and writes.
pub record Outcomes : Type 0 where
  pub ioremap : Bool
  pub detects : List Bool
  pub reads : ℕ → Allocation
  pub writes : ℕ → Allocation

-- The loop over `tlkm_dma_ops`.
abbrev pub detect : List Bool → Bool
detect [] = false
detect (d ∷ ds) = let later = detect ds in if d then true else later

-- The loop that allocates, from the buffer `i` on: the buffer that failed, or the number of buffers.
abbrev pub alloc_from : (ℕ → Allocation) → (ℕ → ℕ) → ℕ → ℕ → Held → Bool × ℕ × Held
alloc_from o name zero i h = (true, i, h)
alloc_from o name (suc n) i h =
    let rest = alloc_from o name n (suc i) (acquire (name i) h) in
    elim (o i) [ granted ↦ rest | refused ↦ (false, i, h) | unmapped ↦ (false, i, h) ]

-- What a failing allocation keeps of a buffer.
abbrev pub kept_by : Allocation → ℕ → List ℕ
kept_by granted b = []
kept_by refused b = []
kept_by unmapped b = b ∷ []

-- The loop that frees the buffers before `i`, the last one first.
abbrev pub free_down : (ℕ → ℕ) → ℕ → Held → Held
free_down name zero h = h
free_down name (suc i) h = free_down name i (release (name i) h)

abbrev pub err_unknown_dma : List ℕ → Held → Ret × Engine
err_unknown_dma lost h = (err enodev, record { mapped = false; held = release regs h; lost = lost })

abbrev pub err_dma_bufs_read : List ℕ → ℕ → Held → Ret × Engine
err_dma_bufs_read lost i h = err_unknown_dma lost (free_down read_buf i h)

abbrev pub err_dma_bufs_write : List ℕ → ℕ → Held → Ret × Engine
err_dma_bufs_write lost i h = err_dma_bufs_read lost chunks (free_down write_buf i h)

abbrev pub writes_allocated : Outcomes → Bool × ℕ × Held → Ret × Engine
writes_allocated o (true, i, h) = (ok, record { mapped = true; held = h; lost = [] })
writes_allocated o (false, i, h) = err_dma_bufs_write (kept_by (o.writes i) (write_buf i)) i h

abbrev pub reads_allocated : Outcomes → Bool × ℕ × Held → Ret × Engine
reads_allocated o (true, i, h) = writes_allocated o (alloc_from o.writes write_buf chunks 0 h)
reads_allocated o (false, i, h) = err_dma_bufs_read (kept_by (o.reads i) (read_buf i)) i h

abbrev pub detected : Outcomes → Held → Bool → Ret × Engine
detected o h true = reads_allocated o (alloc_from o.reads read_buf chunks 0 h)
detected o h false = err_unknown_dma [] h

abbrev pub regs_remapped : Outcomes → Held → Bool → Ret × Engine
regs_remapped o h true = detected o (acquire regs h) (detect o.detects)
regs_remapped o h false = (err enodev, record { mapped = false; held = h; lost = [] })

pub tlkm_dma_init : Outcomes → Held → Ret × Engine
tlkm_dma_init o h = regs_remapped o h o.ioremap

-- The loop of the exit, `n` rounds from `i`.
abbrev pub free_pairs : ℕ → ℕ → Held → Held
free_pairs zero i h = h
free_pairs (suc n) i h = free_pairs n (suc i) (release (read_buf i) (release (write_buf i) h))

pub tlkm_dma_exit : Engine → Engine
tlkm_dma_exit e =
    if e.mapped
    then record e { mapped = false; held = release regs (free_pairs chunks 0 e.held) }
    else e
