-- ===== src/Svm/Memory/Invariant.antt =====
-- The free list of runtime/kernel/pcie/pcie_svm.c as a canonical form: blocks in ascending order,
-- none empty, none touching the next, all below 2^64.
use tapasco.Base.{ℕ, suc, ◌+◌, ◌^◌, ◌≤◌, ◌<◌, ◌⊎◌, Bool, List, [], ◌∷◌, arith}
use tapasco.Svm.Memory.{
  Block, cut, allocate_device_memory, create_mem_block_entry, free_after, free_device_memory,
}

-- Every block starts at `lo` or above, ends below 2^64 and leaves a gap to the next one.
abbrev pub Ordered : ℕ → List Block → Type 0
Ordered lo [] = Unit {0}
Ordered lo (b ∷ bs) =
    (lo ≤ b.base_addr)
    × (0 < b.size)
    × (b.base_addr + b.size < 2 ^ 64)
    × Ordered (suc (b.base_addr + b.size)) bs

abbrev pub IsValid : List Block → Type 0
IsValid bs = Ordered 0 bs

-- The region `[addr, addr + n)` meets no free block.
abbrev pub Apart : ℕ → ℕ → List Block → Type 0
Apart addr n [] = Unit {0}
Apart addr n (b ∷ bs) = ((addr + n ≤ b.base_addr) ⊎ (b.base_addr + b.size ≤ addr)) × Apart addr n bs

pub Ordered-weaken : {lo lo' : ℕ} (bs : List Block) → lo' ≤ lo → Ordered lo bs → Ordered lo' bs
Ordered-weaken [] h o = tt
Ordered-weaken (b ∷ bs) h (p, q, r, s) = (omega arith, q, r, s)

allocate-Ordered :
    (lo n : ℕ) (bs : List Block) → Ordered lo bs → Ordered lo (allocate_device_memory bs n).1
unfolding allocate_device_memory cut
allocate-Ordered lo n [] o = tt
allocate-Ordered lo n (b ∷ bs) (p, q, r, s) = ground (
  arith,
  allocate-Ordered (suc (b.base_addr + b.size)) n bs s,
  Ordered-weaken {lo' = lo} bs (omega arith) s,
)

-- Allocating keeps the free list in its canonical form.
pub allocate-IsValid :
    (n : ℕ) (bs : List Block) → IsValid bs → IsValid (allocate_device_memory bs n).1
allocate-IsValid n bs v = allocate-Ordered 0 n bs v

free_after-Ordered :
    (granted : Bool) (lo addr n : ℕ) (p : Block) (bs : List Block)
    → 0 < n
    → addr + n < 2 ^ 64
    → Ordered lo (p ∷ bs)
    → Apart addr n (p ∷ bs)
    → p.base_addr ≤ addr
    → Ordered lo (free_after granted addr n p bs)
unfolding free_after create_mem_block_entry
free_after-Ordered granted lo addr n p [] hn hw o a h = ground arith
free_after-Ordered granted lo addr n p (b ∷ bs) hn hw o a h =
    ground (arith, free_after-Ordered granted (suc (p.base_addr + p.size)) addr n b bs)

-- Freeing a nonempty region below 2^64 that meets no free block keeps the list in canonical form
-- (ascending, no empty and no touching blocks), whether or not there is memory for a new entry.
pub free-IsValid :
    (granted : Bool) (addr n : ℕ) (bs : List Block)
    → 0 < n
    → addr + n < 2 ^ 64
    → IsValid bs
    → Apart addr n bs
    → IsValid (free_device_memory granted bs addr n)
unfolding free_device_memory create_mem_block_entry
free-IsValid granted addr n [] hn hw v a = ground arith
free-IsValid granted addr n (b ∷ bs) hn hw v a =
    ground (arith, free_after-Ordered granted 0 addr n b bs)
