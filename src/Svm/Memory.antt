-- ===== src/Svm/Memory.antt =====
-- The allocator of device memory in runtime/kernel/pcie/pcie_svm.c: a list of free blocks, sorted
-- by address, under `mem_block_mutex`. `kmalloc` of a list entry is the argument `granted`.
pub mod Invariant
pub mod Cover
pub mod Canonical
pub mod RoundTrip
pub mod Clients
mod Tests
use tapasco.Base.{ℕ, ◌-◌, ◌^◌, Bool, List, [], ◌∷◌, ltb, leb, ◌==◌, if◌then◌else◌, add64}

pub record Block : Type 0 where
  pub base_addr : ℕ
  pub size : ℕ

-- `(uint64_t)-1`, what `allocate_device_memory` returns when no block is large enough.
abbrev pub no_addr : ℕ
no_addr = 2 ^ 64 - 1

-- The block that serves a request: it shrinks from below, and goes when nothing is left of it.
pub cut : Block → ℕ → List Block → List Block
cut b n bs =
    if b.size - n == 0
    then bs
    else record b { base_addr = add64 b.base_addr n; size = b.size - n } ∷ bs

-- First fit.
pub allocate_device_memory : List Block → ℕ → ℕ × List Block
allocate_device_memory [] n = (no_addr, [])
allocate_device_memory (b ∷ bs) n =
    let (addr, rest) = allocate_device_memory bs n in
    if leb n b.size then (b.base_addr, cut b n bs) else (addr, b ∷ rest)

abbrev pub block_end : Block → ℕ
block_end b = add64 b.base_addr b.size

-- `create_mem_block_entry`, and the insertion in front of `bs` if there was memory for the entry.
pub create_mem_block_entry : Bool → ℕ → ℕ → List Block → List Block
create_mem_block_entry granted addr n bs =
    if granted then record { base_addr = addr; size = n } ∷ bs else bs

-- The region lies below `b`, and no block in front of `b` ends where it starts.
pub free_before : Bool → ℕ → ℕ → Block → List Block → List Block
unfolding create_mem_block_entry
free_before granted addr n b bs =
    if add64 addr n == b.base_addr
    then record b { base_addr = addr; size = add64 b.size n } ∷ bs
    else create_mem_block_entry granted addr n (b ∷ bs)

-- The region lies between `p` and `b`.
pub free_between : Bool → ℕ → ℕ → Block → Block → List Block → List Block
unfolding free_before
free_between granted addr n p b bs =
    if block_end p == addr
    then (if add64 addr n == b.base_addr
        then record p { size = add64 p.size (add64 n b.size) } ∷ bs
        else record p { size = add64 p.size n } ∷ b ∷ bs)
    else p ∷ free_before granted addr n b bs

-- The region lies behind the last block.
pub free_last : Bool → ℕ → ℕ → Block → List Block
unfolding create_mem_block_entry
free_last granted addr n p =
    if block_end p == addr
    then record p { size = add64 p.size n } ∷ []
    else p ∷ create_mem_block_entry granted addr n []

-- The loop, at a block `p` that does not lie above the region.
pub free_after : Bool → ℕ → ℕ → Block → List Block → List Block
unfolding free_between free_last
free_after granted addr n p [] = free_last granted addr n p
free_after granted addr n p (b ∷ bs) =
    let behind = p ∷ free_after granted addr n b bs in
    if ltb addr b.base_addr then free_between granted addr n p b bs else behind

pub free_device_memory : Bool → List Block → ℕ → ℕ → List Block
unfolding create_mem_block_entry free_before free_after
free_device_memory granted [] addr n = create_mem_block_entry granted addr n []
free_device_memory granted (b ∷ bs) addr n =
    if ltb addr b.base_addr then free_before granted addr n b bs else free_after granted addr n b bs
