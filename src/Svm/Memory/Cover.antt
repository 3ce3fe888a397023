-- ===== src/Svm/Memory/Cover.antt =====
-- The free list of runtime/kernel/pcie/pcie_svm.c as the set of its free addresses: what a call of
-- the allocator does to that set, and that the set determines the list.
use tapasco.Base.{
  ℕ, suc, ◌+◌, ◌^◌, ◌≤◌, ◌<◌, ◌≡◌, refl, ◌≢◌, Bool, true, false, not, ◌&&◌, ◌||◌, List, [], ◌∷◌,
  arith, ltb, leb, Bool-cases, leb→le, leb-false, ◌∙◌, inl, inr,
}
use tapasco.Svm.Memory.{
  Block, no_addr, cut, allocate_device_memory, create_mem_block_entry, free_after,
  free_device_memory,
}
use tapasco.Svm.Memory.Invariant.{Ordered, IsValid, Apart}

-- Whether `x` lies in `[addr, addr + n)`.
abbrev pub in_region : ℕ → ℕ → ℕ → Bool
in_region addr n x = leb addr x && ltb x (addr + n)

abbrev pub is_free : List Block → ℕ → Bool
is_free [] x = false
is_free (b ∷ bs) x = in_region b.base_addr b.size x || is_free bs x

abbrev pub free_bytes : List Block → ℕ
free_bytes [] = 0
free_bytes (b ∷ bs) = b.size + free_bytes bs

pub not_free_below : (lo x : ℕ) (bs : List Block) → Ordered lo bs → x < lo → is_free bs x ≡ false
not_free_below lo x [] o h = refl
not_free_below lo x (b ∷ bs) (p, q, r, s) h =
    ground (arith, not_free_below (suc (b.base_addr + b.size)) x bs s)

free_after-is_free :
    (lo addr n x : ℕ) (p : Block) (bs : List Block)
    → 0 < n
    → addr + n < 2 ^ 64
    → Ordered lo (p ∷ bs)
    → Apart addr n (p ∷ bs)
    → p.base_addr ≤ addr
    → is_free (free_after true addr n p bs) x ≡ (is_free (p ∷ bs) x || in_region addr n x)
unfolding free_after create_mem_block_entry
free_after-is_free lo addr n x p [] hn hw o a h = ground arith
free_after-is_free lo addr n x p (b ∷ bs) hn hw o a h =
    ground (arith, free_after-is_free (suc (p.base_addr + p.size)) addr n x b bs)

-- Freeing a nonempty region below 2^64 that meets no free block of a canonical list, with memory
-- for an entry, makes exactly its addresses free beside those that were.
pub free-is_free :
    (addr n x : ℕ) (bs : List Block)
    → 0 < n
    → addr + n < 2 ^ 64
    → IsValid bs
    → Apart addr n bs
    → is_free (free_device_memory true bs addr n) x ≡ (is_free bs x || in_region addr n x)
unfolding free_device_memory
free-is_free addr n x [] hn hw o a = ground arith
free-is_free addr n x (b ∷ bs) hn hw o a = ground (arith, free_after-is_free 0 addr n x b bs)

free_after-le :
    (granted : Bool) (lo addr n x : ℕ) (p : Block) (bs : List Block)
    → 0 < n
    → addr + n < 2 ^ 64
    → Ordered lo (p ∷ bs)
    → Apart addr n (p ∷ bs)
    → p.base_addr ≤ addr
    → is_free (free_after granted addr n p bs) x ≡ true
    → (is_free (p ∷ bs) x || in_region addr n x) ≡ true
unfolding free_after create_mem_block_entry
free_after-le granted lo addr n x p [] hn hw o a h f = ground arith
free_after-le granted lo addr n x p (b ∷ bs) hn hw o a h f =
    ground (arith, free_after-le granted (suc (p.base_addr + p.size)) addr n x b bs)

-- Without memory for a new entry the call still frees nothing but the region.
pub free-le :
    (granted : Bool) (addr n x : ℕ) (bs : List Block)
    → 0 < n
    → addr + n < 2 ^ 64
    → IsValid bs
    → Apart addr n bs
    → is_free (free_device_memory granted bs addr n) x ≡ true
    → (is_free bs x || in_region addr n x) ≡ true
unfolding free_device_memory create_mem_block_entry
free-le granted addr n x [] hn hw o a f = ground arith
free-le granted addr n x (b ∷ bs) hn hw o a f =
    ground (arith, free_after-le granted 0 addr n x b bs)

free_bytes-free_after :
    (lo addr n : ℕ) (p : Block) (bs : List Block)
    → 0 < n
    → addr + n < 2 ^ 64
    → Ordered lo (p ∷ bs)
    → Apart addr n (p ∷ bs)
    → p.base_addr ≤ addr
    → free_bytes (free_after true addr n p bs) ≡ free_bytes (p ∷ bs) + n
unfolding free_after create_mem_block_entry
free_bytes-free_after lo addr n p [] hn hw o a h = ground arith
free_bytes-free_after lo addr n p (b ∷ bs) hn hw o a h =
    ground (arith, free_bytes-free_after (suc (p.base_addr + p.size)) addr n b bs)

pub free_bytes-free :
    (addr n : ℕ) (bs : List Block)
    → 0 < n
    → addr + n < 2 ^ 64
    → IsValid bs
    → Apart addr n bs
    → free_bytes (free_device_memory true bs addr n) ≡ free_bytes bs + n
unfolding free_device_memory create_mem_block_entry
free_bytes-free addr n [] hn hw o a = ground arith
free_bytes-free addr n (b ∷ bs) hn hw o a = ground (arith, free_bytes-free_after 0 addr n b bs)

allocate_hit :
    (n : ℕ) (b : Block) (bs : List Block)
    → leb n b.size ≡ true
    → allocate_device_memory (b ∷ bs) n ≡ (b.base_addr, cut b n bs)
unfolding allocate_device_memory
allocate_hit n b bs h = rw h

allocate_miss :
    (n : ℕ) (b : Block) (bs : List Block)
    → leb n b.size ≡ false
    → allocate_device_memory (b ∷ bs) n
      ≡ ((allocate_device_memory bs n).0, b ∷ (allocate_device_memory bs n).1)
unfolding allocate_device_memory
allocate_miss n b bs h = rw h

-- A region that is handed out starts at a block of the list, and ends inside that block.
pub allocate_bounds :
    (lo n : ℕ) (bs : List Block)
    → Ordered lo bs
    → (allocate_device_memory bs n).0 ≢ no_addr
    → let (addr, bs') = allocate_device_memory bs n in (lo ≤ addr) × (addr + n < 2 ^ 64)
unfolding allocate_device_memory
allocate_bounds lo n [] o h = absurd (h refl)
allocate_bounds lo n (b ∷ bs) (p, q, r, s) h = elim (Bool-cases (leb n b.size)) [
  | inl e ↦ rw (allocate_hit n b bs e) (omega (arith, leb→le n b.size e, p, r))
  | inr e ↦ rw (allocate_miss n b bs e) (
      omega (
        arith,
        allocate_bounds (suc (b.base_addr + b.size)) n bs s
            (λ k. h (rw (allocate_miss n b bs e) k)),
        p,
      ))
]

cut-is_free :
    (n x : ℕ) (b : Block) (bs : List Block)
    → n ≤ b.size
    → Ordered 0 (b ∷ bs)
    → is_free (cut b n bs) x ≡ (is_free (b ∷ bs) x && not (in_region b.base_addr n x))
unfolding cut
cut-is_free n x b bs h (p, q, r, s) =
    ground (arith, not_free_below (suc (b.base_addr + b.size)) x bs s)

-- An allocation that succeeds on an ordered list hands out only addresses that were free, and
-- takes exactly these from the free ones.
pub allocate-is_free :
    (lo n x : ℕ) (bs : List Block)
    → Ordered lo bs
    → (allocate_device_memory bs n).0 ≢ no_addr
    → let (addr, bs') = allocate_device_memory bs n in
      (is_free bs' x ≡ (is_free bs x && not (in_region addr n x)))
      × (in_region addr n x ≡ true → is_free bs x ≡ true)
unfolding allocate_device_memory
allocate-is_free lo n x [] o h = absurd (h refl)
allocate-is_free lo n x (b ∷ bs) (p, q, r, s) h = elim (Bool-cases (leb n b.size)) [
  | inl e ↦
      rw (allocate_hit n b bs e)
        (cut-is_free n x b bs (leb→le n b.size e) (omega arith, q, r, s), λ k. ground (arith))
  | inr e ↦
      let h' =
        λ (k : (allocate_device_memory bs n).0 ≡ no_addr). h (rw (allocate_miss n b bs e) k) in
      let ih = allocate-is_free (suc (b.base_addr + b.size)) n x bs s h' in
      let bounds = allocate_bounds (suc (b.base_addr + b.size)) n bs s h' in
      rw (allocate_miss n b bs e) (ground (arith, ih.0, bounds), λ k. ground (arith, ih.1 k))
]

pub free_bytes-allocate :
    (n : ℕ) (bs : List Block)
    → (allocate_device_memory bs n).0 ≢ no_addr
    → free_bytes (allocate_device_memory bs n).1 + n ≡ free_bytes bs
unfolding allocate_device_memory cut
free_bytes-allocate n [] h = absurd (h refl)
free_bytes-allocate n (b ∷ bs) h = elim (Bool-cases (leb n b.size)) [
  | inl e ↦ rw (allocate_hit n b bs e) (ground arith)
  | inr e ↦
      rw (allocate_miss n b bs e)
        (omega (arith, free_bytes-allocate n bs (λ k. h (rw (allocate_miss n b bs e) k))))
]

abbrev pub TooSmall : ℕ → List Block → Type 0
TooSmall n [] = Unit {0}
TooSmall n (b ∷ bs) = (b.size < n) × TooSmall n bs

pub allocate_none :
    (n : ℕ) (bs : List Block) → TooSmall n bs → allocate_device_memory bs n ≡ (no_addr, bs)
unfolding allocate_device_memory
allocate_none n [] h = refl
allocate_none n (b ∷ bs) (h, hs) =
    allocate_miss n b bs (leb-false n b.size h) ∙ rw (allocate_none n bs hs)

pub TooSmall-of_no_addr :
    (lo n : ℕ) (bs : List Block)
    → Ordered lo bs
    → (allocate_device_memory bs n).0 ≡ no_addr
    → TooSmall n bs
TooSmall-of_no_addr lo n [] o h = tt
TooSmall-of_no_addr lo n (b ∷ bs) (p, q, r, s) h = elim (Bool-cases (leb n b.size)) [
  | inl e ↦ absurd (omega (arith, r, q, rw (allocate_hit n b bs e) at h))
  | inr e ↦ (
    ground arith,
    TooSmall-of_no_addr (suc (b.base_addr + b.size)) n bs s (rw (allocate_miss n b bs e) at h),
  )
]

-- On a canonical list, an allocation leaves the list alone and returns -1 if every free block is
-- too small, and it returns -1 only then.
pub allocate_fails_iff :
    (n : ℕ) (bs : List Block)
    → IsValid bs
    → (TooSmall n bs → allocate_device_memory bs n ≡ (no_addr, bs))
      × ((allocate_device_memory bs n).0 ≡ no_addr → TooSmall n bs)
allocate_fails_iff n bs v = (allocate_none n bs, TooSmall-of_no_addr 0 n bs v)
