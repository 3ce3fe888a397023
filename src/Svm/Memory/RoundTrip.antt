-- ===== src/Svm/Memory/RoundTrip.antt =====
-- Allocation and release in runtime/kernel/pcie/pcie_svm.c undo each other.
use tapasco.Base.{ℕ, suc, ◌+◌, ◌^◌, ◌≤◌, ◌<◌, ◌≡◌, ◌≢◌, true, false, List, [], ◌∷◌, arith, ◌⊎◌}
use tapasco.Svm.Memory.{Block, no_addr, allocate_device_memory, free_device_memory}
use tapasco.Svm.Memory.Invariant.{Ordered, IsValid, Apart, allocate-IsValid, free-IsValid}
use tapasco.Svm.Memory.Cover.{in_region, is_free, allocate-is_free, free-is_free, allocate_bounds}
use tapasco.Svm.Memory.Canonical.{canonical}

-- No address of `[addr, addr + n)` is free.
abbrev pub NotFree : ℕ → ℕ → List Block → Type 0
NotFree addr n bs = (x : ℕ) → in_region addr n x ≡ true → is_free bs x ≡ false

pub Apart-of_NotFree :
    (lo addr n : ℕ) (bs : List Block) → 0 < n → Ordered lo bs → NotFree addr n bs → Apart addr n bs
Apart-of_NotFree lo addr n [] hn o h = tt
Apart-of_NotFree lo addr n (b ∷ bs) hn (p, q, r, s) h = (
  ground (arith, h addr, h b.base_addr),
  Apart-of_NotFree (suc (b.base_addr + b.size)) addr n bs hn s (λ x i. ground (arith, h x i)),
)

pub allocate-NotFree :
    (n : ℕ) (bs : List Block)
    → IsValid bs
    → (allocate_device_memory bs n).0 ≢ no_addr
    → let (addr, bs') = allocate_device_memory bs n in NotFree addr n bs'
allocate-NotFree n bs v h x i = ground (arith, allocate-is_free 0 n x bs v h)

-- Freeing the region that was just allocated, of a positive size, from a canonical free list
-- gives back the very same list.
pub free-allocate :
    (n : ℕ) (bs : List Block)
    → 0 < n
    → IsValid bs
    → (allocate_device_memory bs n).0 ≢ no_addr
    → let (addr, bs') = allocate_device_memory bs n in free_device_memory true bs' addr n ≡ bs
free-allocate n bs hn v h =
    canonical 0 _ bs (free-IsValid true addr n bs' hn within v' apart) v λ x.
      ground (arith, free-is_free addr n x bs' hn within v' apart, allocate-is_free 0 n x bs v h)
  where
    addr : ℕ
    addr = (allocate_device_memory bs n).0

    bs' : List Block
    bs' = (allocate_device_memory bs n).1

    v' : IsValid bs'
    v' = allocate-IsValid n bs v

    within : addr + n < 2 ^ 64
    within = (allocate_bounds 0 n bs v h).1

    apart : Apart addr n bs'
    apart = Apart-of_NotFree 0 addr n bs' hn v' (allocate-NotFree n bs v h)

-- Two disjoint nonempty regions below 2^64, neither of which has a free byte, may be freed in
-- either order: the resulting lists are equal.
pub free_comm :
    (a n b m : ℕ) (bs : List Block)
    → 0 < n
    → 0 < m
    → a + n < 2 ^ 64
    → b + m < 2 ^ 64
    → IsValid bs
    → NotFree a n bs
    → NotFree b m bs
    → (a + n ≤ b) ⊎ (b + m ≤ a)
    → free_device_memory true (free_device_memory true bs a n) b m
      ≡ free_device_memory true (free_device_memory true bs b m) a n
free_comm a n b m bs hn hm wn wm v fa fb d =
    canonical 0 _ _ (free-IsValid true b m left hm wm left_valid left_apart)
      (free-IsValid true a n right hn wn right_valid right_apart)
      λ x. ground (
        arith,
        free-is_free b m x left hm wm left_valid left_apart,
        free-is_free a n x right hn wn right_valid right_apart,
        free-is_free a n x bs hn wn v apart_a,
        free-is_free b m x bs hm wm v apart_b,
      )
  where
    left : List Block
    left = free_device_memory true bs a n

    right : List Block
    right = free_device_memory true bs b m

    apart_a : Apart a n bs
    apart_a = Apart-of_NotFree 0 a n bs hn v fa

    apart_b : Apart b m bs
    apart_b = Apart-of_NotFree 0 b m bs hm v fb

    left_valid : IsValid left
    left_valid = free-IsValid true a n bs hn wn v apart_a

    right_valid : IsValid right
    right_valid = free-IsValid true b m bs hm wm v apart_b

    left_apart : Apart b m left
    left_apart =
        Apart-of_NotFree 0 b m left hm left_valid
          (λ x i. ground (arith, fb x i, free-is_free a n x bs hn wn v apart_a))

    right_apart : Apart a n right
    right_apart =
        Apart-of_NotFree 0 a n right hn right_valid
          (λ x i. ground (arith, fa x i, free-is_free b m x bs hm wm v apart_b))
