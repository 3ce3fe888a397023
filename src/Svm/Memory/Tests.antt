-- ===== src/Svm/Memory/Tests.antt =====
-- The allocator at concrete lists, and its theorems at inputs that meet their hypotheses.
use tapasco.Base.{ℕ, ◌≡◌, ◌≢◌, refl, true, false, not, ◌&&◌, ◌||◌, List, [], ◌∷◌, arith}
use tapasco.Svm.Memory.{Block, no_addr, allocate_device_memory, cut, free_device_memory}
use tapasco.Svm.Memory.Invariant.{IsValid, allocate-IsValid, free-IsValid}
use tapasco.Svm.Memory.Cover.{
  in_region, is_free, TooSmall, free-is_free, allocate-is_free, allocate_fails_iff,
}
use tapasco.Svm.Memory.RoundTrip.{free-allocate, free_comm}
use tapasco.Svm.Memory.Clients.{
  Device, Call, allocates, releases, run, bytes, IsSafe, run-IsSafe, bytes-run,
}

abbrev block : ℕ → ℕ → Block
block a n = record { base_addr = a; size = n }

-- Two free blocks with a page between them.
abbrev split : List Block
split = block 0 4096 ∷ block 8192 4096 ∷ []

merged : free_device_memory true split 4096 4096 ≡ block 0 12288 ∷ []
unfolding free_device_memory
merged = refl

second_fits :
    allocate_device_memory (block 0 4096 ∷ block 8192 8192 ∷ []) 8192 ≡ (8192, block 0 4096 ∷ [])
unfolding allocate_device_memory cut
second_fits = refl

split-IsValid : IsValid split
split-IsValid = omega arith

free-IsValid_example : IsValid (free_device_memory false split 4096 4096)
free-IsValid_example =
    free-IsValid false 4096 4096 split (omega arith) (omega arith) split-IsValid (omega arith)

allocate-IsValid_example : IsValid (allocate_device_memory split 4096).1
allocate-IsValid_example = allocate-IsValid 4096 split split-IsValid

free-is_free_example :
    is_free (free_device_memory true split 4096 4096) 5000
    ≡ (is_free split 5000 || in_region 4096 4096 5000)
free-is_free_example =
    free-is_free 4096 4096 5000 split (omega arith) (omega arith) split-IsValid (omega arith)

served : (allocate_device_memory split 4096).0 ≢ no_addr
unfolding allocate_device_memory
served e = absurd (omega (arith, e))

allocate-is_free_example :
    let (addr, bs') = allocate_device_memory split 4096 in
    (is_free bs' 100 ≡ (is_free split 100 && not (in_region addr 4096 100)))
    × (in_region addr 4096 100 ≡ true → is_free split 100 ≡ true)
allocate-is_free_example = allocate-is_free 0 4096 100 split split-IsValid served

allocate_fails_iff_example :
    (TooSmall 5000 split → allocate_device_memory split 5000 ≡ (no_addr, split))
    × ((allocate_device_memory split 5000).0 ≡ no_addr → TooSmall 5000 split)
allocate_fails_iff_example = allocate_fails_iff 5000 split split-IsValid

free-allocate_example :
    let (addr, bs') = allocate_device_memory split 4096 in
    free_device_memory true bs' addr 4096 ≡ split
free-allocate_example = free-allocate 4096 split (omega arith) split-IsValid served

free_comm_example :
    free_device_memory true (free_device_memory true split 4096 100) 5000 10
    ≡ free_device_memory true (free_device_memory true split 5000 10) 4096 100
free_comm_example =
    free_comm 4096 100 5000 10 split (omega arith) (omega arith) (omega arith) (omega arith)
      split-IsValid (λ x i. ground arith) (λ x i. ground arith) (omega arith)

fresh : Device
fresh = record { free = block 0 16384 ∷ []; held = [] }

fresh-IsSafe : IsSafe fresh
unfolding fresh
fresh-IsSafe = record { valid = omega arith; exclusive = tt }

abbrev history : List Call
history = allocates 4096 ∷ allocates 8192 ∷ releases true 1 ∷ []

run-IsSafe_example : IsSafe (run fresh history)
run-IsSafe_example = run-IsSafe fresh history fresh-IsSafe

bytes-run_example : bytes (run fresh history) ≡ bytes fresh
bytes-run_example = bytes-run fresh history fresh-IsSafe (refl, tt)
