-- ===== src/Pcie/Buffers/Run.antt =====
-- Sequences of calls on the buffers of a PCIe device, with the close of its file
-- (runtime/kernel/pcie/pcie_ioctl.c, pcie_device.c).
use tapasco.Base.{
  ◌≢◌, ℕ, suc, ◌+◌, ◌<◌, ◌≡◌, refl, ap, ◌∙◌, List, [], ◌∷◌, ◌++◌, Option, some, none, ◌==◌, length,
  Bool-cases, inl, inr, arith, ok,
}
use tapasco.Pcie.Buffers.{
  DmaBuf, GpBuf, Pdev, kfree, unmap_single, dma_free_buffer, pcie_ioctl_kernel_buffer_free,
  close_slots, cleared, close_list, pcie_device_miscdev_close,
}
use tapasco.Pcie.Buffers.Slots.{count, ptrs, bufs, kfree_counts, count-cleared}
use tapasco.Pcie.Buffers.Memory.{
  Owned, step, Call, allocates, frees, kernel_allocates, kernel_frees, kernel_maps, kernel_unmaps,
  closes, loses, InRange, free-Owned, allocate-Owned, kernel_allocate-Owned, kernel_free-Owned,
  map-Owned, unmap-Owned,
}

dma_free_buffer-mem : (b : DmaBuf) (k : Pdev) → (dma_free_buffer b k).mem ≡ kfree b.ptr k.mem
unfolding dma_free_buffer
dma_free_buffer-mem b k = refl

-- The loops of the close free what they meet, `rest` being what is left to the other loop.
close_slots-frees :
    (bs : List DmaBuf) (rest : List ℕ) (k : Pdev) (ms : List ℕ)
    → k.mem ≡ some ms
    → ((q : ℕ) → 0 < q → count q ms ≡ count q (ptrs bs) + count q rest)
    → (ms' : List ℕ) × ((close_slots bs k).mem ≡ some ms')
      × ((q : ℕ) → 0 < q → count q ms' ≡ count q rest)
close_slots-frees [] rest k ms m c = (ms, m, λ q pos. omega (arith, c q pos))
close_slots-frees (b ∷ bs) rest k ms m c = elim (Bool-cases (b.ptr == 0)) [
  | inl null ↦
      rw (null, close_slots) (close_slots-frees bs rest k ms m (λ q pos. ground (arith, c q pos)))
  | inr there ↦
      let (ms', e, d) = kfree_counts b.ptr ms (λ pos. ground (arith, c b.ptr pos)) in
      rw (there, close_slots)
        (close_slots-frees bs rest (dma_free_buffer b k) ms' (dma_free_buffer-mem b k ∙ rw m e)
          (λ q pos. omega (arith, c q pos, d q pos)))
]

close_list-frees :
    (bs : List GpBuf) (rest : List ℕ) (k : Pdev) (ms : List ℕ)
    → k.mem ≡ some ms
    → ((q : ℕ) → 0 < q → count q ms ≡ count q (bufs bs) + count q rest)
    → (ms' : List ℕ) × ((close_list bs k).mem ≡ some ms')
      × ((q : ℕ) → 0 < q → count q ms' ≡ count q rest)
close_list-frees [] rest k ms m c = (ms, m, λ q pos. omega (arith, c q pos))
close_list-frees (b ∷ bs) rest k ms m c =
    let (ms', e, d) = kfree_counts b.buf ms (λ pos. ground (arith, c b.buf pos)) in
    close_list-frees bs rest
      (record k { mem = kfree b.buf k.mem; maps = unmap_single b.dev_addr k.maps }) ms' (rw m e)
      (λ q pos. omega (arith, c q pos, d q pos))

count-append : (xs ys : List ℕ) (q : ℕ) → count q (xs ++ ys) ≡ count q xs + count q ys
count-append [] ys q = omega arith
count-append (x ∷ xs) ys q = omega (arith, count-append xs ys q)

-- The number of slots stays.
length-cleared : (bs : List DmaBuf) → length (cleared bs) ≡ length bs
length-cleared [] = refl
length-cleared (b ∷ bs) = ap suc (length-cleared bs)

close-Owned : (lost : List ℕ) (k : Pdev) → Owned lost k → Owned lost (pcie_device_miscdev_close k)
unfolding pcie_device_miscdev_close
close-Owned lost k v =
    let (ms, e, c) =
      close_slots-frees k.dma_buffer (bufs k.gp_buffer ++ lost) k v.held v.mem_held
        (λ q pos. omega (arith, v.counted q pos, count-append (bufs k.gp_buffer) lost q)) in
    let (ms', e', c') =
      close_list-frees k.gp_buffer lost (close_slots k.dma_buffer k) ms e
        (λ q pos. omega (arith, c q pos, count-append (bufs k.gp_buffer) lost q)) in
    record {
      held = ms';
      mem_held = e';
      sized = length-cleared k.dma_buffer ∙ v.sized;
      counted = λ q pos. omega (arith, c' q pos, count-cleared k.dma_buffer q pos);
    }

step-Owned :
    (lost : List ℕ) (k : Pdev) (c : Call)
    → InRange c
    → Owned lost k
    → (k' : Pdev) × (step k c ≡ some k') × Owned (loses k c ++ lost) k'
unfolding step
step-Owned lost k (allocates p dma size from) i v =
    (_, refl, allocate-Owned lost k p dma size from v)
step-Owned lost k (frees j) i v = free-Owned lost k j i v
step-Owned lost k (kernel_allocates granted p size) i v =
    (_, refl, kernel_allocate-Owned lost k granted p size v)
step-Owned lost k (kernel_frees j) i v = (_, refl, kernel_free-Owned lost k j v)
step-Owned lost k (kernel_maps dma j) i v = (_, refl, map-Owned lost k dma j v)
step-Owned lost k (kernel_unmaps j) i v = (_, refl, unmap-Owned lost k j v)
step-Owned lost k closes i v = (_, refl, close-Owned lost k v)

pub run : Pdev → List Call → Option Pdev
run k [] = some k
run k (c ∷ cs) = elim (step k c) [ none ↦ none | some k' ↦ run k' cs ]

-- The memory that the calls lose, the last one first.
abbrev pub all_loses : Pdev → List Call → List ℕ → List ℕ
all_loses k [] lost = lost
all_loses k (c ∷ cs) lost = elim (step k c) as (λ _. List ℕ) [
  | none ↦ lost
  | some k' ↦ all_loses k' cs (loses k c ++ lost)
]

abbrev pub AllInRange : List Call → Type 0
AllInRange [] = Unit
AllInRange (c ∷ cs) = InRange c × AllInRange cs

-- From a device with 32 slots, any calls that allocate, free, map and unmap its DMA and kernel
-- buffers, and close its file, in any order, with slots below 32, run to an end and free nothing
-- that is not held; at the end the memory held is, pointer by pointer, that of the buffers and of
-- what was lost before and during the calls, which is the memory of the allocations whose mapping
-- failed.
pub run-Owned :
    (lost : List ℕ) (k : Pdev) (cs : List Call)
    → AllInRange cs
    → Owned lost k
    → (k' : Pdev) × (run k cs ≡ some k') × Owned (all_loses k cs lost) k'
unfolding run
run-Owned lost k [] i v = (k, refl, v)
run-Owned lost k (c ∷ cs) i v =
    let (k', e, v') = step-Owned lost k c i.0 v in
    rw (e, run, all_loses) (run-Owned (loses k c ++ lost) k' cs i.1 v')

-- Freeing a kernel buffer that is not the list's first, or not in a list that has a first,
-- returns success and changes nothing.
pub kernel_buffer_free_later :
    (k : Pdev) (b : GpBuf) (bs : List GpBuf) (i : ℕ)
    → k.gp_buffer ≡ b ∷ bs
    → b.buffer_id ≢ i
    → pcie_ioctl_kernel_buffer_free i k ≡ (ok, k)
unfolding pcie_ioctl_kernel_buffer_free
kernel_buffer_free_later k b bs i e n = ground (arith, e)
