-- ===== src/Pcie/Buffers/Tests.antt =====
-- The buffers of a PCIe device (runtime/kernel/pcie/pcie_ioctl.c) over concrete calls.
use tapasco.Base.{ℕ, ◌≡◌, ◌<◌, refl, true, false, List, [], ◌∷◌, some, none, arith}
use tapasco.Pcie.Buffers.{DmaBuf, Pdev, blank}
use tapasco.Pcie.Buffers.Memory.{
  Owned, Call, allocates, frees, kernel_allocates, kernel_maps, closes,
}
use tapasco.Pcie.Buffers.Slots.{one}
use tapasco.Pcie.Buffers.Run.{run, all_loses, run-Owned}

abbrev eight : List DmaBuf → List DmaBuf
eight bs = blank ∷ blank ∷ blank ∷ blank ∷ blank ∷ blank ∷ blank ∷ blank ∷ bs

abbrev opened : Pdev
opened = record {
  dma_buffer = eight (eight (eight (eight [])));
  gp_buffer = [];
  mem = some [];
  maps = [];
}

null_counts : (q : ℕ) → 0 < q → one 0 q ≡ 0
null_counts q pos = ground arith

opened-Owned : Owned [] opened
opened-Owned = record {
  held = [];
  mem_held = refl;
  sized = refl;
  counted = λ q pos. omega (arith, null_counts q pos);
}

-- The mapping of the second buffer fails.
abbrev calls : List Call
calls =
    allocates 100 (some 7) 64 true
    ∷ allocates 200 none 64 false
    ∷ kernel_allocates true 300 32
    ∷ kernel_maps (some 9) 1
    ∷ frees 0
    ∷ frees 0
    ∷ closes
    ∷ []

run-Owned_example :
    (k' : Pdev) × (run opened calls ≡ some k') × Owned (all_loses opened calls []) k'
run-Owned_example = run-Owned [] opened calls (omega arith) opened-Owned
