-- ===== src/Pcie/Buffers/Memory.antt =====
-- The memory that the buffers of a PCIe device hold, over any sequence of calls
-- (runtime/kernel/pcie/pcie_ioctl.c, pcie_device.c).
use tapasco.Base.{
  ℕ, zero, suc, ◌+◌, ◌<◌, ◌≡◌, refl, ◌∙◌, Bool, List, [], ◌∷◌, ◌++◌, Option, some, none, ◌==◌, ltb,
  length, length-set, get_elem?, get_elem?-length, set, Bool-cases, Option-cases, inl, inr, arith,
}
use tapasco.Pcie.Buffers.{
  DmaBuf, GpBuf, Pdev, blank, first_free, num_dma_buffers, dma_allocate_buffer, in_slot,
  pcie_ioctl_dma_buffer_allocate, dma_free_buffer, pcie_ioctl_dma_buffer_free, max_size, next_id,
  pcie_ioctl_kernel_buffer_allocate, free_first, pcie_ioctl_kernel_buffer_free, set_dev_addr,
  find_buffer, map_found, pcie_ioctl_kernel_buffer_map, pcie_ioctl_kernel_buffer_unmap,
  pcie_device_miscdev_close,
}
use tapasco.Pcie.Buffers.Slots.{
  count, ptrs, bufs, kfree_counts, ptrs-set, count-ptrs, first_free_lem, bufs-append,
  bufs-set_dev_addr,
}

-- The memory held is that of the buffers, and what is lost besides.
pub record Owned (lost : List ℕ) (k : Pdev) : Type 0 where
  pub held : List ℕ
  pub mem_held : k.mem ≡ some held
  pub sized : length k.dma_buffer ≡ num_dma_buffers
  pub counted :
      (q : ℕ)
      → 0 < q
      → count q held ≡ count q (ptrs k.dma_buffer) + count q (bufs k.gp_buffer) + count q lost

pub data Call : Type 0 where
  allocates : ℕ → Option ℕ → ℕ → Bool → Call
  frees : ℕ → Call
  kernel_allocates : Bool → ℕ → ℕ → Call
  kernel_frees : ℕ → Call
  kernel_maps : Option ℕ → ℕ → Call
  kernel_unmaps : ℕ → Call
  closes : Call

unfoldable pub step : Pdev → Call → Option Pdev
unfolding pcie_ioctl_dma_buffer_allocate pcie_ioctl_dma_buffer_free
    pcie_ioctl_kernel_buffer_allocate pcie_ioctl_kernel_buffer_free pcie_ioctl_kernel_buffer_map
    pcie_ioctl_kernel_buffer_unmap pcie_device_miscdev_close
step k (allocates p dma size from) = some (pcie_ioctl_dma_buffer_allocate p dma size from k).1
step k (frees i) = elim (pcie_ioctl_dma_buffer_free i k) [ none ↦ none | some r ↦ some r.1 ]
step k (kernel_allocates granted p size) =
    some (pcie_ioctl_kernel_buffer_allocate granted p size k).1
step k (kernel_frees i) = some (pcie_ioctl_kernel_buffer_free i k).1
step k (kernel_maps dma i) = some (pcie_ioctl_kernel_buffer_map dma i k).1
step k (kernel_unmaps i) = some (pcie_ioctl_kernel_buffer_unmap i k).1
step k closes = some (pcie_device_miscdev_close k)

-- The memory that a call loses: that of an allocation whose mapping fails.
abbrev pub unmappable : ℕ → Option ℕ → Option ℕ → List ℕ
unmappable zero dma slot = []
unmappable (suc p) none (some i) = suc p ∷ []
unmappable (suc p) none none = []
unmappable (suc p) (some d) slot = []

unmappable_full : (p : ℕ) (dma : Option ℕ) → unmappable p dma none ≡ []
unmappable_full zero dma = refl
unmappable_full (suc p) none = refl
unmappable_full (suc p) (some d) = refl

abbrev pub loses : Pdev → Call → List ℕ
loses k (allocates p dma size from) = unmappable p dma (first_free k.dma_buffer)
loses k (frees i) = []
loses k (kernel_allocates granted p size) = []
loses k (kernel_frees i) = []
loses k (kernel_maps dma i) = []
loses k (kernel_unmaps i) = []
loses k closes = []

-- A slot that the call names is in the array.
abbrev pub InRange : Call → Type 0
InRange (frees i) = i < num_dma_buffers
InRange _ = Unit

in_slot-Owned :
    (lost : List ℕ) (k : Pdev) (i p : ℕ) (dma : Option ℕ) (size : ℕ) (from : Bool) (b : DmaBuf)
    → get_elem? k.dma_buffer i ≡ some b
    → b.ptr ≡ 0
    → Owned lost k
    → Owned
        (unmappable p dma (some i) ++ lost)
        (in_slot i (dma_allocate_buffer p dma size from k)).1
unfolding dma_allocate_buffer
in_slot-Owned lost k i zero none size from b at free v = record {
  held = v.held;
  mem_held = v.mem_held;
  sized = length-set k.dma_buffer i _ ∙ v.sized;
  counted = λ q pos. ground (arith, v.counted q pos, ptrs-set k.dma_buffer i b blank q at);
}
in_slot-Owned lost k i zero (some d) size from b at free v = record {
  held = v.held;
  mem_held = v.mem_held;
  sized = length-set k.dma_buffer i _ ∙ v.sized;
  counted = λ q pos. ground (arith, v.counted q pos, ptrs-set k.dma_buffer i b blank q at);
}
in_slot-Owned lost k i (suc p) none size from b at free v = record {
  held = suc p ∷ v.held;
  mem_held = rw v.mem_held refl;
  sized = length-set k.dma_buffer i _ ∙ v.sized;
  counted = λ q pos. ground (arith, v.counted q pos, ptrs-set k.dma_buffer i b blank q at);
}
in_slot-Owned lost k i (suc p) (some d) size from b at free v =
    let new : DmaBuf = record { ptr = suc p; ptr_dev = d; size = size; from_dev = from } in
    record {
      held = suc p ∷ v.held;
      mem_held = rw v.mem_held refl;
      sized = length-set k.dma_buffer i _ ∙ v.sized;
      counted = λ q pos. ground (arith, v.counted q pos, ptrs-set k.dma_buffer i b new q at);
    }

pub allocate-Owned :
    (lost : List ℕ) (k : Pdev) (p : ℕ) (dma : Option ℕ) (size : ℕ) (from : Bool)
    → Owned lost k
    → Owned
        (unmappable p dma (first_free k.dma_buffer) ++ lost)
        (pcie_ioctl_dma_buffer_allocate p dma size from k).1
unfolding pcie_ioctl_dma_buffer_allocate
allocate-Owned lost k p dma size from v = elim (Option-cases (first_free k.dma_buffer)) [
  | inl full ↦ rw (full, pcie_ioctl_dma_buffer_allocate, unmappable_full p dma) v
  | inr (i, there) ↦
      let (b, at, free) = first_free_lem k.dma_buffer there in
      rw (there, pcie_ioctl_dma_buffer_allocate)
        (in_slot-Owned lost k i p dma size from b at free v)
]

pub free-Owned :
    (lost : List ℕ) (k : Pdev) (i : ℕ)
    → i < num_dma_buffers
    → Owned lost k
    → (k' : Pdev) × (step k (frees i) ≡ some k') × Owned lost k'
unfolding step dma_free_buffer
free-Owned lost k i inside v =
    let (b, at) = get_elem?-length k.dma_buffer i (omega (arith, v.sized)) in
    let (ms, e, c) =
      kfree_counts b.ptr v.held
        (λ pos. omega (arith, v.counted b.ptr pos, count-ptrs k.dma_buffer i b at)) in
    (
      record (dma_free_buffer b k) { dma_buffer = set k.dma_buffer i blank },
      rw (at, step, pcie_ioctl_dma_buffer_free) refl,
      record {
        held = ms;
        mem_held = rw v.mem_held e;
        sized = length-set k.dma_buffer i _ ∙ v.sized;
        counted =
            λ q pos. ground (arith, v.counted q pos, ptrs-set k.dma_buffer i b blank q at, c q pos);
      },
    )

pub kernel_allocate-Owned :
    (lost : List ℕ) (k : Pdev) (granted : Bool) (p size : ℕ)
    → Owned lost k
    → Owned lost (pcie_ioctl_kernel_buffer_allocate granted p size k).1
unfolding pcie_ioctl_kernel_buffer_allocate
kernel_allocate-Owned lost k granted p size v =
    let new : GpBuf = record {
      buf = p;
      dev_addr = 0;
      size = size;
      buffer_id = next_id k.gp_buffer;
    } in
    elim (Bool-cases (ltb max_size size)) [
      | inl large ↦ rw large v
      | inr fits ↦ elim (Bool-cases granted) [
        | inr no_entry ↦ rw (fits, no_entry) v
        | inl entry ↦ elim (Bool-cases (p == 0)) [
          | inl null ↦ rw (fits, entry, null) v
          | inr there ↦
              rw (fits, entry, there)
                (record {
                  held = p ∷ v.held;
                  mem_held = rw v.mem_held refl;
                  sized = v.sized;
                  counted =
                      λ q pos. omega (arith, v.counted q pos, bufs-append k.gp_buffer (new ∷ []) q);
                })
        ]
      ]
    ]

pub kernel_free-Owned :
    (lost : List ℕ) (k : Pdev) (i : ℕ)
    → Owned lost k
    → Owned lost (pcie_ioctl_kernel_buffer_free i k).1
unfolding pcie_ioctl_kernel_buffer_free
kernel_free-Owned lost k i v = go k.gp_buffer v.counted
  where
    go :
        (bs : List GpBuf)
        → ((q : ℕ)
            → 0 < q
            → count q v.held ≡ count q (ptrs k.dma_buffer) + count q (bufs bs) + count q lost)
        → Owned lost (free_first i bs (record k { gp_buffer = bs })).1
    go [] c = record { held = v.held; mem_held = v.mem_held; sized = v.sized; counted = c }
    go (b ∷ bs) c = elim (Bool-cases (b.buffer_id == i)) [
      | inr other ↦
          rw other (record { held = v.held; mem_held = v.mem_held; sized = v.sized; counted = c })
      | inl same ↦
          let (ms, e, d) = kfree_counts b.buf v.held (λ pos. ground (arith, c b.buf pos)) in
          rw same (record {
            held = ms;
            mem_held = rw v.mem_held e;
            sized = v.sized;
            counted = λ q pos. omega (arith, c q pos, d q pos);
          })
    ]

pub map-Owned :
    (lost : List ℕ) (k : Pdev) (dma : Option ℕ) (i : ℕ)
    → Owned lost k
    → Owned lost (pcie_ioctl_kernel_buffer_map dma i k).1
unfolding pcie_ioctl_kernel_buffer_map
map-Owned lost k dma i v = elim (Option-cases (find_buffer i k.gp_buffer)) [
  | inl absent ↦ rw (absent, pcie_ioctl_kernel_buffer_map) v
  | inr (b, there) ↦ rw (there, pcie_ioctl_kernel_buffer_map) (mapped_either dma)
]
  where
    counts :
        (d q : ℕ)
        → 0 < q
        → count q v.held
          ≡ count q (ptrs k.dma_buffer)
            + count q (bufs (set_dev_addr i d k.gp_buffer))
            + count q lost
    counts d q pos = rw (bufs-set_dev_addr i d k.gp_buffer) (v.counted q pos)

    mapped_either : (dma : Option ℕ) → Owned lost (map_found i dma k).1
    mapped_either none = record {
      held = v.held;
      mem_held = v.mem_held;
      sized = v.sized;
      counted = counts _;
    }
    mapped_either (some d) = record {
      held = v.held;
      mem_held = v.mem_held;
      sized = v.sized;
      counted = counts d;
    }

pub unmap-Owned :
    (lost : List ℕ) (k : Pdev) (i : ℕ)
    → Owned lost k
    → Owned lost (pcie_ioctl_kernel_buffer_unmap i k).1
unfolding pcie_ioctl_kernel_buffer_unmap
unmap-Owned lost k i v = elim (Option-cases (find_buffer i k.gp_buffer)) [
  | inl absent ↦ rw (absent, pcie_ioctl_kernel_buffer_unmap) v
  | inr (b, there) ↦
      rw (there, pcie_ioctl_kernel_buffer_unmap)
        (record {
          held = v.held;
          mem_held = v.mem_held;
          sized = v.sized;
          counted = λ q pos. rw (bufs-set_dev_addr i 0 k.gp_buffer) (v.counted q pos);
        })
]
