-- ===== src/Pcie/Buffers.antt =====
-- Buffers that user space asks a PCIe device for: runtime/kernel/pcie/pcie_ioctl.c, with the buffer
-- functions and the close of runtime/kernel/pcie/pcie_device.c. A pointer and a DMA address are
-- numbers, 0 is NULL. What kmalloc and dma_map_single give is an argument.
pub mod Memory
pub mod Slots
pub mod Run
mod Tests
use tapasco.Base.{
  ℕ, zero, suc, ◌+◌, ◌-◌, ◌*◌, ◌^◌, Bool, true, false, List, [], ◌∷◌, ◌++◌, Option, none, some, ltb,
  ◌==◌, if◌then◌else◌, length, get_elem?, set, add64, Ret, ok, err, efault, enomem, emfile, enoent,
}
use tapasco.Base.Stages.{Held, acquire, release}

-- `struct dma_buf`; the direction is FROM_DEV or TO_DEV.
pub record DmaBuf : Type 0 where
  pub ptr : ℕ
  pub ptr_dev : ℕ
  pub size : ℕ
  pub from_dev : Bool

-- `struct gp_buf`, in a list that is in the order of allocation.
pub record GpBuf : Type 0 where
  pub buf : ℕ
  pub dev_addr : ℕ
  pub size : ℕ
  pub buffer_id : ℕ

-- Calls of `dma_map_single` that succeed, and of `dma_unmap_single`.
pub data Mapping : Type 0 where
  mapped unmapped : ℕ → Mapping

-- The buffers, the memory from kmalloc that is held (`none`: some was freed that was not), and the
-- mappings made and undone, the last one first.
pub record Pdev : Type 0 where
  pub dma_buffer : List DmaBuf
  pub gp_buffer : List GpBuf
  pub mem : Held
  pub maps : List Mapping

abbrev pub num_dma_buffers : ℕ
num_dma_buffers = 32

abbrev pub blank : DmaBuf
blank = record { ptr = 0; ptr_dev = 0; size = 0; from_dev = false }

-- The first slot whose pointer is NULL.
abbrev pub first_free : List DmaBuf → Option ℕ
first_free [] = none
first_free (b ∷ bs) =
    let later = elim (first_free bs) as (λ _. Option ℕ) [ none ↦ none | some i ↦ some (suc i) ] in
    if b.ptr == 0 then some zero else later

-- `pcie_device_dma_allocate_buffer` into a slot: its result, the slot, and what it took. With no
-- mapping, the memory stays with the caller.
pub dma_allocate_buffer : ℕ → Option ℕ → ℕ → Bool → Pdev → Ret × DmaBuf × Pdev
dma_allocate_buffer zero dma size from pdev =
    (err efault, record blank { size = size; from_dev = from }, pdev)
dma_allocate_buffer (suc p) none size from pdev = (
  err efault,
  record { ptr = suc p; ptr_dev = 2 ^ 64 - 1; size = size; from_dev = from },
  record pdev { mem = acquire (suc p) pdev.mem },
)
dma_allocate_buffer (suc p) (some d) size from pdev = (
  ok,
  record { ptr = suc p; ptr_dev = d; size = size; from_dev = from },
  record pdev { mem = acquire (suc p) pdev.mem; maps = mapped d ∷ pdev.maps },
)

abbrev pub in_slot : ℕ → Ret × DmaBuf × Pdev → Ret × Pdev
in_slot i (ok, b, pdev) = (ok, record pdev { dma_buffer = set pdev.dma_buffer i b })
in_slot i (err e, b, pdev) = (err e, record pdev { dma_buffer = set pdev.dma_buffer i blank })

-- The slot's number is the buffer's.
pub pcie_ioctl_dma_buffer_allocate : ℕ → Option ℕ → ℕ → Bool → Pdev → Ret × Pdev
unfolding dma_allocate_buffer
pcie_ioctl_dma_buffer_allocate kmalloc dma size from pdev = elim (first_free pdev.dma_buffer) [
  | none ↦ (err emfile, pdev)
  | some i ↦ in_slot i (dma_allocate_buffer kmalloc dma size from pdev)
]

-- `kfree` of NULL does nothing.
abbrev pub kfree : ℕ → Held → Held
kfree p h = if p == 0 then h else release p h

abbrev pub unmap_single : ℕ → List Mapping → List Mapping
unmap_single d ms = if d == 0 then ms else unmapped d ∷ ms

-- `pcie_device_dma_free_buffer`, what it does beside clearing the slot's pointers.
pub dma_free_buffer : DmaBuf → Pdev → Pdev
dma_free_buffer b pdev = record pdev {
  mem = kfree b.ptr pdev.mem;
  maps = unmap_single b.ptr_dev pdev.maps;
}

-- `none`: a slot past the end of the array.
pub pcie_ioctl_dma_buffer_free : ℕ → Pdev → Option (Ret × Pdev)
unfolding dma_free_buffer
pcie_ioctl_dma_buffer_free buffer_id pdev = elim (get_elem? pdev.dma_buffer buffer_id) [
  | none ↦ none
  | some b ↦
      some
        (ok, record (dma_free_buffer b pdev) { dma_buffer = set pdev.dma_buffer buffer_id blank })
]

abbrev pub max_size : ℕ
max_size = 4 * 2 ^ 20

-- The number of the list's last entry, and one; or 1.
abbrev pub next_id : List GpBuf → ℕ
next_id [] = 1
next_id (b ∷ []) = add64 b.buffer_id 1
next_id (b ∷ c ∷ bs) = next_id (c ∷ bs)

-- `granted`: whether there is memory for the entry.
pub pcie_ioctl_kernel_buffer_allocate : Bool → ℕ → ℕ → Pdev → Ret × Pdev
pcie_ioctl_kernel_buffer_allocate granted kmalloc size pdev =
    if ltb max_size size
    then (err enomem, pdev)
    else if granted
    then (if kmalloc == 0 then (err enomem, pdev) else (
      ok,
      record pdev {
        gp_buffer =
            pdev.gp_buffer
            ++ record {
              buf = kmalloc;
              dev_addr = 0;
              size = size;
              buffer_id = next_id pdev.gp_buffer;
            }
              ∷ [];
        mem = acquire kmalloc pdev.mem;
      },
    ))
    else (err enomem, pdev)

-- The loop returns from its first round.
abbrev pub free_first : ℕ → List GpBuf → Pdev → Ret × Pdev
free_first buffer_id [] pdev = (err enoent, pdev)
free_first buffer_id (b ∷ bs) pdev =
    if b.buffer_id == buffer_id
    then (
      ok,
      record pdev {
        gp_buffer = bs;
        mem = kfree b.buf pdev.mem;
        maps = unmap_single b.dev_addr pdev.maps;
      },
    )
    else (ok, pdev)

pub pcie_ioctl_kernel_buffer_free : ℕ → Pdev → Ret × Pdev
pcie_ioctl_kernel_buffer_free buffer_id pdev = free_first buffer_id pdev.gp_buffer pdev

-- The entry of the number, with the given DMA address.
abbrev pub set_dev_addr : ℕ → ℕ → List GpBuf → List GpBuf
set_dev_addr buffer_id d [] = []
set_dev_addr buffer_id d (b ∷ bs) =
    if b.buffer_id == buffer_id
    then record b { dev_addr = d } ∷ bs
    else b ∷ set_dev_addr buffer_id d bs

abbrev pub find_buffer : ℕ → List GpBuf → Option GpBuf
find_buffer buffer_id [] = none
find_buffer buffer_id (b ∷ bs) =
    if b.buffer_id == buffer_id then some b else find_buffer buffer_id bs

-- An address that stands for an error is kept in the entry.
abbrev pub map_found : ℕ → Option ℕ → Pdev → Ret × Pdev
map_found buffer_id none pdev =
    (err enomem, record pdev { gp_buffer = set_dev_addr buffer_id (2 ^ 64 - 1) pdev.gp_buffer })
map_found buffer_id (some d) pdev = (
  ok,
  record pdev { gp_buffer = set_dev_addr buffer_id d pdev.gp_buffer; maps = mapped d ∷ pdev.maps },
)

pub pcie_ioctl_kernel_buffer_map : Option ℕ → ℕ → Pdev → Ret × Pdev
pcie_ioctl_kernel_buffer_map dma buffer_id pdev = elim (find_buffer buffer_id pdev.gp_buffer) [
  | none ↦ (err enoent, pdev)
  | some b ↦ map_found buffer_id dma pdev
]

pub pcie_ioctl_kernel_buffer_unmap : ℕ → Pdev → Ret × Pdev
pcie_ioctl_kernel_buffer_unmap buffer_id pdev = elim (find_buffer buffer_id pdev.gp_buffer) [
  | none ↦ (err enoent, pdev)
  | some b ↦ (
    ok,
    record pdev {
      gp_buffer = set_dev_addr buffer_id 0 pdev.gp_buffer;
      maps = unmapped b.dev_addr ∷ pdev.maps;
    },
  )
]

-- The loops of `pcie_device_miscdev_close`.
abbrev pub close_slots : List DmaBuf → Pdev → Pdev
close_slots [] pdev = pdev
close_slots (b ∷ bs) pdev = close_slots bs (if b.ptr == 0 then pdev else dma_free_buffer b pdev)

abbrev pub cleared : List DmaBuf → List DmaBuf
cleared [] = []
cleared (b ∷ bs) =
    (if b.ptr == 0 then b else record b { ptr = 0; ptr_dev = 0; size = 0 }) ∷ cleared bs

abbrev pub close_list : List GpBuf → Pdev → Pdev
close_list [] pdev = pdev
close_list (b ∷ bs) pdev =
    close_list bs
      (record pdev { mem = kfree b.buf pdev.mem; maps = unmap_single b.dev_addr pdev.maps })

pub pcie_device_miscdev_close : Pdev → Pdev
unfolding dma_free_buffer
pcie_device_miscdev_close pdev =
    record (close_list pdev.gp_buffer (close_slots pdev.dma_buffer pdev)) {
      dma_buffer = cleared pdev.dma_buffer;
      gp_buffer = [];
    }
