-- ===== src/Platform/Mapping.antt =====
-- The mapping of a device's memory into user space: tlkm_device_mmap of
-- runtime/kernel/device/tlkm_device_mmap.c, addr2map_off of runtime/kernel/tlkm/tlkm_platform.c and
-- pcie_device_addr2map_off of runtime/kernel/pcie/pcie_device.c.
mod Places
mod Tests
use tapasco.Base.{
  ℕ, ◌+◌, ◌-◌, ◌*◌, ◌/◌, ◌%◌, ◌^◌, Bool, true, false, List, Option, none, some, ltb, ◌==◌,
  if◌then◌else◌, get_elem?, Ret, ok, err, enxio, eagain, add64,
}

-- The bases of the ranges, and what `cls->addr2map` reads: none, or for each DMA buffer of a PCIe
-- device the physical address of its memory, if it has any.
pub record Ranges : Type 0 where
  pub base_offset : ℕ
  pub status_base : ℕ
  pub arch_base : ℕ
  pub plat_base : ℕ
  pub dma_buffer : Option (List (Option ℕ))

abbrev pub virt_to_phys : Option ℕ → ℕ
virt_to_phys none = 0
virt_to_phys (some phys) = phys

abbrev pub buffer_requested : ℕ → ℕ
buffer_requested addr = (addr / 4096 + (2 ^ 64 - 4)) % 2 ^ 64

-- `none`: a read outside the array of buffers.
abbrev pub pcie_device_addr2map_off : List (Option ℕ) → ℕ → Option ℕ
pcie_device_addr2map_off bs addr = elim (get_elem? bs (buffer_requested addr)) [
  | none ↦ none
  | some b ↦ some (virt_to_phys b)
]

abbrev pub class_addr2map : Option (List (Option ℕ)) → ℕ → Option ℕ
class_addr2map none addr = some 0
class_addr2map (some bs) addr = pcie_device_addr2map_off bs addr

unfoldable pub addr2map_off : Ranges → ℕ → Option ℕ
addr2map_off d addr =
    if addr == 0
    then some (add64 d.base_offset d.status_base)
    else if addr == 4096
    then some (add64 d.base_offset d.arch_base)
    else if addr == 8192
    then some (add64 d.base_offset d.plat_base)
    else class_addr2map d.dma_buffer addr

-- What remap_pfn_range is asked for, and whether the mapping is made uncached.
pub record Mapping : Type 0 where
  pub pfn : ℕ
  pub sz : ℕ
  pub noncached : Bool

abbrev pub remap : Bool → ℕ → ℕ → ℕ → Ret × Option Mapping
remap remaps off sz kptr =
    if kptr == 0
    then (err enxio, none)
    else if remaps
    then (ok, some (record { pfn = kptr / 4096; sz = sz; noncached = ltb (off / 4096) 4 }))
    else (err eagain, none)

abbrev pub map_at : Bool → Bool → ℕ → ℕ → Option ℕ → Option (Ret × Option Mapping)
map_at sim remaps off sz none = none
map_at true remaps off sz (some kptr) = some (ok, none)
map_at false remaps off sz (some kptr) = some (remap remaps off sz kptr)

-- `sim`: the name begins with "sim". `remaps`: remap_pfn_range succeeds. `none`: a read outside the
-- array of buffers.
unfoldable pub tlkm_device_mmap : Bool → Bool → Ranges → ℕ → ℕ → Option (Ret × Option Mapping)
unfolding addr2map_off
tlkm_device_mmap sim remaps d pgoff sz =
    let off = (pgoff * 2 ^ 12) % 2 ^ 64 in map_at sim remaps off sz (addr2map_off d off)
