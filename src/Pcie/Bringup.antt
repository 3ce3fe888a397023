-- ===== src/Pcie/Bringup.antt =====
-- Creating and destroying a PCIe device and its subsystems: runtime/kernel/pcie/pcie_device.c, built
-- with shared virtual memory for a kernel from 5.10 on. What the kernel's functions return, which
-- components the bitstream has, and the setup of the QDMA engine are arguments.
pub mod Rollback
mod Tests
use tapasco.Base.{
  ℕ, Bool, true, false, ◌||◌, List, Option, none, some, Ret, ok, err, enodev, enomem, enospc,
  if◌then◌else◌,
}
use tapasco.Base.Stages.{Held, remove, acquire, release, grab, call, done}
use tapasco.Svm.Bringup.{granted, pcie_init_svm, pcie_exit_svm}
use tapasco.Svm.Bringup as SvmBringup

abbrev pub private_data : ℕ
private_data = 20

abbrev pub pci_enabled : ℕ
pci_enabled = 21

abbrev pub pci_regions : ℕ
pci_regions = 22

abbrev pub msi : ℕ
msi = 23

abbrev pub qdma : ℕ
qdma = 24

-- The mapping that `pcie_qdma_exit` leaves when it does not find the descriptor generator.
abbrev pub ack_register_aws : ℕ
ack_register_aws = 25

-- What the bitstream has, and what the calls give.
pub record Outcomes : Type 0 where
  pub data_kzalloc : Bool
  pub enable_device : Bool
  pub request_regions : Bool
  pub mask_64 : Bool
  pub mask_32 : Bool
  pub qdma_in_use : Bool
  pub qdma_init : Ret
  pub desc_gen_found : Bool
  pub alloc_irq_vectors : Bool
  pub has_mmu : Bool
  pub svm : SvmBringup.Outcomes

pub claim_device : Outcomes → Held → Ret × Held
claim_device o =
    call (grab (granted o.enable_device enodev) pci_enabled) (release pci_enabled)
      (grab (granted o.request_regions enodev) pci_regions)

pub release_device : Held → Held
release_device h = release pci_enabled (release pci_regions h)

-- A 64-bit mask, or else one of 32 bits.
pub configure_device : Outcomes → Held → Ret × Held
configure_device o h = (granted (o.mask_64 || o.mask_32) enodev, h)

pub claim_msi : Outcomes → Held → Ret × Held
claim_msi o = grab (granted o.alloc_irq_vectors enospc) msi

-- `pci_free_irq_vectors` does nothing if there are none.
abbrev pub release_if_held : ℕ → Held → Held
release_if_held r none = none
release_if_held r (some h) = elim (remove r h) [ none ↦ some h | some h' ↦ some h' ]

pub release_msi : Held → Held
release_msi = release_if_held msi

pub pcie_device_create : Outcomes → Held → Ret × Held
unfolding claim_device release_device configure_device
pcie_device_create o =
    call (grab (granted o.data_kzalloc enomem) private_data) (release private_data)
      (call (claim_device o) release_device (configure_device o))

pub pcie_device_destroy : Held → Held
unfolding release_msi release_device
pcie_device_destroy h = release private_data (release_device (release_msi h))

abbrev pub optional : Bool → (Held → Ret × Held) → Held → Ret × Held
optional b f = if b then f else done

abbrev pub kept : Held → Held
kept h = h

-- The labels for a failure behind the QDMA engine's setup give nothing back.
pub pcie_device_init_subsystems : Outcomes → Held → Ret × Held
unfolding claim_msi release_msi
pcie_device_init_subsystems o =
    call (optional o.qdma_in_use (grab o.qdma_init qdma)) kept
      (call (claim_msi o) release_msi (optional o.has_mmu (pcie_init_svm o.svm)))

-- The exit of the QDMA engine, by whether it finds the descriptor generator; its failure is only
-- logged.
abbrev pub exit_qdma : Bool → Held → Held
exit_qdma true h = release qdma h
exit_qdma false h = acquire ack_register_aws (release qdma h)

-- With the components that the bitstream has: the IOMMU, and the QDMA engine.
pub exit_parts : Bool → Bool → Bool → Held → Held
unfolding release_msi
exit_parts has_mmu qdma_in_use found h =
    let h' : Held = release_msi (if has_mmu then pcie_exit_svm h else h) in
    if qdma_in_use then exit_qdma found h' else h'

pub pcie_device_exit_subsystems : Outcomes → Held → Held
unfolding exit_parts
pcie_device_exit_subsystems o = exit_parts o.has_mmu o.qdma_in_use o.desc_gen_found
