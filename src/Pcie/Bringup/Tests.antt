-- ===== src/Pcie/Bringup/Tests.antt =====
-- The life of a PCIe device (runtime/kernel/pcie/pcie_device.c) at concrete outcomes.
use tapasco.Base.{true, false, [], ◌∷◌, some, ◌≢◌, ok, arith}
use tapasco.Base.Stages.{call}
use tapasco.Svm.Bringup.{request_device_pages}
use tapasco.Svm.Bringup as SvmBringup
use tapasco.Pcie.Bringup.{Outcomes, pcie_device_init_subsystems, claim_msi}

abbrev no_svm : SvmBringup.Outcomes
no_svm = record {
  data_kzalloc = false;
  block_kmalloc = true;
  page_fault_alloc = true;
  mem_free_alloc = true;
  pages_free_alloc = true;
  c2h_request = ok;
  h2c_request = ok;
  mmu_request = ok;
  pagemap_kzalloc = true;
  region_request = true;
  memremap = true;
}

-- A bitstream with the QDMA engine and without the IOMMU.
abbrev all_well : Outcomes
all_well = record {
  data_kzalloc = true;
  enable_device = true;
  request_regions = true;
  mask_64 = false;
  mask_32 = true;
  qdma_in_use = true;
  qdma_init = ok;
  desc_gen_found = false;
  alloc_irq_vectors = true;
  has_mmu = false;
  svm = no_svm;
}

abbrev no_vectors : Outcomes
no_vectors = record all_well { alloc_irq_vectors = false }

no_vectors_fail : (pcie_device_init_subsystems no_vectors (some (20 ∷ []))).0 ≢ ok
unfolding pcie_device_init_subsystems claim_msi call
no_vectors_fail e = ground arith
