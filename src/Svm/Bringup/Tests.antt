-- ===== src/Svm/Bringup/Tests.antt =====
-- Bringing shared virtual memory up and down (runtime/kernel/pcie/pcie_svm.c) at concrete outcomes.
use tapasco.Base.{true, [], ◌∷◌, some, ◌≡◌, ◌≢◌, refl, ok, err, ebusy, arith}
use tapasco.Base.Stages.{call}
use tapasco.Svm.Bringup.{
  Outcomes, pcie_init_svm, pcie_exit_svm, queues_stage, interrupts_stage, request_device_pages,
}
use tapasco.Svm.Bringup.Rollback.{exit_svm-init_svm}

abbrev all_well : Outcomes
all_well = record {
  data_kzalloc = true;
  block_kmalloc = true;
  page_fault_alloc = true;
  mem_free_alloc = true;
  pages_free_alloc = true;
  c2h_request = ok;
  h2c_request = ok;
  mmu_request = ok;
  pagemap_kzalloc = true;
  region_request = true;
  memremap = true;
}

abbrev no_irq : Outcomes
no_irq = record all_well { mmu_request = err ebusy }

comes_up : (pcie_init_svm all_well (some (50 ∷ []))).0 ≡ ok
unfolding pcie_init_svm queues_stage interrupts_stage request_device_pages call
comes_up = refl

no_irq_fails : (pcie_init_svm no_irq (some (50 ∷ []))).0 ≢ ok
unfolding pcie_init_svm queues_stage interrupts_stage request_device_pages call
no_irq_fails e = ground arith

leaves :
    pcie_exit_svm (pcie_init_svm all_well (some (50 ∷ []))).1 ≡ some (10 ∷ 9 ∷ 8 ∷ 1 ∷ 0 ∷ 50 ∷ [])
leaves = exit_svm-init_svm all_well (50 ∷ []) comes_up
