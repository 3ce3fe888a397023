-- ===== src/Svm/Bringup/Rollback.antt =====
-- What bringing shared virtual memory up leaves behind when it fails, and what its exit leaves
-- (runtime/kernel/pcie/pcie_svm.c).
use tapasco.Base.{◌≢◌, ℕ, List, [], ◌∷◌, ◌++◌, some, ◌≡◌, refl, ok}
use tapasco.Base.Stages.{
  grabbed-Restores, grabbed-Holds, Restores, Holds, grab-Restores, grab-Holds,
}
use tapasco.Svm.Bringup.{
  svm_data, mem_block, page_fault_queue, dev_mem_free_queue, dev_pages_free_queue, c2h_irq, h2c_irq,
  mmu_irq, pagemap, mem_region, remapped, Outcomes, request_device_pages, interrupts_stage,
  queues_stage, pcie_init_svm, pcie_exit_svm,
}

module _ (o : Outcomes) where
  pub init_svm-Restores : Restores (pcie_init_svm o)
  unfolding pcie_init_svm queues_stage interrupts_stage request_device_pages
  init_svm-Restores = grabbed-Restores _ svm_data _ (
      grabbed-Restores _ mem_block _ (
        grabbed-Restores _ page_fault_queue _ (
          grabbed-Restores _ dev_mem_free_queue _ (
            grabbed-Restores _ dev_pages_free_queue _ (
              grabbed-Restores _ c2h_irq _ (
                grabbed-Restores _ h2c_irq _ (
                  grabbed-Restores _ mmu_irq _ (
                    grabbed-Restores _ pagemap _
                      (grabbed-Restores _ mem_region _ (grab-Restores _ remapped))))))))))

  pages-Holds : Holds (remapped ∷ mem_region ∷ pagemap ∷ []) (request_device_pages o)
  unfolding request_device_pages
  pages-Holds =
      grabbed-Holds _ pagemap (remapped ∷ mem_region ∷ []) _
        (grabbed-Holds _ mem_region (remapped ∷ []) _ (grab-Holds _ remapped))

  interrupts-Holds :
      Holds
        (remapped ∷ mem_region ∷ pagemap ∷ mmu_irq ∷ h2c_irq ∷ c2h_irq ∷ [])
        (interrupts_stage o)
  unfolding interrupts_stage
  interrupts-Holds =
      grabbed-Holds _ c2h_irq (remapped ∷ mem_region ∷ pagemap ∷ mmu_irq ∷ h2c_irq ∷ []) _ (
        grabbed-Holds _ h2c_irq (remapped ∷ mem_region ∷ pagemap ∷ mmu_irq ∷ []) _
          (grabbed-Holds _ mmu_irq (remapped ∷ mem_region ∷ pagemap ∷ []) _ pages-Holds))

  queues-Holds :
      Holds
        (remapped ∷ mem_region ∷ pagemap ∷ mmu_irq ∷ h2c_irq ∷ c2h_irq ∷ dev_pages_free_queue
          ∷ dev_mem_free_queue ∷ page_fault_queue ∷ [])
        (queues_stage o)
  unfolding queues_stage
  queues-Holds =
      grabbed-Holds _ page_fault_queue
        (remapped ∷ mem_region ∷ pagemap ∷ mmu_irq ∷ h2c_irq ∷ c2h_irq ∷ dev_pages_free_queue
          ∷ dev_mem_free_queue ∷ [])
        _
        (grabbed-Holds _ dev_mem_free_queue
          (remapped ∷ mem_region ∷ pagemap ∷ mmu_irq ∷ h2c_irq ∷ c2h_irq ∷ dev_pages_free_queue
            ∷ [])
          _
          (grabbed-Holds _ dev_pages_free_queue
            (remapped ∷ mem_region ∷ pagemap ∷ mmu_irq ∷ h2c_irq ∷ c2h_irq ∷ []) _
            interrupts-Holds))

  pub init_svm-Holds :
      Holds
        (remapped ∷ mem_region ∷ pagemap ∷ mmu_irq ∷ h2c_irq ∷ c2h_irq ∷ dev_pages_free_queue
          ∷ dev_mem_free_queue ∷ page_fault_queue ∷ mem_block ∷ svm_data ∷ [])
        (pcie_init_svm o)
  unfolding pcie_init_svm
  init_svm-Holds =
      grabbed-Holds _ svm_data
        (remapped ∷ mem_region ∷ pagemap ∷ mmu_irq ∷ h2c_irq ∷ c2h_irq ∷ dev_pages_free_queue
          ∷ dev_mem_free_queue ∷ page_fault_queue ∷ mem_block ∷ [])
        _
        (grabbed-Holds _ mem_block
          (remapped ∷ mem_region ∷ pagemap ∷ mmu_irq ∷ h2c_irq ∷ c2h_irq ∷ dev_pages_free_queue
            ∷ dev_mem_free_queue ∷ page_fault_queue ∷ [])
          _ queues-Holds)

-- What a successful setup holds.
abbrev pub svm_up : List ℕ
svm_up =
    remapped ∷ mem_region ∷ pagemap ∷ mmu_irq ∷ h2c_irq ∷ c2h_irq ∷ dev_pages_free_queue
    ∷ dev_mem_free_queue ∷ page_fault_queue ∷ mem_block ∷ svm_data ∷ []

-- What the exit leaves: what the device manages, and the block of memory.
abbrev pub left : List ℕ
left = remapped ∷ mem_region ∷ pagemap ∷ mem_block ∷ svm_data ∷ []

-- T
pub exit_svm-init_svm :
    (o : Outcomes) (h : List ℕ)
    → (pcie_init_svm o (some h)).0 ≡ ok
    → pcie_exit_svm (pcie_init_svm o (some h)).1 ≡ some (left ++ h)
unfolding pcie_exit_svm
exit_svm-init_svm o h e = rw (init_svm-Holds o h e) refl

-- A setup of shared virtual memory that fails, at whatever call, gives back all that it acquired,
-- each resource once.
pub init_svm_fails :
    (o : Outcomes) (h : List ℕ)
    → (pcie_init_svm o (some h)).0 ≢ ok
    → (pcie_init_svm o (some h)).1 ≡ some h
init_svm_fails o = init_svm-Restores o
