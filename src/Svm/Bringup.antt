-- ===== src/Svm/Bringup.antt =====
-- Bringing shared virtual memory up and down: request_device_pages, pcie_init_svm and pcie_exit_svm of
-- runtime/kernel/pcie/pcie_svm.c. What the kernel's functions return is an argument.
pub mod Rollback
mod Tests
use tapasco.Base.{ℕ, Bool, true, false, Ret, ok, err, Errno, enomem, efault, if◌then◌else◌}
use tapasco.Base.Stages.{Held, release, grab, call}

-- The resources. The first one and the last three are managed by the kernel's device: they go with it.
abbrev pub svm_data : ℕ
svm_data = 0

abbrev pub mem_block : ℕ
mem_block = 1

abbrev pub page_fault_queue : ℕ
page_fault_queue = 2

abbrev pub dev_mem_free_queue : ℕ
dev_mem_free_queue = 3

abbrev pub dev_pages_free_queue : ℕ
dev_pages_free_queue = 4

abbrev pub c2h_irq : ℕ
c2h_irq = 5

abbrev pub h2c_irq : ℕ
h2c_irq = 6

abbrev pub mmu_irq : ℕ
mmu_irq = 7

abbrev pub pagemap : ℕ
pagemap = 8

abbrev pub mem_region : ℕ
mem_region = 9

abbrev pub remapped : ℕ
remapped = 10

-- What the calls give, in their order: whether there is memory or a queue, and results.
pub record Outcomes : Type 0 where
  pub data_kzalloc : Bool
  pub block_kmalloc : Bool
  pub page_fault_alloc : Bool
  pub mem_free_alloc : Bool
  pub pages_free_alloc : Bool
  pub c2h_request : Ret
  pub h2c_request : Ret
  pub mmu_request : Ret
  pub pagemap_kzalloc : Bool
  pub region_request : Bool
  pub memremap : Bool

-- An allocation that gives NULL makes the call fail with `e`.
abbrev pub granted : Bool → Errno → Ret
granted b e = if b then ok else err e

pub request_device_pages : Outcomes → Held → Ret × Held
request_device_pages o = call (grab (granted o.pagemap_kzalloc enomem) pagemap) (release pagemap) (
    call (grab (granted o.region_request enomem) mem_region) (release mem_region)
      (grab (granted o.memremap enomem) remapped))

pub interrupts_stage : Outcomes → Held → Ret × Held
interrupts_stage o = call (grab o.c2h_request c2h_irq) (release c2h_irq) (
    call (grab o.h2c_request h2c_irq) (release h2c_irq)
      (call (grab o.mmu_request mmu_irq) (release mmu_irq) (request_device_pages o)))

pub queues_stage : Outcomes → Held → Ret × Held
queues_stage o =
    call (grab (granted o.page_fault_alloc efault) page_fault_queue) (release page_fault_queue) (
      call (grab (granted o.mem_free_alloc efault) dev_mem_free_queue) (release dev_mem_free_queue)
        (call (grab (granted o.pages_free_alloc efault) dev_pages_free_queue)
          (release dev_pages_free_queue) (interrupts_stage o)))

pub pcie_init_svm : Outcomes → Held → Ret × Held
pcie_init_svm o =
    call (grab (granted o.data_kzalloc enomem) svm_data) (release svm_data)
      (call (grab (granted o.block_kmalloc enomem) mem_block) (release mem_block) (queues_stage o))

unfoldable pub pcie_exit_svm : Held → Held
pcie_exit_svm h =
    let irqs = release c2h_irq (release h2c_irq (release mmu_irq h)) in
    release dev_pages_free_queue (release dev_mem_free_queue (release page_fault_queue irqs))
