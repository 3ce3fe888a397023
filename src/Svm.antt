-- ===== src/Svm.antt =====
-- Shared virtual memory of PCIe devices: runtime/kernel/pcie/pcie_svm.c.
pub mod Memory
pub mod Faults
pub mod Commands
pub mod Waits
pub mod Copies
pub mod Pages
pub mod Intervals
pub mod Bringup
