-- ===== src/Pcie.antt =====
-- PCIe devices: runtime/kernel/pcie.
pub mod Bringup
pub mod Buffers
pub mod Qdma
