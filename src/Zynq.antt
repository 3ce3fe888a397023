-- ===== src/Zynq.antt =====
-- Zynq devices: runtime/kernel/zynq.
pub mod Pool
pub mod Buffers
pub mod Ioctl
