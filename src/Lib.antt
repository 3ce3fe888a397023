-- ===== src/Lib.antt =====
-- TaPaSCo: the Linux kernel module that connects FPGA devices to user space (runtime/kernel).
--
-- The parts and how they interact. The bus holds the devices that the driver has found, each with
-- a number. A process opens the control file of the driver and creates and destroys devices on
-- it, which looks them up on the bus and counts the process as an exclusive, shared or monitoring
-- user; closing the file releases what is left. A device that joins the bus is set up (its
-- registers are mapped, its own control file is created, the subsystems of its class are brought
-- up), and taken down when it leaves. On a device's control file a process registers interrupt
-- lines with event files and moves data with the DMA engine. On PCIe devices with shared virtual
-- memory the driver hands out device memory, keeps the intervals of virtual memory that are on
-- the device, and serves the page faults of the on-FPGA IOMMU. On Zynq devices it hands out DMA
-- buffers from a fixed pool. Paths below are relative to runtime/kernel.
--
-- Base: names of the libraries passed on, lists indexed by native numbers, Boolean tests with
-- their lemmas, the errors of the kernel and the result of a call (Ret; 0 is ok, -E is err E).
--
-- Base/Stages: what the setup functions share: the resources held as a list, the last one first
-- (none: one was given back that was not held), a stage as a call with the label that undoes it
-- when what follows fails.
--
-- Svm/Memory: allocate_device_memory and free_device_memory of pcie/pcie_svm.c. The list of free
-- blocks is a List Block; the operations keep the source's first fit, its cases of merging, and
-- its sums of 64 bits. Whether kmalloc finds memory for a list entry is an argument. Canonical,
-- Cover, RoundTrip and Clients stand on Invariant.
--
-- Svm/Faults: remove_duplicates, pack_array, is_contiguous and the inner loop of
-- handle_iommu_page_fault of pcie/pcie_svm.c. An array with its size is the list of its entries;
-- a deletion in place is a deletion from the list. The loops run on fuel, one unit a round: the
-- number of entries is enough, since a round deletes an entry or goes past one. What
-- svm_migrate_to_device returns is an argument.
--
-- Svm/Commands: the registers that the driver writes to start transfers of pages and to change
-- the TLB (pcie/pcie_svm.c), as the list of the writes in order. The fuel of a transfer is its
-- number of commands and one.
--
-- Svm/Waits: wait_for_c2h_intr and wait_for_h2c_intr of pcie/pcie_svm.c, over the reads of the
-- status register with their times; none: the loop goes on behind the reads given.
--
-- Svm/Copies: the copies of pages from one device to another (pcie/pcie_svm.c): over the network,
-- from device to device over PCIe, and through a buffer in host memory. A copy gives its result
-- and the list of what it asks for, in order: transfers, waits, and the buffer's allocation and
-- release. A page is the number of its frame. What a wait gives, and how many commands the page
-- DMA core reports, are functions of the number of the page that the copy has come to. Fuel is
-- one unit a command, a run of consecutive frames or a round over the buffer, each of which moves
-- a page at least, so that one more than the number of pages is enough.
--
-- Svm/Pages: handle_device_pages_free of pcie/pcie_svm.c over the allocator. A page is the number
-- of its frame. The loop runs on fuel, one unit a run; the number of pages is enough.
--
-- Svm/Intervals: insert_vmem_interval and remove_vmem_interval of pcie/pcie_svm.c; the removal
-- runs on fuel, one unit a node. The kernel's interval tree is a parameter, a record of its calls
-- beside a record of their laws, which a list of nodes fills in the tests. A node's bounds stand
-- for it.
--
-- Svm/Bringup: pcie_init_svm and pcie_exit_svm of pcie/pcie_svm.c as stages. Pcie/Bringup:
-- creation and destruction of a PCIe device and the setup of its subsystems, pcie/pcie_device.c.
-- The outcomes of the kernel's calls are arguments.
--
-- Pcie/Qdma: pcie/pcie_qdma.c, with the log of the writes to registers beside what is held;
-- Base/Steps has the stages over such a state. Start is pcie_qdma_init, Stop pcie_qdma_exit,
-- Events the interrupt handlers. What a read of the command register gives is an argument, by the
-- number of reads before it; a poll makes 99 reads at most, as in C. For a kernel with bus
-- addresses of 64 bits.
--
-- Pcie/Buffers: the calls on DMA and kernel buffers of pcie/pcie_ioctl.c, with the close of the
-- file of pcie/pcie_device.c. The state is the 32 slots, the list of kernel buffers, the memory
-- from kmalloc that is held, and the calls that map and unmap. A slot number past the array is
-- none.
--
-- Bus: tlkm/tlkm_bus.c. A device is what the bus reads of it, its address and its number; the
-- ring of list nodes is the list's head and its entries, and a walk goes round it as in C, past
-- the head. Bus/Enumerate: tlkm_ioctl_enum_devices of tlkm/tlkm_ioctl.c. The results of the
-- allocation and of tlkm_device_init are arguments.
--
-- Device: tlkm_device_acquire and tlkm_device_release of tlkm/tlkm_device.c, under the device's
-- mutex. The counts are words of 64 bits; a write past the end of the array is none.
--
-- Ioctl: open, close, create and destroy of tlkm/tlkm.c and tlkm/tlkm_ioctl.c, over the bus and
-- the counts. An open file is the list of its entries; a sequence of calls of any files is a run.
-- A call runs alone: the calls' accesses to the shared counts are under the device's mutex, and
-- other interleavings are not modelled.
--
-- Setup: tlkm_device_init and tlkm_device_exit of tlkm/tlkm_device.c with what they call in
-- tlkm/tlkm_platform.c, device/tlkm_control.c and device/tlkm_perfc_miscdev.c. The state is the
-- list of resources held and the pointers that say which; giving back what is not held is none.
-- The outcomes of the kernel's and of the class's functions are arguments; a callback of the
-- class that fails may keep something set up, which is listed apart.
--
-- Control: tlkm_device_reg_int of device/tlkm_device_ioctl.c and tlkm_control_release of
-- device/tlkm_control.c: the list of interrupts, and what was asked of the class and of the
-- kernel. The file descriptor may be no event file; on AWS devices (Irq) it is one.
--
-- Irq: the interrupt controllers of AWS devices (pcie/pcie_irq_aws.c) and of Zynq
-- (zynq/zynq_irq.c), with the direct lines of pcie/pcie_irq.c. A controller's pointer into the
-- list of interrupts is the line of the entry, which no two entries share; a controller past the
-- array is none. Handler: the loops over a status word, 32 bits with the lowest first, on fuel of
-- one unit a bit, 32 being enough; a bit that the word does not have is none. Start: requesting
-- the interrupts and giving them back. Service puts the calls of the control file (Control) over
-- the controllers. First, Lines, Release and Delivery carry it.
--
-- Status: tlkm/tlkm_status.c. The entries that the decoder of protocol buffers finds are an
-- argument, and how it ends; an entry past the array is none.
--
-- Dma: tlkm_dma_copy_to of dma/tlkm_dma.c with blue_dma_copy_to of dma/blue_dma.c, for one
-- process. What happens to a chunk is an argument, by the chunk's number. Every command ends, so
-- that wq_processed comes to wq_enqueued in the end and no further; a wait for more is none. The
-- loop runs on fuel, one unit a chunk; one more than the number of chunks is enough.
--
-- Dma/Read: tlkm_dma_copy_from of dma/tlkm_dma.c with blue_dma_copy_from of dma/blue_dma.c. A
-- command waits in a list until it ends, and its bytes come into its buffer when it does; how
-- many end before a wait is an argument, and a wait then lets commands end up to its number. A
-- wait for a number above those given out does not end, which is none. The loop runs on fuel, one
-- unit a chunk, and one more is enough. Dma/Engine: tlkm_dma_init and tlkm_dma_exit, with the
-- registers and the 32 buffers as resources; an allocation that fails may keep its memory.
--
-- Platform/Mapping: the mapping of device memory into user space, tlkm_device_mmap of
-- device/tlkm_device_mmap.c with addr2map_off of tlkm/tlkm_platform.c and
-- pcie_device_addr2map_off of pcie/pcie_device.c. Whether remap_pfn_range succeeds is an
-- argument; a read outside the array of buffers is none.
--
-- Platform: addr2map, tlkm_platform_read and tlkm_platform_write of tlkm/tlkm_platform.c. A
-- mapped range is the list of its bytes; an access past its end is none.
--
-- Zynq/Pool: the pool of zynq/gen_fixed_size_pool.h, with get and put for one thread, and as a
-- step relation in which a step is one atomic operation of one of any number of threads. The
-- search of get runs on fuel, one unit an index; one more than the pool's size is enough.
-- Zynq/Buffers: zynq/zynq_dmamgmt.c over the pool, one call at a time; the memory that
-- dma_alloc_coherent gave out is a function of its address, and freeing anything else is none.
-- Zynq/Ioctl: the calls of zynq/zynq_ioctl.c that allocate, free and copy; the memory of the
-- device and of the user is a function of the address.
--
-- Not modelled: the migration of pages, the search for intervals and the notifiers of
-- pcie/pcie_svm.c; the probe of PCIe devices, and of their interrupts what writes fixed values
-- only; the setup of Zynq devices and the simulated devices; performance counters, and nanopb (a
-- copy of another library); the logging and module glue; and everything outside runtime/kernel
-- (the user-space runtime, the hardware flow and the examples).
pub mod Base
pub mod Irq
pub mod Status
pub mod Svm
pub mod Bus
pub mod Device
pub mod Ioctl
pub mod Setup
pub mod Control
pub mod Dma
pub mod Platform
pub mod Pcie
pub mod Zynq
