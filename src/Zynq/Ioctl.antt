-- ===== src/Zynq/Ioctl.antt =====
-- The calls on the memory of a Zynq device: runtime/kernel/zynq/zynq_ioctl.c, over the DMA buffers. The
-- memory of the user is a function of the offset from `user_addr`; how many bytes stay uncopied, and what
-- dma_alloc_coherent gives, are arguments. Performance counters are no part of it.
pub mod Bulk
pub mod Copy
mod Tests
use tapasco.Base.{
  ℕ, zero, suc, ◌+◌, ◌-◌, ◌^◌, Bool, true, false, Option, none, some, ltb, leb, ◌==◌, ◌&&◌, ◌||◌,
  not, if◌then◌else◌, Ret, ok, err, einval, enomem, eacces,
}
use tapasco.Zynq.Buffers.{
  Zynq, zynq_dmamgmt_alloc, zynq_dmamgmt_dealloc_dma, zynq_dmamgmt_get, zynq_dmamgmt_get_id,
}

-- `struct tlkm_mm_cmd`. An address has no sign, and its comparisons with 0 go one way.
pub record MmCmd : Type 0 where
  pub sz : ℕ
  pub dev_addr : ℕ

-- `struct tlkm_copy_cmd`, with the user's bytes.
pub record CopyCmd : Type 0 where
  pub length : ℕ
  pub user : ℕ → ℕ
  pub dev_addr : ℕ

-- `struct tlkm_bulk_cmd`.
pub record BulkCmd : Type 0 where
  pub mm : MmCmd
  pub copy : CopyCmd

-- -1 as an address.
abbrev pub no_addr : ℕ
no_addr = 2 ^ 64 - 1

-- An allocation's result, with the command that goes back to the user.
abbrev pub allocated : MmCmd → ℕ × Zynq → Ret × MmCmd × Zynq
allocated cmd (zero, z) = (err enomem, cmd, z)
allocated cmd (suc a, z) = (ok, record cmd { dev_addr = suc a }, z)

abbrev pub alloc_unless : Option (ℕ × ℕ) → MmCmd → Zynq → Option ℕ → Ret × MmCmd × Zynq
alloc_unless coherent cmd z (some id) = (err einval, cmd, z)
alloc_unless coherent cmd z none = allocated cmd (zynq_dmamgmt_alloc coherent cmd.sz z)

pub zynq_ioctl_alloc : Option (ℕ × ℕ) → MmCmd → Zynq → Ret × MmCmd × Zynq
zynq_ioctl_alloc coherent cmd z =
    if cmd.sz == 0 || ltb (2 ^ 27) cmd.sz
    then (err einval, cmd, z)
    else alloc_unless coherent cmd z (zynq_dmamgmt_get cmd.dev_addr z)

-- `none` is a call of dma_free_coherent that does not match an allocation.
pub zynq_ioctl_free : MmCmd → Zynq → Option (Ret × MmCmd × Zynq)
zynq_ioctl_free cmd z =
    elim (zynq_dmamgmt_dealloc_dma cmd.dev_addr z) as (λ _. Option (Ret × MmCmd × Zynq)) [
      | none ↦ none
      | some (_, z') ↦ some (ok, record cmd { dev_addr = no_addr }, z')
    ]

-- The buffer of an address, if it is in use.
abbrev pub buffer_of : ℕ → Zynq → Option ℕ
buffer_of addr z = zynq_dmamgmt_get (zynq_dmamgmt_get_id addr z) z

-- `copy_from_user` to the address `kv`, and `copy_to_user` from it, `n` bytes of them.
abbrev pub copy_from_user : ℕ → ℕ → (ℕ → ℕ) → (ℕ → ℕ) → ℕ → ℕ
copy_from_user kv n user bytes a = if leb kv a && ltb a (kv + n) then user (a - kv) else bytes a

abbrev pub copy_to_user : ℕ → ℕ → (ℕ → ℕ) → (ℕ → ℕ) → ℕ → ℕ
copy_to_user kv n bytes user o = if ltb o n then bytes (kv + o) else user o

-- A buffer without memory counts as none; else its address and its size.
abbrev pub address_of : Option ℕ → Zynq → Option (ℕ × ℕ)
address_of none z = none
address_of (some id) z =
    if (z.elems id).kvirt_addr == 0 then none else some ((z.elems id).kvirt_addr, (z.elems id).len)

abbrev pub copied : ℕ → Ret
copied zero = ok
copied (suc left) = err eacces

-- `none` is a write behind the end of the buffer.
abbrev pub copy_into : ℕ → CopyCmd → Zynq → Option (ℕ × ℕ) → Option (Ret × CopyCmd × Zynq)
copy_into left cmd z none = some (err enomem, cmd, z)
copy_into left cmd z (some (kv, len)) =
    if leb (cmd.length - left) len
    then some (
      copied left,
      cmd,
      record z { bytes = copy_from_user kv (cmd.length - left) cmd.user z.bytes },
    )
    else none

abbrev pub copyto_found : ℕ → CopyCmd → Zynq → Option (Ret × CopyCmd × Zynq)
copyto_found left cmd z = copy_into left cmd z (address_of (buffer_of cmd.dev_addr z) z)

-- Behind the allocation for the transfer.
abbrev pub copyto_allocated : ℕ → CopyCmd → Ret × MmCmd × Zynq → Option (Ret × CopyCmd × Zynq)
copyto_allocated left cmd (err e, mm, z) = some (err e, record cmd { dev_addr = mm.dev_addr }, z)
copyto_allocated left cmd (ok, mm, z) = copyto_found left (record cmd { dev_addr = mm.dev_addr }) z

abbrev pub copyto_at :
    Option (ℕ × ℕ) → ℕ → CopyCmd → Zynq → Option ℕ → Option (Ret × CopyCmd × Zynq)
copyto_at coherent left cmd z (some id) = copyto_found left cmd z
copyto_at coherent left cmd z none =
    copyto_allocated left cmd
      (zynq_ioctl_alloc coherent (record { sz = cmd.length; dev_addr = no_addr }) z)

pub zynq_ioctl_copyto : Option (ℕ × ℕ) → ℕ → CopyCmd → Zynq → Option (Ret × CopyCmd × Zynq)
zynq_ioctl_copyto coherent left cmd z = copyto_at coherent left cmd z (buffer_of cmd.dev_addr z)

-- `none` is a read behind the end of the buffer.
abbrev pub copy_out : ℕ → CopyCmd → Zynq → Option (ℕ × ℕ) → Option (Ret × CopyCmd)
copy_out left cmd z none = some (err einval, cmd)
copy_out left cmd z (some (kv, len)) =
    if leb (cmd.length - left) len
    then some
        (copied left, record cmd { user = copy_to_user kv (cmd.length - left) z.bytes cmd.user })
    else none

pub zynq_ioctl_copyfrom : ℕ → CopyCmd → Zynq → Option (Ret × CopyCmd)
zynq_ioctl_copyfrom left cmd z = copy_out left cmd z (address_of (buffer_of cmd.dev_addr z) z)

abbrev pub bulk_copied : MmCmd → Option (Ret × CopyCmd × Zynq) → Option (Ret × BulkCmd × Zynq)
bulk_copied mm none = none
bulk_copied mm (some (r, copy, z)) = some (r, record { mm = mm; copy = copy }, z)

abbrev pub bulk_copyto :
    Option (ℕ × ℕ) → ℕ → BulkCmd → Ret × MmCmd × Zynq → Option (Ret × BulkCmd × Zynq)
bulk_copyto coherent left cmd (err e, mm, z) = some (err e, record cmd { mm = mm }, z)
bulk_copyto coherent left cmd (ok, mm, z) =
    bulk_copied mm (zynq_ioctl_copyto coherent left (record cmd.copy { dev_addr = mm.dev_addr }) z)

-- The second grant is for an allocation that the copy would make.
pub zynq_ioctl_alloc_copyto :
    Option (ℕ × ℕ) → Option (ℕ × ℕ) → ℕ → BulkCmd → Zynq → Option (Ret × BulkCmd × Zynq)
zynq_ioctl_alloc_copyto coherent coherent' left cmd z =
    bulk_copyto coherent' left cmd (zynq_ioctl_alloc coherent cmd.mm z)

abbrev pub bulk_freed : BulkCmd → Option (Ret × MmCmd × Zynq) → Option (Ret × BulkCmd × Zynq)
bulk_freed cmd none = none
bulk_freed cmd (some (r, mm, z)) = some (r, record cmd { mm = mm }, z)

abbrev pub bulk_free : BulkCmd → Zynq → Option (Ret × CopyCmd) → Option (Ret × BulkCmd × Zynq)
bulk_free cmd z none = none
bulk_free cmd z (some (err e, copy)) = some (err e, record cmd { copy = copy }, z)
bulk_free cmd z (some (ok, copy)) =
    bulk_freed (record cmd { copy = copy })
      (zynq_ioctl_free (record cmd.mm { dev_addr = copy.dev_addr }) z)

pub zynq_ioctl_copyfrom_free : ℕ → BulkCmd → Zynq → Option (Ret × BulkCmd × Zynq)
zynq_ioctl_copyfrom_free left cmd z = bulk_free cmd z (zynq_ioctl_copyfrom left cmd.copy z)
