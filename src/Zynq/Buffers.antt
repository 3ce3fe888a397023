-- ===== src/Zynq/Buffers.antt =====
-- The DMA buffers of runtime/kernel/zynq/zynq_dmamgmt.c. An address is a number, 0 is NULL. What
-- dma_alloc_coherent gives is an argument, `none` being a failure, and the memory that it gave out
-- is part of the state. The configuration of the device and of its DMA mask changes none of it.
pub mod Valid
pub mod Find
pub mod Run
mod Tests
use tapasco.Base.{
  ℕ, zero, suc, ◌+◌, ◌-◌, ◌^◌, ◌≡◌, Bool, true, false, List, [], ◌∷◌, Option, none, some, ltb, ◌==◌,
  ◌&&◌, ◌||◌, not, if◌then◌else◌,
}
use tapasco.Zynq.Pool.{pool_size, Pool, fsp_get, fsp_put}

-- `struct dma_buf_t`, without its handle, which is 0 throughout.
pub record DmaBuf : Type 0 where
  pub len : ℕ
  pub kvirt_addr : ℕ
  pub dma_addr : ℕ

-- `_dmabuf`; the memory held, its length and DMA address by its address; and the bytes in memory.
pub record Zynq : Type 0 where
  pub elems : ℕ → DmaBuf
  pub pool : Pool
  pub live : ℕ → Option (ℕ × ℕ)
  pub bytes : ℕ → ℕ

abbrev pub init_dma_buf_t : DmaBuf
init_dma_buf_t = record { len = 0; kvirt_addr = 0; dma_addr = 0 }

abbrev pub replace : (ℕ → DmaBuf) → ℕ → DmaBuf → ℕ → DmaBuf
replace f r b q = if r == q then b else f q

-- `none` is the result -1, as a handle 2 ^ 64 - 1.
abbrev pub find_from : ℕ → (ℕ → DmaBuf) → ℕ → ℕ → Option ℕ
find_from zero elems addr id = none
find_from (suc n) elems addr id =
    let later = find_from n elems addr (suc id) in
    if (elems id).dma_addr == addr then some id else later

pub find_dma_addr : ℕ → Zynq → Option ℕ
find_dma_addr addr z = find_from pool_size z.elems addr 0

-- Whatever memory is held stays held.
pub zynq_dmamgmt_init : Zynq → Zynq
zynq_dmamgmt_init z = record z {
  elems = λ i. init_dma_buf_t;
  pool = record { locked = λ i. false; curr = 0 };
}

-- `dma_alloc_coherent`; a new length and DMA address of memory at an address.
abbrev pub hold : (ℕ → Option (ℕ × ℕ)) → ℕ → Option (ℕ × ℕ) → ℕ → Option (ℕ × ℕ)
hold live kv v a = if kv == a then v else live a

abbrev pub alloc_at : Option (ℕ × ℕ) → ℕ → Option ℕ → Zynq → ℕ × Zynq
alloc_at coherent len none z = (0, z)
alloc_at none len (some id) z = (
  0,
  record z {
    elems = replace z.elems id (record (z.elems id) { kvirt_addr = 0 });
    pool = fsp_put id z.pool;
  },
)
alloc_at (some (kv, dma)) len (some id) z = (
  dma,
  record z {
    elems = replace z.elems id (record { len = len; kvirt_addr = kv; dma_addr = dma });
    live = hold z.live kv (some (len, dma));
  },
)

-- The result is the DMA address; the only caller asks for no handle.
pub zynq_dmamgmt_alloc : Option (ℕ × ℕ) → ℕ → Zynq → ℕ × Zynq
zynq_dmamgmt_alloc coherent len z =
    let (r, p) = fsp_get (suc pool_size) z.pool in alloc_at coherent len r (record z { pool = p })

-- `dma_free_coherent`; `none` is a call that does not match an allocation.
abbrev pub dma_free_coherent : DmaBuf → Zynq → Option Zynq
dma_free_coherent b z = elim (z.live b.kvirt_addr) as (λ _. Option Zynq) [
  | none ↦ none
  | some (len, dma) ↦
      if len == b.len && dma == b.dma_addr
      then some (record z { live = hold z.live b.kvirt_addr none })
      else none
]

abbrev pub dealloc_at : ℕ → Option Zynq → Option (ℕ × Zynq)
dealloc_at id none = none
dealloc_at id (some z) =
    some (0, record z { elems = replace z.elems id init_dma_buf_t; pool = fsp_put id z.pool })

pub zynq_dmamgmt_dealloc : ℕ → Zynq → Option (ℕ × Zynq)
zynq_dmamgmt_dealloc id z =
    if ltb id pool_size && not ((z.elems id).kvirt_addr == 0)
    then dealloc_at id (dma_free_coherent (z.elems id) z)
    else some (1, z)

abbrev pub handle : Option ℕ → ℕ
handle none = 2 ^ 64 - 1
handle (some id) = id

pub zynq_dmamgmt_dealloc_dma : ℕ → Zynq → Option (ℕ × Zynq)
zynq_dmamgmt_dealloc_dma addr z = zynq_dmamgmt_dealloc (handle (find_dma_addr addr z)) z

-- The buffer's index stands for the pointer to it.
pub zynq_dmamgmt_get : ℕ → Zynq → Option ℕ
zynq_dmamgmt_get id z = if not (ltb id pool_size) || not (z.pool.locked id) then none else some id

pub zynq_dmamgmt_get_id : ℕ → Zynq → ℕ
zynq_dmamgmt_get_id addr z = handle (find_dma_addr addr z)

abbrev pub exit_one : ℕ → Zynq → Option Zynq
exit_one i z =
    if not ((z.elems i).kvirt_addr == 0)
    then (elim (zynq_dmamgmt_dealloc i z) as (λ _. Option Zynq) [
      | none ↦ none
      | some (_, z') ↦ some z'
    ])
    else some z

-- The rest of the loop, `n` rounds.
abbrev pub exit_from : ℕ → ℕ → Zynq → Option Zynq
exit_from zero i z = some z
exit_from (suc n) i z = elim (exit_one i z) as (λ _. Option Zynq) [
  | none ↦ none
  | some z' ↦ exit_from n (suc i) z'
]

pub zynq_dmamgmt_exit : Zynq → Option Zynq
zynq_dmamgmt_exit z = exit_from pool_size 0 z
