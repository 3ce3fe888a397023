-- ===== src/Zynq/Buffers/Find.antt =====
-- The search for a DMA address in runtime/kernel/zynq/zynq_dmamgmt.c.
use tapasco.Base.{
  ℕ, zero, suc, ◌+◌, ◌<◌, ◌≤◌, ◌≡◌, ◌≢◌, refl, sym, none, some, ltb, ◌==◌, arith, Bool-cases, inl,
  inr, ◌⊎◌,
}
use tapasco.Zynq.Pool.{pool_size}
use tapasco.Zynq.Buffers.{
  DmaBuf, Zynq, find_from, find_dma_addr, zynq_dmamgmt_get, zynq_dmamgmt_get_id,
}
use tapasco.Zynq.Buffers.Valid.{IsValid}

find_from_lem :
    (n : ℕ) (elems : ℕ → DmaBuf) (addr k id : ℕ)
    → k ≤ id
    → id < k + n
    → (elems id).dma_addr ≡ addr
    → ((j : ℕ) → k ≤ j → j < id → (elems j).dma_addr ≢ addr)
    → find_from n elems addr k ≡ some id
find_from_lem zero elems addr k id h h' e least = absurd (omega arith)
find_from_lem (suc n) elems addr k id h h' e least = elim (Bool-cases (k == id)) [
  | inl here ↦ grind arith
  | inr later ↦ grind (
    arith,
    least k,
    find_from_lem n elems addr (suc k) id (grind arith) (omega arith) e
        (λ j a b. least j (omega arith) b),
  )
]

-- The search finds the one slot that has the address.
pub find_used :
    (id : ℕ) (z : Zynq)
    → id < pool_size
    → 0 < (z.elems id).kvirt_addr
    → IsValid z
    → find_dma_addr (z.elems id).dma_addr z ≡ some id
unfolding find_dma_addr
find_used id z small pos v =
    find_from_lem pool_size z.elems (z.elems id).dma_addr 0 id (omega arith) small refl
      (λ j _ below e. (v.apart id j small (omega arith) pos (omega arith)).1 (sym e))

find_from_hit :
    (n : ℕ) (elems : ℕ → DmaBuf) (addr k : ℕ) {id : ℕ}
    → find_from n elems addr k ≡ some id
    → (id < k + n) × ((elems id).dma_addr ≡ addr)
find_from_hit zero elems addr k e = ground arith
find_from_hit (suc n) elems addr k {id} e = elim (Bool-cases ((elems k).dma_addr == addr)) [
  | inl here ↦ grind arith
  | inr later ↦
      let (h, at) = find_from_hit n elems addr (suc k) (rw later at e) in (omega arith, at)
]

-- What the search finds has the address.
pub find_hit :
    (addr : ℕ) (z : Zynq) {id : ℕ}
    → find_dma_addr addr z ≡ some id
    → (id < pool_size) × ((z.elems id).dma_addr ≡ addr)
unfolding find_dma_addr
find_hit addr z e = find_from_hit pool_size z.elems addr 0 e

pub get_used :
    (id : ℕ) (z : Zynq)
    → id < pool_size
    → 0 < (z.elems id).kvirt_addr
    → IsValid z
    → zynq_dmamgmt_get id z ≡ some id
unfolding zynq_dmamgmt_get
get_used id z small pos v = grind (arith, v.used id small)

pub get_unused :
    (id : ℕ) (z : Zynq)
    → IsValid z
    → (pool_size ≤ id) ⊎ ((z.elems id).kvirt_addr ≡ 0)
    → zynq_dmamgmt_get id z ≡ none
unfolding zynq_dmamgmt_get
get_unused id z v (inl outside) = grind arith
get_unused id z v (inr blank) = elim (Bool-cases (ltb id pool_size)) [
  | inl inside ↦ grind (arith, v.used id)
  | inr outside ↦ grind arith
]

-- The buffer of an address that a slot in use has is that slot.
pub get_id_used :
    (id : ℕ) (z : Zynq)
    → id < pool_size
    → 0 < (z.elems id).kvirt_addr
    → IsValid z
    → zynq_dmamgmt_get (zynq_dmamgmt_get_id (z.elems id).dma_addr z) z ≡ some id
unfolding zynq_dmamgmt_get_id
get_id_used id z small pos v = rw (find_used id z small pos v) (get_used id z small pos v)
