-- ===== src/Zynq/Buffers/Valid.antt =====
-- What holds of the buffers of runtime/kernel/zynq/zynq_dmamgmt.c between calls.
use tapasco.Base.{
  ℕ, suc, ◌<◌, ◌≤◌, ◌≡◌, ◌≢◌, refl, ◌∙◌, Option, none, some, ◌==◌, not, arith, Bool-cases, inl, inr,
  ◌⊎◌,
}
use tapasco.Zynq.Pool.{pool_size, Pool, fsp_put}
use tapasco.Zynq.Pool.Least.{IsPacked, IsGot, get_least, put-IsPacked, put-locked}
use tapasco.Zynq.Buffers.{
  Zynq, init_dma_buf_t, replace, hold, alloc_at, zynq_dmamgmt_alloc, zynq_dmamgmt_dealloc,
}

-- A slot is locked as long as it has memory, that memory is held with the slot's length and address,
-- no two slots share memory or a DMA address, and nothing else is held.
pub record IsValid (z : Zynq) : Type 0 where
  pub packed : IsPacked z.pool
  pub used : (i : ℕ) → i < pool_size → z.pool.locked i ≡ not ((z.elems i).kvirt_addr == 0)
  pub held :
      (i : ℕ)
      → i < pool_size
      → 0 < (z.elems i).kvirt_addr
      → z.live (z.elems i).kvirt_addr ≡ some ((z.elems i).len, (z.elems i).dma_addr)
  pub addressed :
      (i : ℕ) → i < pool_size → ((z.elems i).kvirt_addr == 0) ≡ ((z.elems i).dma_addr == 0)
  pub apart :
      (i j : ℕ)
      → i < pool_size
      → j < pool_size
      → 0 < (z.elems i).kvirt_addr
      → i ≢ j
      → ((z.elems i).kvirt_addr ≢ (z.elems j).kvirt_addr)
        × ((z.elems i).dma_addr ≢ (z.elems j).dma_addr)
  pub owned :
      (a : ℕ) (b : ℕ × ℕ)
      → z.live a ≡ some b
      → (i : ℕ) × (i < pool_size) × ((z.elems i).kvirt_addr ≡ a) × (0 < a)

-- What dma_alloc_coherent promises: memory that is not held, at an address and a DMA address that
-- are not 0 and in no use.
abbrev pub IsGrant : Zynq → Option (ℕ × ℕ) → Type 0
IsGrant z none = Unit
IsGrant z (some (kv, dma)) =
    (0 < kv)
    × (0 < dma)
    × (z.live kv ≡ none)
    × ((i : ℕ) → i < pool_size → (z.elems i).dma_addr ≢ dma)

alloc_at-IsValid :
    (c : Option (ℕ × ℕ)) (len : ℕ) (z : Zynq) (r : Option ℕ) (p : Pool)
    → IsValid z
    → IsGrant z c
    → IsGot z.pool (r, p)
    → IsValid (alloc_at c len r (record z { pool = p })).1
alloc_at-IsValid c len z none p v g (least, same, packed) = record {
  packed = packed;
  used = λ i h. same i ∙ v.used i h;
  held = v.held;
  addressed = v.addressed;
  apart = v.apart;
  owned = v.owned;
}
alloc_at-IsValid none len z (some id) p v g ((small, free, below), same, packed) = record {
  packed = put-IsPacked id p packed;
  used = λ i h. grind (arith, put-locked id p i small, same i, v.used i h);
  held = λ i h. grind (arith, v.held i h);
  addressed = λ i h. grind (arith, v.addressed i h, v.used i h);
  apart = λ i j hi hj pos n.
      let old = v.apart i j hi hj in
      (λ e. grind (arith, old, v.used id small), λ e. grind (arith, old, v.used id small));
  owned =
      λ a b e. let (x, hx, at, pos) = v.owned a b e in (x, hx, grind (arith, v.used id small), pos);
}
alloc_at-IsValid (some (kv, dma)) len z (some id) p v (k0, d0, fresh, new)
      ((small, free, below), same, packed) =
    record {
      packed = packed;
      used = λ i h. grind (arith, same i, v.used i h);
      held = λ i h. grind (arith, v.held i h);
      addressed = λ i h. grind (arith, v.addressed i h);
      apart = λ i j hi hj pos n.
          let old = v.apart i j hi hj in
          (
            λ e. grind (arith, old, v.held i hi, v.held j hj),
            λ e. grind (arith, old, new i hi, new j hj),
          );
      owned = λ a b e. elim (Bool-cases (kv == a)) [
        | inl this ↦ (id, small, grind arith, grind arith)
        | inr other ↦
            let (x, hx, at, pos) = v.owned a b (rw other at e) in
            (x, hx, grind (arith, v.used id small), pos)
      ];
    }

-- What an allocation gives: the first slot without memory has the memory that dma_alloc_coherent gave;
-- or nothing, as all slots have memory or dma_alloc_coherent gave none.
abbrev pub Allocated : Option (ℕ × ℕ) → ℕ → Zynq → ℕ × Zynq → Type 0
Allocated c len z (a, z') =
    ((a ≡ 0)
      × (z'.live ≡ z.live)
      × ((i : ℕ) → (z'.elems i).kvirt_addr ≡ (z.elems i).kvirt_addr)
      × ((c ≡ none) ⊎ ((i : ℕ) → i < pool_size → 0 < (z.elems i).kvirt_addr)))
    ⊎ ((kv : ℕ) × (id : ℕ) × (c ≡ some (kv, a))
        × (id < pool_size)
        × ((z.elems id).kvirt_addr ≡ 0)
        × ((i : ℕ) → i < id → 0 < (z.elems i).kvirt_addr)
        × (z'.live ≡ hold z.live kv (some (len, a)))
        × (z'.elems ≡ replace z.elems id (record { len = len; kvirt_addr = kv; dma_addr = a })))

alloc_at_lem :
    (c : Option (ℕ × ℕ)) (len : ℕ) (z : Zynq) (r : Option ℕ) (p : Pool)
    → IsValid z
    → IsGot z.pool (r, p)
    → Allocated c len z (alloc_at c len r (record z { pool = p }))
alloc_at_lem c len z none p v (full, _, _) =
    inl (refl, refl, λ i. refl, inr (λ i h. grind (arith, full i h, v.used i h)))
alloc_at_lem none len z (some id) p v ((small, free, _), _, _) =
    inl (refl, refl, λ i. grind (arith, v.used id small), inl refl)
alloc_at_lem (some (kv, dma)) len z (some id) p v ((small, free, below), _, _) = inr (
  kv,
  id,
  refl,
  small,
  grind (arith, v.used id small),
  λ i h. grind (arith, below i h, v.used i),
  refl,
  refl,
)

pub alloc_lem :
    (c : Option (ℕ × ℕ)) (len : ℕ) (z : Zynq)
    → IsValid z
    → IsGrant z c
    → IsValid (zynq_dmamgmt_alloc c len z).1 × Allocated c len z (zynq_dmamgmt_alloc c len z)
unfolding zynq_dmamgmt_alloc
alloc_lem c len z v g =
    let got = get_least (suc pool_size) z.pool v.packed (omega arith) in
    (alloc_at-IsValid c len z _ _ v g got, alloc_at_lem c len z _ _ v got)

-- The state behind a deallocation of the slot `id`.
abbrev pub without : ℕ → Zynq → Zynq
without id z = record z {
  elems = replace z.elems id init_dma_buf_t;
  pool = fsp_put id z.pool;
  live = hold z.live (z.elems id).kvirt_addr none;
}

pub without-IsValid :
    (id : ℕ) (z : Zynq)
    → id < pool_size
    → 0 < (z.elems id).kvirt_addr
    → IsValid z
    → IsValid (without id z)
without-IsValid id z small pos v = record {
  packed = put-IsPacked id z.pool v.packed;
  used = λ i h. grind (arith, put-locked id z.pool i small, v.used i h);
  held = λ i h. grind (arith, v.held i h, v.apart id i small h pos);
  addressed = λ i h. grind (arith, v.addressed i h);
  apart = λ i j hi hj pos n.
      let old = v.apart i j hi hj in
      (λ e. grind (arith, old), λ e. grind (arith, old, v.addressed i hi, v.addressed j hj));
  owned = λ a b e. elim (Bool-cases ((z.elems id).kvirt_addr == a)) [
    | inl this ↦ absurd (ground (arith, e))
    | inr other ↦ let (x, hx, at, pos) = v.owned a b (rw other at e) in (x, hx, grind arith, pos)
  ];
}

pub dealloc_used :
    (id : ℕ) (z : Zynq)
    → id < pool_size
    → 0 < (z.elems id).kvirt_addr
    → IsValid z
    → zynq_dmamgmt_dealloc id z ≡ some (0, without id z)
unfolding zynq_dmamgmt_dealloc
dealloc_used id z small pos v = grind (arith, v.held id small pos)

pub dealloc_unused :
    (id : ℕ) (z : Zynq)
    → (pool_size ≤ id) ⊎ ((z.elems id).kvirt_addr ≡ 0)
    → zynq_dmamgmt_dealloc id z ≡ some (1, z)
unfolding zynq_dmamgmt_dealloc
dealloc_unused id z h = grind arith
