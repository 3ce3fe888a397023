-- ===== src/Zynq/Buffers/Run.antt =====
-- Sequences of allocations and deallocations of DMA buffers, with the exit at the end
-- (runtime/kernel/zynq/zynq_dmamgmt.c).
use tapasco.Base.{
  ℕ, zero, suc, ◌+◌, ◌<◌, ◌≤◌, ◌≡◌, refl, ap, ◌∙◌, List, [], ◌∷◌, Option, none, some, ltb, ◌==◌,
  arith, Bool-cases, Option-cases, inl, inr, ◌⊎◌,
}
use tapasco.Zynq.Pool.{pool_size}
use tapasco.Zynq.Buffers.{
  Zynq, hold, replace, handle, find_dma_addr, zynq_dmamgmt_init, zynq_dmamgmt_alloc,
  zynq_dmamgmt_dealloc, zynq_dmamgmt_dealloc_dma, zynq_dmamgmt_exit, exit_one, exit_from,
}
use tapasco.Zynq.Buffers.Valid.{
  IsValid, IsGrant, alloc_lem, without, without-IsValid, dealloc_used, dealloc_unused,
}
use tapasco.Zynq.Buffers.Find.{find_used}

pub init-IsValid : (z : Zynq) → ((a : ℕ) → z.live a ≡ none) → IsValid (zynq_dmamgmt_init z)
unfolding zynq_dmamgmt_init
init-IsValid z idle = record {
  packed = λ i below. absurd (omega arith);
  used = λ i h. refl;
  held = λ i h pos. absurd (omega arith);
  addressed = λ i h. refl;
  apart = λ i j hi hj pos n. absurd (omega arith);
  owned = λ a b e. absurd (ground (arith, idle a));
}

-- A deallocation frees the slot's memory, or has no effect.
abbrev pub Deallocated : ℕ → Zynq → ℕ × Zynq → Type 0
Deallocated id z r =
    ((id < pool_size) × (0 < (z.elems id).kvirt_addr) × (r ≡ (0, without id z)))
    ⊎ (((pool_size ≤ id) ⊎ ((z.elems id).kvirt_addr ≡ 0)) × (r ≡ (1, z)))

pub dealloc_lem :
    (id : ℕ) (z : Zynq)
    → IsValid z
    → (r : ℕ × Zynq) × (zynq_dmamgmt_dealloc id z ≡ some r) × Deallocated id z r × IsValid r.1
dealloc_lem id z v = elim (Bool-cases (ltb id pool_size)) [
  | inr outside ↦
      let out : pool_size ≤ id = ground arith in
      (_, dealloc_unused id z (inl out), inr (inl out, refl), v)
  | inl inside ↦ elim (Bool-cases ((z.elems id).kvirt_addr == 0)) [
    | inl null ↦
        let empty : (z.elems id).kvirt_addr ≡ 0 = ground arith in
        (_, dealloc_unused id z (inr empty), inr (inr empty, refl), v)
    | inr there ↦
        let small : id < pool_size = ground arith in
        let pos : 0 < (z.elems id).kvirt_addr = ground arith in
        (_, dealloc_used id z small pos v, inl (small, pos, refl), without-IsValid id z small pos v)
  ]
]

pub dealloc_dma_lem :
    (addr : ℕ) (z : Zynq)
    → IsValid z
    → (r : ℕ × Zynq) × (zynq_dmamgmt_dealloc_dma addr z ≡ some r)
      × Deallocated (handle (find_dma_addr addr z)) z r
      × IsValid r.1
unfolding zynq_dmamgmt_dealloc_dma
dealloc_dma_lem addr z v = dealloc_lem (handle (find_dma_addr addr z)) z v

-- The state `z'` has one slot more in use than `z`.
abbrev pub Undone : Zynq → ℕ × Zynq → Type 0
Undone z (a, z') =
    (u : Zynq) × (zynq_dmamgmt_dealloc_dma a z' ≡ some (0, u))
    × ((q : ℕ) → u.live q ≡ z.live q)
    × ((i : ℕ) → (u.elems i).kvirt_addr ≡ (z.elems i).kvirt_addr)

pub slot-Undone :
    (len kv a id : ℕ) (z z' : Zynq)
    → IsValid z'
    → 0 < kv
    → z.live kv ≡ none
    → id < pool_size
    → (z.elems id).kvirt_addr ≡ 0
    → z'.live ≡ hold z.live kv (some (len, a))
    → z'.elems ≡ replace z.elems id (record { len = len; kvirt_addr = kv; dma_addr = a })
    → Undone z (a, z')
unfolding zynq_dmamgmt_dealloc_dma
slot-Undone len kv a id z z' v pos fresh small blank lives elems =
    let slot : z'.elems id ≡ record { len = len; kvirt_addr = kv; dma_addr = a } =
      ap (λ f. f id) elems ∙ grind arith in
    let here : (z'.elems id).kvirt_addr ≡ kv = ap (λ b. b.kvirt_addr) slot in
    let found = find_used id z' small (omega (arith, here)) v in
    let known : find_dma_addr a z' ≡ some id = rw (← (ap (λ b. b.dma_addr) slot)) found in
    (
      without id z',
      rw known (dealloc_used id z' small (omega (arith, here)) v),
      λ q. rw here (grind (arith, fresh, ap (λ f. f q) lives)),
      λ i. grind (arith, ap (λ f. (f i).kvirt_addr) elems),
    )

pub dealloc_dma-alloc :
    (c : Option (ℕ × ℕ)) (len : ℕ) (z : Zynq)
    → IsValid z
    → IsGrant z c
    → 0 < (zynq_dmamgmt_alloc c len z).0
    → Undone z (zynq_dmamgmt_alloc c len z)
dealloc_dma-alloc c len z v g pos = elim (alloc_lem c len z v g).1 [
  | inl (null, _, _, _) ↦ absurd (omega (arith, null, pos))
  | inr (kv, id, e, small, blank, _, lives, elems) ↦
      let grant : IsGrant z (some (kv, _)) = rw e at g in
      slot-Undone len kv _ id z _ (alloc_lem c len z v g).0 grant.0 grant.2 small blank lives elems
]

-- Slots before `i` have no memory.
abbrev IsEmpty : ℕ → Zynq → Type 0
IsEmpty i z = (j : ℕ) → j < i → (z.elems j).kvirt_addr ≡ 0

exit_one_lem :
    (i : ℕ) (z : Zynq)
    → i < pool_size
    → IsValid z
    → IsEmpty i z
    → (z' : Zynq) × (exit_one i z ≡ some z') × IsValid z' × IsEmpty (suc i) z'
exit_one_lem i z small v empty = elim (Bool-cases ((z.elems i).kvirt_addr == 0)) [
  | inl null ↦ (z, rw null refl, v, λ j h. ground (arith, empty j))
  | inr there ↦
      let pos : 0 < (z.elems i).kvirt_addr = ground arith in
      (
        without i z,
        rw (there, dealloc_used i z small pos v) refl,
        without-IsValid i z small pos v,
        λ j h. ground (arith, empty j),
      )
]

exit_from_lem :
    (n i : ℕ) (z : Zynq)
    → i + n ≤ pool_size
    → IsValid z
    → IsEmpty i z
    → (z' : Zynq) × (exit_from n i z ≡ some z') × IsValid z' × IsEmpty (i + n) z'
exit_from_lem zero i z h v empty = (z, refl, v, λ j h. empty j (omega arith))
exit_from_lem (suc n) i z h v empty =
    let (z', e, v', empty') = exit_one_lem i z (omega arith) v empty in
    let (z'', e', v'', empty'') = exit_from_lem n (suc i) z' (omega arith) v' empty' in
    (z'', rw (e, exit_from) e', v'', λ j h. empty'' j (omega arith))

pub exit_lem :
    (z : Zynq)
    → IsValid z
    → (z' : Zynq) × (zynq_dmamgmt_exit z ≡ some z') × ((a : ℕ) → z'.live a ≡ none)
unfolding zynq_dmamgmt_exit
exit_lem z v =
    let (z', e, v', empty) =
      exit_from_lem pool_size 0 z (omega arith) v (λ j h. absurd (omega arith)) in
    (
      z',
      e,
      λ a. elim (Option-cases (z'.live a)) [
        | inl free ↦ free
        | inr (b, there) ↦
            let (x, hx, at, pos) = v'.owned a b there in absurd (omega (arith, empty x hx, at, pos))
      ],
    )

pub data Call : Type 0 where
  allocates : Option (ℕ × ℕ) → ℕ → Call
  deallocates : ℕ → Call
  deallocates_dma : ℕ → Call

abbrev pub after : Option (ℕ × Zynq) → Option Zynq
after none = none
after (some (_, z)) = some z

pub step : Zynq → Call → Option Zynq
step z (allocates c len) = some (zynq_dmamgmt_alloc c len z).1
step z (deallocates id) = after (zynq_dmamgmt_dealloc id z)
step z (deallocates_dma addr) = after (zynq_dmamgmt_dealloc_dma addr z)

pub run : Zynq → List Call → Option Zynq
run z [] = some z
run z (c ∷ cs) = elim (step z c) as (λ _. Option Zynq) [ none ↦ none | some z' ↦ run z' cs ]

abbrev pub IsFair : Zynq → Call → Type 0
IsFair z (allocates c len) = IsGrant z c
IsFair z (deallocates id) = Unit
IsFair z (deallocates_dma addr) = Unit

-- Every allocation is given what dma_alloc_coherent promises where it is made.
abbrev pub AreFair : Zynq → List Call → Type 0
AreFair z [] = Unit
AreFair z (c ∷ cs) = IsFair z c × ((z' : Zynq) → step z c ≡ some z' → AreFair z' cs)

step-IsValid :
    (z : Zynq) (c : Call) → IsFair z c → IsValid z → (z' : Zynq) × (step z c ≡ some z') × IsValid z'
unfolding step
step-IsValid z (allocates c len) f v = (_, refl, (alloc_lem c len z v f).0)
step-IsValid z (deallocates id) f v = let (r, e, _, v') = dealloc_lem id z v in (r.1, rw e refl, v')
step-IsValid z (deallocates_dma addr) f v =
    let (r, e, _, v') = dealloc_dma_lem addr z v in (r.1, rw e refl, v')

run-IsValid :
    (z : Zynq) (cs : List Call)
    → AreFair z cs
    → IsValid z
    → (z' : Zynq) × (run z cs ≡ some z') × IsValid z'
unfolding run
run-IsValid z [] f v = (z, refl, v)
run-IsValid z (c ∷ cs) f v =
    let (z', e, v') = step-IsValid z c f.0 v in
    let (z'', e', v'') = run-IsValid z' cs (f.1 z' e) v' in (z'', rw (e, run) e', v'')

-- From the initialization with no memory held, any allocations and deallocations, in which
-- dma_alloc_coherent gives fresh memory or fails, run to an end without freeing what is not held,
-- and the exit then frees all that is.
pub buffers_lifetime :
    (z : Zynq) (cs : List Call)
    → ((a : ℕ) → z.live a ≡ none)
    → AreFair (zynq_dmamgmt_init z) cs
    → (u : Zynq) × (v : Zynq) × (run (zynq_dmamgmt_init z) cs ≡ some u)
      × (zynq_dmamgmt_exit u ≡ some v)
      × ((a : ℕ) → v.live a ≡ none)
buffers_lifetime z cs idle f =
    let (u, e, valid) = run-IsValid (zynq_dmamgmt_init z) cs f (init-IsValid z idle) in
    let (v, e', free) = exit_lem u valid in (u, v, e, e', free)
