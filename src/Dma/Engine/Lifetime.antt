-- ===== src/Dma/Engine/Lifetime.antt =====
-- What the setup of the DMA engine holds, and that its rollback and its exit give it back
-- (runtime/kernel/dma/tlkm_dma.c).
use tapasco.Base.{
  ℕ, zero, suc, ◌+◌, ◌≡◌, ◌≢◌, refl, ap, [], true, false, List, ◌∷◌, some, Ret, ok, err, enodev,
  ◌⊎◌, inl, inr, arith, Bool-cases, ◌==◌,
}
use tapasco.Dma.{chunks}
use tapasco.Dma.Engine.{
  Engine, Allocation, granted, refused, unmapped, kept_by, Outcomes, regs, read_buf, write_buf,
  alloc_from, free_down, tlkm_dma_init, tlkm_dma_exit, detect, err_dma_bufs_read,
  err_dma_bufs_write,
}

-- The first `i` buffers beside what was held.
abbrev pub stack : (ℕ → ℕ) → ℕ → List ℕ → List ℕ
stack name zero h = h
stack name (suc i) h = name i ∷ stack name i h

free_down_lem :
    (name : ℕ → ℕ) (i : ℕ) (h : List ℕ) → free_down name i (some (stack name i h)) ≡ some h
free_down_lem name zero h = refl
free_down_lem name (suc i) h =
    let same : (name i == name i) ≡ true = ground arith in rw same (free_down_lem name i h)

Allocation-cases : (a : Allocation) → (a ≡ granted) ⊎ (a ≡ refused) ⊎ (a ≡ unmapped)
Allocation-cases granted = inl refl
Allocation-cases refused = inr (inl refl)
Allocation-cases unmapped = inr (inr refl)

-- The loop stops at the first failure and holds the buffers before it, or it holds all.
alloc_from_lem :
    (o : ℕ → Allocation) (name : ℕ → ℕ) (n i m : ℕ) (h : List ℕ)
    → i + n ≡ m
    → (alloc_from o name n i (some (stack name i h)) ≡ (true, m, some (stack name m h)))
      ⊎ ((j : ℕ) × (o j ≢ granted)
          × (alloc_from o name n i (some (stack name i h)) ≡ (false, j, some (stack name j h))))
alloc_from_lem o name zero i m h e =
    let same : i ≡ m = omega arith in inl (ap (λ k. (true, k, some (stack name k h))) same)
alloc_from_lem o name (suc n) i m h e = elim (Allocation-cases (o i)) [
  | inl given ↦ elim (alloc_from_lem o name n (suc i) m h (omega arith)) [
    | inl all ↦ inl (rw (alloc_from, given) all)
    | inr (j, fails, stops) ↦ inr (j, fails, rw (alloc_from, given) stops)
  ]
  | inr (inl none_there) ↦
      inr (i, (λ g. ground (arith, none_there, g)), rw (alloc_from, none_there) refl)
  | inr (inr kept) ↦ inr (i, (λ g. ground (arith, kept, g)), rw (alloc_from, kept) refl)
]

abbrev all_held : List ℕ → List ℕ
all_held h = stack write_buf chunks (stack read_buf chunks (regs ∷ h))

exit_held :
    (h : List ℕ)
    → tlkm_dma_exit (record { mapped = true; held = some (all_held h); lost = [] })
      ≡ record { mapped = false; held = some h; lost = [] }
unfolding tlkm_dma_exit
exit_held h = refl

-- What a failed setup loses: nothing, or what the allocation that failed keeps of its buffer.
abbrev pub IsLost : Outcomes → List ℕ → Type 0
IsLost o lost =
    (lost ≡ [])
    ⊎ ((j : ℕ) × (o.reads j ≢ granted) × (lost ≡ kept_by (o.reads j) (read_buf j)))
    ⊎ ((j : ℕ) × (o.writes j ≢ granted) × (lost ≡ kept_by (o.writes j) (write_buf j)))

-- A setup that fails has given everything back already but for what an allocation keeps.
abbrev pub Settled : Outcomes → List ℕ → Ret × Engine → Type 0
Settled o h (r, e) =
    (((r ≡ ok) × (e.lost ≡ [])) ⊎ ((r ≡ err enodev) × (e.held ≡ some h) × IsLost o e.lost))
    × (tlkm_dma_exit e ≡ record { mapped = false; held = some h; lost = e.lost })

unmapped_exit :
    (o : Outcomes) (lost h : List ℕ)
    → IsLost o lost
    → Settled o h (err enodev, record { mapped = false; held = some h; lost = lost })
unfolding tlkm_dma_exit
unmapped_exit o lost h l = (inr (refl, refl, l), refl)

reads_fail :
    (o : Outcomes) (lost : List ℕ) (j : ℕ) (h : List ℕ)
    → IsLost o lost
    → Settled o h (err_dma_bufs_read lost j (some (stack read_buf j (regs ∷ h))))
reads_fail o lost j h l = rw (free_down_lem read_buf j (regs ∷ h)) (unmapped_exit o lost h l)

writes_fail :
    (o : Outcomes) (lost : List ℕ) (j : ℕ) (h : List ℕ)
    → IsLost o lost
    → Settled o h
        (err_dma_bufs_write lost j (some (stack write_buf j (stack read_buf chunks (regs ∷ h)))))
writes_fail o lost j h l =
    rw (free_down_lem write_buf j (stack read_buf chunks (regs ∷ h))) (reads_fail o lost chunks h l)

-- Whatever the calls of a setup of the DMA engine return, the exit behind it gives back all that
-- is held, each resource once. A setup that succeeds has lost no memory; one that fails returns
-- ENODEV and has given all back before, but for the memory of the buffer whose allocation failed,
-- if that allocation keeps it.
pub engine_lifetime : (o : Outcomes) (h : List ℕ) → Settled o h (tlkm_dma_init o (some h))
unfolding tlkm_dma_init
engine_lifetime o h = elim (Bool-cases o.ioremap) [
  | inr absent ↦ rw absent (unmapped_exit o [] h (inl refl))
  | inl there ↦ elim (Bool-cases (detect o.detects)) [
    | inr unknown ↦ rw (there, unknown) (unmapped_exit o [] h (inl refl))
    | inl known ↦ elim (alloc_from_lem o.reads read_buf chunks 0 chunks (regs ∷ h) refl) [
      | inr (j, fails, stops) ↦
          rw (there, known, stops) (reads_fail o _ j h (inr (inl (j, fails, refl))))
      | inl reads ↦
          elim (alloc_from_lem o.writes write_buf chunks 0 chunks (stack read_buf chunks (regs ∷ h))
            refl) [
              | inr (j, fails, stops) ↦
                  rw (there, known, reads, stops) (writes_fail o _ j h (inr (inr (j, fails, refl))))
              | inl writes ↦ rw (there, known, reads, writes) (inl (refl, refl), exit_held h)
            ]
    ]
  ]
]
