-- ===== src/Dma/Copy.antt =====
-- What a write of the DMA engine moves, and what it leaves in the counters
-- (runtime/kernel/dma/tlkm_dma.c).
use tapasco.Base.{
  ℕ, zero, suc, ◌+◌, ◌-◌, ◌%◌, ◌^◌, ◌≤◌, ◌<◌, ◌≡◌, ◌≢◌, ◌⊎◌, inl, inr, Bool, true, false,
  Bool-cases, refl, ap, ◌∙◌, List, [], ◌∷◌, some, ◌==◌, ==_refl, ==_ne, Ret, ok, add64, arith,
  length, none,
}
use tapasco.Dma.{
  chunk_sz, chunks, Counters, Transfer, Outcome, no_mutex, sent, cpy_sz, inc_requested, Progress,
  copy_chunks, tlkm_dma_copy_to, one_chunk, buffer_comes,
}

-- The transfers move `n` bytes from `usr` to `dev` in order, in chunks that are not empty and not
-- larger than a buffer, and each uses the next buffer of the ring, the first one that of the number `k`.
pub data Covers : ℕ → ℕ → ℕ → ℕ → List Transfer → Type 0 where
  nothing : (k usr dev : ℕ) → Covers k usr dev 0 []
  chunk :
      (k : ℕ) (t : Transfer) (n : ℕ) (ts : List Transfer)
      → t.slot ≡ k % chunks
      → 0 < t.size
      → t.size ≤ chunk_sz
      → Covers (k + 1) (add64 t.usr_addr t.size) (add64 t.dev_addr t.size) n ts
      → Covers k t.usr_addr t.dev_addr (t.size + n) (t ∷ ts)

-- The counters are equal: the next chunk's turn comes.
abbrev pub Even : Counters → Type 0
Even c = c.wq_requested ≡ c.wq_enqueued

-- The write returns; what it moves is a prefix of the data. If it succeeds, it moves all of it, and
-- every number that it took was for a transfer.
pub record Copied (k usr dev len : ℕ) (p : Progress) : Type 0 where
  pub back : List Transfer × (Ret × Counters)
  pub returns : p ≡ some back
  pub moved : ℕ
  pub covers : Covers k usr dev moved back.0
  pub within : moved ≤ len
  pub whole : ((moved ≡ len) × (back.1.1.wq_requested ≡ k + length back.0)) ⊎ (back.1.0 ≢ ok)
  pub even : Even back.1.1
  pub room : back.1.1.wq_requested < 2 ^ 64

turn_comes : (c : Counters) → Even c → c.wq_enqueued == c.wq_requested ≡ true
turn_comes c v = rw v (==_refl c.wq_enqueued)

not_zero : (n : ℕ) → suc n == 0 ≡ false
not_zero n = ground arith

copy_chunks-suc :
    (f : ℕ) (o : ℕ → Outcome) (usr dev len : ℕ) (c : Counters)
    → let sz = cpy_sz (suc len) in
      copy_chunks (suc f) o usr dev (suc len) c
      ≡ one_chunk
          (o c.wq_requested)
          (record { usr_addr = usr; dev_addr = dev; slot = c.wq_requested % chunks; size = sz })
          c
          (copy_chunks f o (add64 usr sz) (add64 dev sz) (suc len - sz))
unfolding copy_chunks
copy_chunks-suc f o usr dev len c = rw (not_zero len) refl

-- An aligned write of no bytes on an engine whose counters are 0 never ends, if it is not interrupted.
pub copy_to_nothing :
    (alignment : ℕ) (o : ℕ → Outcome) (f usr dev : ℕ)
    → dev % alignment ≡ 0
    → tlkm_dma_copy_to alignment o true
        (suc f)
        usr
        dev
        0
        (record { wq_requested = 0; wq_enqueued = 0 })
      ≡ none
unfolding tlkm_dma_copy_to copy_chunks
copy_to_nothing alignment o f usr dev a = rw a refl

-- The turn of the chunk behind one that was not enqueued.
no_turn_comes :
    (f : ℕ) (o : ℕ → Outcome) (usr dev len : ℕ) (c : Counters)
    → 0 < len
    → c.wq_enqueued == c.wq_requested ≡ false
    → o c.wq_requested ≡ sent
    → copy_chunks (suc f) o usr dev len c ≡ none
no_turn_comes f o usr dev zero c l w s = absurd (omega arith)
no_turn_comes f o usr dev (suc len) c l w s = elim (Bool-cases (buffer_comes c)) [
  | inl free ↦ rw (copy_chunks-suc f o usr dev len c, s, free, w) refl
  | inr full ↦ rw (copy_chunks-suc f o usr dev len c, s, full) refl
]

chunks_stuck :
    (f : ℕ) (o : ℕ → Outcome) (usr dev len : ℕ) (c : Counters)
    → chunk_sz < suc len
    → Even c
    → c.wq_requested + 1 < 2 ^ 64
    → o c.wq_requested ≡ no_mutex
    → o (c.wq_requested + 1) ≡ sent
    → copy_chunks (suc (suc f)) o usr dev (suc len) c ≡ none
chunks_stuck f o usr dev len c l v room lost next =
    let sz = cpy_sz (suc len) in
    let stuck =
      no_turn_comes f o (add64 usr sz) (add64 dev sz) (suc len - sz) (inc_requested c)
        (ground arith) (==_ne _ _ (omega arith)) (ap o (omega arith) ∙ next) in
    elim (Bool-cases (buffer_comes c)) [
      | inl free ↦ rw (copy_chunks-suc (suc f) o usr dev len c, lost, free, turn_comes c v) stuck
      | inr full ↦ rw (copy_chunks-suc (suc f) o usr dev len c, lost, full) refl
    ]

-- An aligned write of more than one chunk whose first chunk does not get the engine's mutex, from
-- counters that agree and below 2^64 - 1, waits for ever for the turn of its second chunk.
pub copy_to_stuck :
    (alignment : ℕ) (o : ℕ → Outcome) (waited : Bool) (f usr dev len : ℕ) (c : Counters)
    → chunk_sz < len
    → Even c
    → c.wq_requested + 1 < 2 ^ 64
    → dev % alignment ≡ 0
    → o c.wq_requested ≡ no_mutex
    → o (c.wq_requested + 1) ≡ sent
    → tlkm_dma_copy_to alignment o waited (suc (suc f)) usr dev len c ≡ none
unfolding tlkm_dma_copy_to
copy_to_stuck alignment o waited f usr dev zero c l v room a lost next = absurd (omega arith)
copy_to_stuck alignment o waited f usr dev (suc len) c l v room a lost next =
    rw (a, chunks_stuck f o usr dev len c l v room lost next) refl
