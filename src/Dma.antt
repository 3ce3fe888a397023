-- ===== src/Dma.antt =====
-- Writes of the DMA engine: tlkm_dma_copy_to of runtime/kernel/dma/tlkm_dma.c with the copy_to of
-- runtime/kernel/dma/blue_dma.c. One process copies. Every command that the engine is given ends, so that
-- wq_processed, which its interrupts advance, comes to wq_enqueued and no further; a wait for more does
-- not end.
pub mod Copy
pub mod Engine
pub mod Read
mod Tests
use tapasco.Base.{
  ℕ, zero, suc, ◌+◌, ◌-◌, ◌%◌, ◌^◌, Bool, true, false, List, [], ◌∷◌, Option, none, some, ltb, ◌==◌,
  if◌then◌else◌, Ret, ok, err, eagain, eacces, add64,
}

abbrev pub chunk_sz : ℕ
chunk_sz = 262144

abbrev pub chunks : ℕ
chunks = 16

-- `wq_requested` and `wq_enqueued`.
pub record Counters : Type 0 where
  pub wq_requested : ℕ
  pub wq_enqueued : ℕ

-- A command that the engine is given: where from, where to, the buffer between, and how much.
pub record Transfer : Type 0 where
  pub usr_addr : ℕ
  pub dev_addr : ℕ
  pub slot : ℕ
  pub size : ℕ

-- What happens to a chunk: the wait for a buffer is interrupted, the user's memory cannot be read, the
-- wait for the turn is interrupted, the engine's mutex is not got, or all goes well.
pub data Outcome : Type 0 where
  no_buffer no_data no_turn no_mutex sent : Outcome

abbrev pub cpy_sz : ℕ → ℕ
cpy_sz len = if ltb len chunk_sz then len else chunk_sz

abbrev pub inc_requested : Counters → Counters
inc_requested c = record c { wq_requested = add64 c.wq_requested 1 }

abbrev pub inc_enqueued : Counters → Counters
inc_enqueued c = record c { wq_enqueued = add64 c.wq_enqueued 1 }

abbrev pub Progress : Type 0
Progress = Option (List Transfer × (Ret × Counters))

abbrev pub more : Transfer → Progress → Progress
more t none = none
more t (some (ts, r)) = some (t ∷ ts, r)

-- `wq_processed + TLKM_DMA_CHUNKS > last_chunk` holds in the end.
abbrev pub buffer_comes : Counters → Bool
buffer_comes c = ltb c.wq_requested (add64 c.wq_enqueued chunks)

-- A round of the loop behind the wait for a buffer; `rest` is the loop from the next round on. `none` is
-- a wait for a turn that does not come.
abbrev pub with_buffer : Outcome → Transfer → Counters → (Counters → Progress) → Progress
with_buffer no_buffer t c rest = some ([], (err eacces, inc_enqueued (inc_requested c)))
with_buffer no_data t c rest = some ([], (err eagain, inc_enqueued (inc_requested c)))
with_buffer no_turn t c rest = some ([], (err eacces, inc_enqueued (inc_requested c)))
with_buffer no_mutex t c rest =
    if c.wq_enqueued == c.wq_requested then rest (inc_requested c) else none
with_buffer sent t c rest =
    if c.wq_enqueued == c.wq_requested then more t (rest (inc_enqueued (inc_requested c))) else none

-- `none` is also a wait for a buffer that does not come free.
abbrev pub one_chunk : Outcome → Transfer → Counters → (Counters → Progress) → Progress
one_chunk no_buffer t c rest = with_buffer no_buffer t c rest
one_chunk no_data t c rest = if buffer_comes c then with_buffer no_data t c rest else none
one_chunk no_turn t c rest = if buffer_comes c then with_buffer no_turn t c rest else none
one_chunk no_mutex t c rest = if buffer_comes c then with_buffer no_mutex t c rest else none
one_chunk sent t c rest = if buffer_comes c then with_buffer sent t c rest else none

-- The loop, for the rest of the data. What happens to a chunk is a function of its number.
pub copy_chunks : ℕ → (ℕ → Outcome) → ℕ → ℕ → ℕ → Counters → Progress
copy_chunks zero o usr dev len c = none
copy_chunks (suc fuel) o usr dev len c =
    let sz = cpy_sz len in
    if len == 0
    then some ([], (ok, c))
    else one_chunk (o c.wq_requested)
        (record { usr_addr = usr; dev_addr = dev; slot = c.wq_requested % chunks; size = sz }) c
        (copy_chunks fuel o (add64 usr sz) (add64 dev sz) (len - sz))

-- The number of the last chunk of `len` bytes, from the counters behind the loop.
abbrev pub last_chunk : ℕ → Counters → ℕ
last_chunk len c = if len == 0 then 0 else (c.wq_requested + (2 ^ 64 - 1)) % 2 ^ 64

-- The wait for the last transfer, which is interrupted unless `waited`.
abbrev pub finished : Bool → ℕ → Progress → Progress
finished waited len none = none
finished waited len (some (ts, (err e, c))) = some (ts, (err e, c))
finished false len (some (ts, (ok, c))) = some (ts, (err eacces, c))
finished true len (some (ts, (ok, c))) =
    if ltb (last_chunk len c) c.wq_enqueued then some (ts, (ok, c)) else none

-- `alignment` is the engine's, not zero.
pub tlkm_dma_copy_to : ℕ → (ℕ → Outcome) → Bool → ℕ → ℕ → ℕ → ℕ → Counters → Progress
unfolding copy_chunks
tlkm_dma_copy_to alignment o waited fuel usr dev len c =
    if dev % alignment == 0
    then finished waited len (copy_chunks fuel o usr dev len c)
    else some ([], (err eagain, c))
