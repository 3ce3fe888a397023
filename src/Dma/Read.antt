-- ===== src/Dma/Read.antt =====
-- Reads of the DMA engine: tlkm_dma_copy_from of runtime/kernel/dma/tlkm_dma.c with the copy_from of
-- runtime/kernel/dma/blue_dma.c, under the mutex of the readers. A command's bytes come into its buffer
-- before the interrupt behind it, which advances rq_processed. The commands end in their order, and every
-- one ends, so that a wait ends unless it is for a number above those given out.
pub mod Ring
pub mod Delivery
mod Tests
use tapasco.Base.{
  List, [], ◌∷◌, ◌++◌, ℕ, zero, suc, ◌+◌, ◌-◌, ◌%◌, ◌^◌, Bool, true, false, Option, none, some, ltb,
  leb, ◌==◌, ◌&&◌, if◌then◌else◌, Ret, ok, err, eagain, eacces, add64,
}
use tapasco.Dma.{cpy_sz, chunks}

-- `chunk_data_t`.
pub record Chunk : Type 0 where
  pub t_id : ℕ
  pub usr_addr : ℕ
  pub cpy_sz : ℕ

-- What `blue_dma_copy_from` starts: the buffer, the address on the device, and how much.
pub record Command : Type 0 where
  pub slot : ℕ
  pub dev_addr : ℕ
  pub size : ℕ

-- The chunks, the buffers, the commands that have not ended, the first one first, the numbers of the last
-- command given and of the last one that has ended, and the user's memory.
pub record Reader : Type 0 where
  pub chunk : ℕ → Chunk
  pub buf : ℕ → ℕ → ℕ
  pub pending : List Command
  pub rq_enqueued : ℕ
  pub rq_processed : ℕ
  pub user : ℕ → ℕ

-- Whether waits end undisturbed, the user's memory takes all bytes, and the engine's mutex is got: by
-- the round of the loop, and by the buffer behind it. `ended` is how many commands end before a wait
-- looks for its number.
pub record Events : Type 0 where
  pub ended : ℕ → ℕ
  pub waits : ℕ → Bool
  pub copies : ℕ → Bool
  pub locks : ℕ → Bool
  pub last_ended : ℕ → ℕ
  pub last_waits : ℕ → Bool
  pub last_copies : ℕ → Bool

abbrev pub Ending : Type 0
Ending = Option (Ret × Reader)

-- `none` is a wait that does not end.
abbrev pub and_then : Ending → (Reader → Ending) → Ending
and_then none f = none
and_then (some (err e, s)) f = some (err e, s)
and_then (some (ok, s)) f = f s

abbrev pub replace {ℓ} : {A : Type ℓ} → (ℕ → A) → ℕ → A → ℕ → A
replace f i v j = if i == j then v else f j

abbrev pub copy_to_user : ℕ → ℕ → (ℕ → ℕ) → (ℕ → ℕ) → ℕ → ℕ
copy_to_user usr n bytes user a = if leb usr a && ltb a (usr + n) then bytes (a - usr) else user a

abbrev pub emptied : ℕ → Reader → Reader
emptied i s = record s {
  chunk = replace s.chunk i (record (s.chunk i) { usr_addr = 0 });
  user = copy_to_user (s.chunk i).usr_addr (s.chunk i).cpy_sz (s.buf i) s.user;
}

-- What a copy that fails leaves in the user's memory is not part of this model.
abbrev pub deliver : Bool → ℕ → Reader → Ret × Reader
deliver copied i s =
    if (s.chunk i).usr_addr == 0
    then (ok, s)
    else if copied
    then (ok, emptied i s)
    else (err eagain, s)

-- A command ends: its bytes have come into its buffer, and the interrupt is counted.
abbrev pub ends : (ℕ → ℕ) → Command → List Command → Reader → Reader
ends device c cs s = record s {
  buf =
      replace s.buf c.slot (λ t. if ltb t c.size then device (c.dev_addr + t) else s.buf c.slot t);
  pending = cs;
  rq_processed = add64 s.rq_processed 1;
}

abbrev pub next_ends : (ℕ → ℕ) → List Command → Reader → Reader
next_ends device [] s = s
next_ends device (c ∷ cs) s = ends device c cs s

abbrev pub advance : (ℕ → ℕ) → ℕ → Reader → Reader
advance device zero s = s
advance device (suc n) s = advance device n (next_ends device s.pending s)

-- Commands end until the one with the number `t` has; `none` if there is none.
abbrev pub wait_for : (ℕ → ℕ) → ℕ → List Command → Reader → Option Reader
wait_for device t [] s = if leb t s.rq_processed then some s else none
wait_for device t (c ∷ cs) s =
    let later = wait_for device t cs (ends device c cs s) in
    if leb t s.rq_processed then some s else later

abbrev pub delivered_behind : Bool → ℕ → Option Reader → Ending
delivered_behind copied i none = none
delivered_behind copied i (some s) = some (deliver copied i s)

-- The wait for a buffer's command, and the copy of the buffer to the user.
abbrev pub drain : (ℕ → ℕ) → ℕ → Bool → Bool → ℕ → Reader → Ending
drain device n waited copied i s =
    let s' = advance device n s in
    if waited
    then delivered_behind copied i (wait_for device (s.chunk i).t_id s'.pending s')
    else some (err eacces, s')

-- With no mutex, the length takes the place of the command's number.
abbrev pub blue_dma_copy_from : Bool → ℕ → ℕ → ℕ → Reader → ℕ × Reader
blue_dma_copy_from true i dev sz s = (
  add64 s.rq_enqueued 1,
  record s {
    pending = s.pending ++ record { slot = i; dev_addr = dev; size = sz } ∷ [];
    rq_enqueued = add64 s.rq_enqueued 1;
  },
)
blue_dma_copy_from false i dev sz s = (sz, s)

abbrev pub command_given : ℕ → ℕ → ℕ → ℕ × Reader → Reader
command_given i usr sz (t, s) = record s {
  chunk = replace s.chunk i (record { t_id = t; usr_addr = usr; cpy_sz = sz });
}

-- The loop behind the reads, `n` rounds from the buffer `i`.
pub drain_from : (ℕ → ℕ) → Events → ℕ → ℕ → Reader → Ending
drain_from device e zero i s = some (ok, s)
drain_from device e (suc n) i s =
    and_then (drain device (e.last_ended i) (e.last_waits i) (e.last_copies i) i s)
      (drain_from device e n (suc i))

-- The loop, from the round `k` and the buffer `i` on.
pub read_from : (ℕ → ℕ) → Events → ℕ → ℕ → ℕ → ℕ → ℕ → ℕ → Reader → Ending
read_from device e zero k i usr dev len s = none
read_from device e (suc fuel) k i usr dev len s =
    let sz = cpy_sz len in
    if len == 0
    then drain_from device e chunks 0 s
    else and_then (drain device (e.ended k) (e.waits k) (e.copies k) i s) (λ s'.
      read_from device e fuel (suc k) ((i + 1) % chunks) (add64 usr sz) (add64 dev sz) (len - sz)
        (command_given i usr sz (blue_dma_copy_from (e.locks k) i dev sz s')))

-- Commands that an earlier read has left behind stay with the engine.
abbrev pub reset : Reader → Reader
reset s = record s {
  chunk = λ i. record { t_id = 0; usr_addr = 0; cpy_sz = 0 };
  rq_enqueued = 0;
  rq_processed = 0;
}

-- `alignment` is the engine's, not zero. A success returns what is left of the length, 0.
pub tlkm_dma_copy_from : ℕ → (ℕ → ℕ) → Events → ℕ → ℕ → ℕ → ℕ → Reader → Ending
tlkm_dma_copy_from alignment device e fuel usr dev len s =
    if dev % alignment == 0
    then read_from device e fuel 0 0 usr dev len (reset s)
    else some (err eagain, s)
