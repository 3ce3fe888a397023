-- ===== src/Zynq/Pool.antt =====
-- The pool of runtime/kernel/zynq/gen_fixed_size_pool.h, of the size of zynq_dmamgmt.h: by itself, and
-- with any number of threads whose atomic operations interleave. Its elements are not part of it, nor
-- its reference counts, which nothing reads.
pub mod Threads
pub mod Least
mod Tests
use tapasco.Base.{
  ℕ, zero, suc, ◌+◌, ◌%◌, ◌^◌, ◌<◌, ◌≤◌, ◌≡◌, ◌≢◌, Bool, true, false, List, [], ◌∷◌, Option, none,
  some, ltb, ◌==◌, if◌then◌else◌, get_elem?, set,
}

-- ZYNQ_DMAMGMT_POOLSZ.
abbrev pub pool_size : ℕ
pool_size = 1024

-- The flags of the indices, and where the next search starts.
pub record Pool : Type 0 where
  pub locked : ℕ → Bool
  pub curr : ℕ

abbrev pub update : (ℕ → Bool) → ℕ → Bool → ℕ → Bool
update f r v q = if r == q then v else f q

-- `__atomic_fetch_add(&fsp->curr, 1)`, on 32 bits.
abbrev pub advance : Pool → Pool
advance p = record p { curr = (p.curr + 1) % 2 ^ 32 }

abbrev pub lock : ℕ → Pool → Pool
lock r p = record p { locked = update p.locked r true }

abbrev pub clear : ℕ → Pool → Pool
clear r p = record p { locked = update p.locked r false }

-- The loop of `get` for one thread; `none` is INVALID_IDX.
pub fsp_get : ℕ → Pool → Option ℕ × Pool
fsp_get zero p = (none, p)
fsp_get (suc fuel) p =
    let again = fsp_get fuel (advance p) in
    if ltb p.curr pool_size
    then (if p.locked p.curr then again else (some p.curr, lock p.curr (advance p)))
    else (none, advance p)

pub fsp_put : ℕ → Pool → Pool
fsp_put idx p =
    if ltb idx pool_size
    then record (clear idx p) { curr = if ltb idx p.curr then idx else p.curr }
    else p

-- Where a thread is: outside or at the head of the loop of `get`; behind the fetch; with an index of
-- its own; in `put` behind the clear; and in its loop behind the load of `curr`.
pub data Local : Type 0 where
  outside : Local
  fetched : ℕ → Local
  holds : ℕ → Local
  cleared : ℕ → Local
  loaded : ℕ → ℕ → Local

pub record World : Type 0 where
  pub pool : Pool
  pub threads : List Local

abbrev pub moves : ℕ → Local → Pool → World → World
moves i l p w = record { pool = p; threads = set w.threads i l }

-- One atomic operation of thread `i`. The failed search returns INVALID_IDX to its caller.
pub data Step : World → World → Type 0 where
  fetch :
      (w : World) (i : ℕ)
      → get_elem? w.threads i ≡ some outside
      → w.pool.curr < pool_size
      → Step w (moves i (fetched w.pool.curr) (advance w.pool) w)
  fail :
      (w : World) (i : ℕ)
      → get_elem? w.threads i ≡ some outside
      → pool_size ≤ w.pool.curr
      → Step w (moves i outside (advance w.pool) w)
  taken :
      (w : World) (i r : ℕ)
      → get_elem? w.threads i ≡ some (fetched r)
      → w.pool.locked r ≡ true
      → Step w (moves i outside w.pool w)
  take :
      (w : World) (i r : ℕ)
      → get_elem? w.threads i ≡ some (fetched r)
      → w.pool.locked r ≡ false
      → Step w (moves i (holds r) (lock r w.pool) w)
  unlock :
      (w : World) (i r : ℕ)
      → get_elem? w.threads i ≡ some (holds r)
      → Step w (moves i (cleared r) (clear r w.pool) w)
  load :
      (w : World) (i r : ℕ)
      → get_elem? w.threads i ≡ some (cleared r)
      → r < w.pool.curr
      → Step w (moves i (loaded r w.pool.curr) w.pool w)
  leave :
      (w : World) (i r : ℕ)
      → get_elem? w.threads i ≡ some (cleared r)
      → w.pool.curr ≤ r
      → Step w (moves i outside w.pool w)
  swap :
      (w : World) (i r old : ℕ)
      → get_elem? w.threads i ≡ some (loaded r old)
      → w.pool.curr ≡ old
      → Step w (moves i outside (record w.pool { curr = r }) w)
  retry :
      (w : World) (i r old : ℕ)
      → get_elem? w.threads i ≡ some (loaded r old)
      → w.pool.curr ≢ old
      → Step w (moves i (cleared r) w.pool w)

pub data Reach (w : World) : World → Type 0 where
  here : Reach w w
  next : {u v : World} → Reach w u → Step u v → Reach w v
