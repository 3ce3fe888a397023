-- ===== src/Zynq/Pool/Threads.antt =====
-- Threads that get and put indices of the pool of runtime/kernel/zynq/gen_fixed_size_pool.h at once.
use tapasco.Base.{
  ℕ, zero, suc, ◌+◌, ◌<◌, ◌≤◌, ◌≡◌, ◌≢◌, refl, ap, Bool, true, List, [], ◌∷◌, some, ltb, ◌==◌,
  if◌then◌else◌, get_elem?, set, arith, inl, inr, ◌⊎◌,
}
use tapasco.Zynq.Pool.{
  pool_size, Pool, Local, outside, fetched, holds, cleared, loaded, World, Step, fetch, fail, taken,
  take, unlock, load, leave, swap, retry, Reach, here, next, moves,
}

abbrev pub total : (Local → ℕ) → List Local → ℕ
total f [] = 0
total f (l ∷ ls) = f l + total f ls

pub total-set :
    (f : Local → ℕ) (ls : List Local) (i : ℕ) (v : Local) {l : Local}
    → get_elem? ls i ≡ some l
    → total f (set ls i v) + f l ≡ total f ls + f v
total-set f [] i v e = ground arith
total-set f (x ∷ ls) zero v e = grind arith
total-set f (x ∷ ls) (suc i) v e = omega (arith, total-set f ls i v e)

total-get :
    (f : Local → ℕ) (ls : List Local) (i : ℕ) {l : Local}
    → get_elem? ls i ≡ some l
    → f l ≤ total f ls
total-get f [] i e = ground arith
total-get f (x ∷ ls) zero e = grind arith
total-get f (x ∷ ls) (suc i) e = omega (arith, total-get f ls i e)

-- 1 for a thread that has the index `r`.
abbrev pub has : ℕ → Local → ℕ
has r (holds q) = if q == r then 1 else 0
has r outside = 0
has r (fetched q) = 0
has r (cleared q) = 0
has r (loaded q old) = 0

-- 1 for a thread that is to look at the index `r`, or to lead the next search to it.
abbrev pub pends : ℕ → Local → ℕ
pends r (fetched q) = if q == r then 1 else 0
pends r (cleared q) = if q == r then 1 else 0
pends r (loaded q old) = if q == r then 1 else 0
pends r outside = 0
pends r (holds q) = 0

-- 1 for a thread that would move the start of the search forward.
abbrev pub forward : Local → ℕ
forward (loaded q old) = if ltb q old then 0 else 1
forward outside = 0
forward (fetched q) = 0
forward (holds q) = 0
forward (cleared q) = 0

abbrev pub bit : Bool → ℕ
bit b = if b then 1 else 0

pub record IsSound (w : World) : Type 0 where
  pub exclusive : (r : ℕ) → total (has r) w.threads ≡ bit (w.pool.locked r)
  pub found :
      (r : ℕ)
      → r < w.pool.curr
      → r < pool_size
      → 0 < bit (w.pool.locked r) + total (pends r) w.threads
  pub backward : total forward w.threads ≡ 0

-- What a move of one thread from `l` to `v` has to keep, given what the threads imply of `l`.
abbrev Keeps : World → Pool → Local → Local → Type 0
Keeps w p l v =
    (r : ℕ)
    → has r l ≤ bit (w.pool.locked r)
    → forward l ≡ 0
    → (bit (p.locked r) + has r l ≡ bit (w.pool.locked r) + has r v)
      × (forward v ≡ 0)
      × (r < p.curr
          → r < pool_size
          → (0 < bit (p.locked r) + pends r v)
            ⊎ ((r < w.pool.curr)
                × (bit (w.pool.locked r) + pends r l ≤ bit (p.locked r) + pends r v)))

moves-IsSound :
    (w : World) (i : ℕ) (p : Pool) {l : Local} (v : Local)
    → get_elem? w.threads i ≡ some l
    → Keeps w p l v
    → IsSound w
    → IsSound (moves i v p w)
moves-IsSound w i p {l} v e k s =
    let stays : forward l ≡ 0 = omega (arith, s.backward, total-get forward w.threads i e) in
    let kept : (r : ℕ) → has r l ≤ bit (w.pool.locked r) =
      λ r. omega (arith, s.exclusive r, total-get (has r) w.threads i e) in
    record {
      exclusive = λ r.
          omega (arith, s.exclusive r, (k r (kept r) stays).0, total-set (has r) w.threads i v e);
      found = λ r below small.
          let moved = total-set (pends r) w.threads i v e in
          elim ((k r (kept r) stays).2 below small) [
            | inl pending ↦ omega (arith, moved, pending, total-get (pends r) w.threads i e)
            | inr (before, less) ↦ omega (arith, s.found r before small, moved, less)
          ];
      backward =
          omega (arith, s.backward, (k 0 (kept 0) stays).1, total-set forward w.threads i v e);
    }

pub Step-IsSound : {u v : World} → Step u v → IsSound u → IsSound v
Step-IsSound (fetch w i e h) = moves-IsSound w i _ _ e (λ r a b. grind arith)
Step-IsSound (fail w i e h) = moves-IsSound w i _ _ e (λ r a b. grind arith)
Step-IsSound (taken w i q e l) = moves-IsSound w i _ _ e (λ r a b. grind arith)
Step-IsSound (take w i q e l) = moves-IsSound w i _ _ e (λ r a b. grind arith)
Step-IsSound (unlock w i q e) = moves-IsSound w i _ _ e (λ r a b. grind arith)
Step-IsSound (load w i q e h) = moves-IsSound w i _ _ e (λ r a b. grind arith)
Step-IsSound (leave w i q e h) = moves-IsSound w i _ _ e (λ r a b. grind arith)
Step-IsSound (swap w i q old e h) = moves-IsSound w i _ _ e (λ r a b. grind arith)
Step-IsSound (retry w i q old e h) = moves-IsSound w i _ _ e (λ r a b. grind arith)

pub Reach-IsSound : {u v : World} → IsSound u → Reach u v → IsSound v
Reach-IsSound s here = s
Reach-IsSound s (next r st) = Step-IsSound st (Reach-IsSound s r)

total-one :
    (f : Local → ℕ) (ls : List Local) (i j : ℕ) {l v : Local}
    → get_elem? ls i ≡ some l
    → get_elem? ls j ≡ some v
    → 0 < f l
    → 0 < f v
    → total f ls ≤ 1
    → i ≡ j
total-one f [] i j e e' p q h = ground arith
total-one f (x ∷ ls) zero zero e e' p q h = refl
total-one f (x ∷ ls) zero (suc j) e e' p q h = let later = total-get f ls j e' in grind arith
total-one f (x ∷ ls) (suc i) zero e e' p q h = let later = total-get f ls i e in grind arith
total-one f (x ∷ ls) (suc i) (suc j) e e' p q h = ap suc (total-one f ls i j e e' p q (omega arith))

-- No thread is in the middle of a call.
abbrev pub AtRest : List Local → Type 0
AtRest [] = Unit
AtRest (outside ∷ ls) = AtRest ls
AtRest (holds r ∷ ls) = AtRest ls
AtRest (fetched r ∷ ls) = ⊥
AtRest (cleared r ∷ ls) = ⊥
AtRest (loaded r old ∷ ls) = ⊥

AtRest-pends : (r : ℕ) (ls : List Local) → AtRest ls → total (pends r) ls ≡ 0
AtRest-pends r [] a = refl
AtRest-pends r (outside ∷ ls) a = omega (arith, AtRest-pends r ls a)
AtRest-pends r (holds q ∷ ls) a = omega (arith, AtRest-pends r ls a)
AtRest-pends r (fetched q ∷ ls) a = absurd a
AtRest-pends r (cleared q ∷ ls) a = absurd a
AtRest-pends r (loaded q old ∷ ls) a = absurd a

-- In any world that threads reach by atomic operations from a sound one (as many threads have an
-- index as its flag says, one or none; every index before the start of the search has its flag
-- set or a thread on its way to it; no thread is about to move the start forward), no two threads
-- have the same index.
pub held_once :
    {u v : World} (i j : ℕ) {r : ℕ}
    → IsSound u
    → Reach u v
    → i ≢ j
    → get_elem? v.threads i ≡ some (holds r)
    → get_elem? v.threads j ≢ some (holds r)
held_once {u} {v} i j {r} s path other e e' =
    let sound = Reach-IsSound s path in
    other (
      total-one (has r) v.threads i j e e' (ground arith) (ground arith)
        (grind (arith, sound.exclusive r)))

-- Whenever no thread is in the middle of a call, in a world reached from a sound one, every index
-- of the pool before the start of the search is in use by exactly one thread; so a search that
-- starts behind all of them fails because all are in use.
pub locked_lem :
    {u v : World} (r : ℕ)
    → IsSound u
    → Reach u v
    → AtRest v.threads
    → r < v.pool.curr
    → r < pool_size
    → (v.pool.locked r ≡ true) × (total (has r) v.threads ≡ 1)
locked_lem {u} {v} r s path a below small =
    let sound = Reach-IsSound s path in
    grind (arith, sound.exclusive r, sound.found r below small, AtRest-pends r v.threads a)
