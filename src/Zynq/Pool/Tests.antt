-- ===== src/Zynq/Pool/Tests.antt =====
-- The pool of runtime/kernel/zynq/gen_fixed_size_pool.h over concrete threads and flags.
use tapasco.Base.{◌≢◌, ◌==◌, refl, true, false, [], ◌∷◌, some, arith, get_elem?}
use tapasco.Zynq.Pool.{
  Pool, World, outside, fetched, holds, fetch, take, Reach, here, next, fsp_get, update,
}
use tapasco.Zynq.Pool.Threads.{IsSound, held_once}
use tapasco.Zynq.Pool.Least.{IsGot, get_least}

abbrev empty : Pool
empty = record { locked = λ r. false; curr = 0 }

abbrev two_threads : World
two_threads = record { pool = empty; threads = outside ∷ outside ∷ [] }

two_threads-IsSound : IsSound two_threads
two_threads-IsSound = record {
  exclusive = λ r. refl;
  found = λ r below small. absurd (omega arith);
  backward = refl;
}

-- The threads fetch one after the other, and each takes its index.
abbrev one_fetched : World
one_fetched = record {
  pool = record { locked = λ r. false; curr = 1 };
  threads = fetched 0 ∷ outside ∷ [];
}

abbrev both_fetched : World
both_fetched = record {
  pool = record { locked = λ r. false; curr = 2 };
  threads = fetched 0 ∷ fetched 1 ∷ [];
}

abbrev one_holds : World
one_holds = record {
  pool = record { locked = update (λ r. false) 0 true; curr = 2 };
  threads = holds 0 ∷ fetched 1 ∷ [];
}

abbrev both_hold : World
both_hold = record {
  pool = record { locked = update (update (λ r. false) 0 true) 1 true; curr = 2 };
  threads = holds 0 ∷ holds 1 ∷ [];
}

both_hold_reached : Reach two_threads both_hold
both_hold_reached =
    next
      (next
        (next (next here (fetch two_threads 0 refl (omega arith)))
          (fetch one_fetched 1 refl (omega arith)))
        (take both_fetched 0 0 refl refl))
      (take one_holds 1 1 refl refl)

held_once_example : get_elem? both_hold.threads 1 ≢ some (holds 0)
held_once_example =
    held_once {u = two_threads} {v = both_hold} 0 1 {r = 0} two_threads-IsSound both_hold_reached
      (λ e. omega arith) refl

-- The index 0 is in use.
abbrev one_used : Pool
one_used = record { locked = λ r. r == 0; curr = 1 }

get_least_example : IsGot one_used (fsp_get 1025 one_used)
get_least_example = get_least 1025 one_used (λ i below small. ground arith) (omega arith)
