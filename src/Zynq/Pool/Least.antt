-- ===== src/Zynq/Pool/Least.antt =====
-- The pool of runtime/kernel/zynq/gen_fixed_size_pool.h as one thread uses it.
use tapasco.Base.{
  ℕ, zero, suc, ◌+◌, ◌<◌, ◌≡◌, refl, Bool, true, false, Option, none, some, ltb, arith, Bool-cases,
  inl, inr,
}
use tapasco.Zynq.Pool.{pool_size, Pool, update, advance, fsp_get, fsp_put}

-- The search may start behind indices that are in use.
abbrev pub IsPacked : Pool → Type 0
IsPacked p = (i : ℕ) → i < p.curr → i < pool_size → p.locked i ≡ true

-- The index is the least that is free, and none is when there is none.
abbrev pub IsLeast : (ℕ → Bool) → Option ℕ → Type 0
IsLeast locked none = (i : ℕ) → i < pool_size → locked i ≡ true
IsLeast locked (some r) = (r < pool_size) × (locked r ≡ false) × ((i : ℕ) → i < r → locked i ≡ true)

abbrev pub mark : Option ℕ → (ℕ → Bool) → ℕ → Bool
mark none locked = locked
mark (some r) locked = update locked r true

abbrev pub IsGot : Pool → Option ℕ × Pool → Type 0
IsGot p (r, p') = IsLeast p.locked r × ((i : ℕ) → p'.locked i ≡ mark r p.locked i) × IsPacked p'

-- With all indices before the start of the search in use, and fuel for the indices that are left,
-- a search returns the least free index and marks it, or none if and only if there is none, and
-- again all indices before the start are in use.
pub get_least :
    (fuel : ℕ) (p : Pool) → IsPacked p → pool_size < p.curr + fuel → IsGot p (fsp_get fuel p)
unfolding fsp_get
get_least zero p v room = (λ i small. v i (omega arith) small, λ i. refl, v)
get_least (suc fuel) p v room = elim (Bool-cases (ltb p.curr pool_size)) [
  | inr over ↦
      rw over
        (λ i small. v i (ground arith) small, λ i. refl, λ i below small. v i (ground arith) small)
  | inl inside ↦ elim (Bool-cases (p.locked p.curr)) [
    | inl used ↦
        rw (inside, used)
          (get_least fuel (advance p) (λ i below small. grind (arith, v i)) (grind arith))
    | inr free ↦
        rw (inside, free)
          (
            (ground arith, free, λ i below. v i below (ground arith)),
            λ i. refl,
            λ i below small. grind (arith, v i),
          )
  ]
]

pub put-IsPacked : (idx : ℕ) (p : Pool) → IsPacked p → IsPacked (fsp_put idx p)
unfolding fsp_put
put-IsPacked idx p v i below small = ground (arith, v i)

pub put-locked :
    (idx : ℕ) (p : Pool) (i : ℕ)
    → idx < pool_size
    → (fsp_put idx p).locked i ≡ update p.locked idx false i
unfolding fsp_put
put-locked idx p i h = ground arith
