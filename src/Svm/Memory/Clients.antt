-- ===== src/Svm/Memory/Clients.antt =====
-- Any sequence of calls of the allocator in runtime/kernel/pcie/pcie_svm.c, made by clients that
-- return only regions they hold.
use tapasco.Base.{
  ℕ, zero, suc, ◌+◌, ◌^◌, ◌<◌, ◌≡◌, refl, ◌∙◌, ◌≢◌, Bool, true, false, ◌||◌, List, [], ◌∷◌, arith,
  ◌==◌, if◌then◌else◌, Bool-cases, inl, inr, ◌⊎◌, none, some, Option-cases, get_elem?, remove_at,
}
use tapasco.Svm.Memory.{Block, no_addr, allocate_device_memory, free_device_memory}
use tapasco.Svm.Memory.Invariant.{IsValid, Apart, allocate-IsValid, free-IsValid}
use tapasco.Svm.Memory.Cover.{
  in_region, is_free, free_bytes, allocate-is_free, allocate_bounds, free_bytes-allocate,
  free_bytes-free, free-le, free_bytes-free, free-le,
}
use tapasco.Svm.Memory.RoundTrip.{Apart-of_NotFree}

-- The free list, and the regions that clients hold.
pub record Device : Type 0 where
  pub free : List Block
  pub held : List Block

-- `allocates n` asks for `n` bytes. `releases granted i` returns the region held at index `i`.
pub data Call : Type 0 where
  allocates : ℕ → Call
  releases : Bool → ℕ → Call

pub hand_out : Device → ℕ → ℕ × List Block → Device
hand_out d n (addr, free') =
    if addr == no_addr
    then d
    else record { free = free'; held = record { base_addr = addr; size = n } ∷ d.held }

-- A call for no bytes, or of an index that holds nothing, is not made.
pub step : Device → Call → Device
unfolding hand_out
step d (allocates n) = if n == 0 then d else hand_out d n (allocate_device_memory d.free n)
step d (releases granted i) = elim (get_elem? d.held i) [
  | none ↦ d
  | some r ↦ record {
    free = free_device_memory granted d.free r.base_addr r.size;
    held = remove_at i d.held;
  }
]

pub run : Device → List Call → Device
run d [] = d
run d (c ∷ cs) = run (step d c) cs

-- Every region is nonempty, ends below 2^64, and shares no address with `taken` or a later region.
abbrev pub Exclusive : (ℕ → Bool) → List Block → Type 0
Exclusive taken [] = Unit {0}
Exclusive taken (r ∷ rs) =
    (0 < r.size)
    × (r.base_addr + r.size < 2 ^ 64)
    × ((x : ℕ) → in_region r.base_addr r.size x ≡ true → (taken x || is_free rs x) ≡ false)
    × Exclusive taken rs

pub record IsSafe (d : Device) : Type 0 where
  pub valid : IsValid d.free
  pub exclusive : Exclusive (is_free d.free) d.held

not_held :
    (taken : ℕ → Bool) (rs : List Block) (x : ℕ)
    → Exclusive taken rs
    → taken x ≡ true
    → is_free rs x ≡ false
not_held taken [] x e t = refl
not_held taken (r ∷ rs) x (p, q, a, e) t = ground (arith, a x, not_held taken rs x e t)

-- Another set of taken addresses that meets no region will do.
Exclusive-change :
    (taken taken' : ℕ → Bool) (rs : List Block)
    → ((x : ℕ) → taken' x ≡ true → (taken x ≡ true) ⊎ (is_free rs x ≡ false))
    → Exclusive taken rs
    → Exclusive taken' rs
Exclusive-change taken taken' [] w e = tt
Exclusive-change taken taken' (r ∷ rs) w (p, q, a, e) = (
  p,
  q,
  (λ x i. ground (arith, a x i, w x)),
  Exclusive-change taken taken' rs (λ x t. ground (arith, w x t)) e,
)

is_free-remove_at :
    (i : ℕ) (rs : List Block) {r : Block} (x : ℕ)
    → get_elem? rs i ≡ some r
    → is_free rs x ≡ (in_region r.base_addr r.size x || is_free (remove_at i rs) x)
is_free-remove_at i [] x e = ground arith
is_free-remove_at zero (s ∷ rs) x e = ground arith
is_free-remove_at (suc i) (s ∷ rs) x e = ground (arith, is_free-remove_at i rs x e)

held_region :
    (taken : ℕ → Bool) (i : ℕ) (rs : List Block) {r : Block}
    → get_elem? rs i ≡ some r
    → Exclusive taken rs
    → (0 < r.size)
      × (r.base_addr + r.size < 2 ^ 64)
      × ((x : ℕ) → in_region r.base_addr r.size x ≡ true → taken x ≡ false)
held_region taken i [] e v = ground arith
held_region taken zero (s ∷ rs) {r} e (p, q, a, v) =
    let same : s ≡ r = ground arith in rw (← same) (p, q, λ x k. ground (arith, a x k))
held_region taken (suc i) (s ∷ rs) e (p, q, a, v) = held_region taken i rs e v

Exclusive-remove_at :
    (taken taken' : ℕ → Bool) (i : ℕ) (rs : List Block) {r : Block}
    → get_elem? rs i ≡ some r
    → ((x : ℕ) → taken' x ≡ true → (taken x ≡ true) ⊎ (in_region r.base_addr r.size x ≡ true))
    → Exclusive taken rs
    → Exclusive taken' (remove_at i rs)
Exclusive-remove_at taken taken' i [] e w v = tt
Exclusive-remove_at taken taken' zero (s ∷ rs) {r} e w (p, q, a, v) =
    Exclusive-change taken taken' rs
      (λ x t. let same : s ≡ r = ground arith in ground (arith, w x t, a x)) v
Exclusive-remove_at taken taken' (suc i) (s ∷ rs) e w (p, q, a, v) = (
  p,
  q,
  (λ x k. ground (arith, a x k, w x, is_free-remove_at i rs x e)),
  Exclusive-remove_at taken taken' i rs e w v,
)

hand_out-IsSafe :
    (d : Device) (n : ℕ)
    → 0 < n
    → IsSafe d
    → IsSafe (hand_out d n (allocate_device_memory d.free n))
unfolding hand_out
hand_out-IsSafe d n hn v = elim (Bool-cases ((allocate_device_memory d.free n).0 == no_addr)) [
  | inl e ↦ rw e v
  | inr e ↦
      let h : (allocate_device_memory d.free n).0 ≢ no_addr = λ k. ground arith in
      rw e (record {
        valid = allocate-IsValid n d.free v.valid;
        exclusive = (
          hn,
          (allocate_bounds 0 n d.free v.valid h).1,
          (λ x i. ground (
            arith,
            allocate-is_free 0 n x d.free v.valid h,
            not_held (is_free d.free) d.held x v.exclusive,
          )),
          Exclusive-change (is_free d.free) _ d.held
              (λ x t. ground (arith, allocate-is_free 0 n x d.free v.valid h)) v.exclusive,
        );
      })
]

free_held-IsSafe :
    (d : Device) (granted : Bool) (i : ℕ) {r : Block}
    → get_elem? d.held i ≡ some r
    → IsSafe d
    → IsSafe (record {
      free = free_device_memory granted d.free r.base_addr r.size;
      held = remove_at i d.held;
    })
free_held-IsSafe d granted i {r} e v = record {
  valid = free-IsValid granted r.base_addr r.size d.free region.0 region.1 v.valid apart;
  exclusive =
      Exclusive-remove_at (is_free d.free) _ i d.held e
        (λ x t.
          ground
            (arith, free-le granted r.base_addr r.size x d.free region.0 region.1 v.valid apart))
        v.exclusive;
}
  where
    region :
        (0 < r.size)
        × (r.base_addr + r.size < 2 ^ 64)
        × ((x : ℕ) → in_region r.base_addr r.size x ≡ true → is_free d.free x ≡ false)
    region = held_region (is_free d.free) i d.held e v.exclusive

    apart : Apart r.base_addr r.size d.free
    apart = Apart-of_NotFree 0 r.base_addr r.size d.free region.0 v.valid region.2

pub step-IsSafe : (d : Device) (c : Call) → IsSafe d → IsSafe (step d c)
unfolding step
step-IsSafe d (allocates n) v = elim (Bool-cases (n == 0)) [
  | inl e ↦ rw e v
  | inr e ↦ rw e (hand_out-IsSafe d n (ground arith) v)
]
step-IsSafe d (releases granted i) v = elim (Option-cases (get_elem? d.held i)) [
  | inl e ↦ rw (e, step) v
  | inr (r, e) ↦ rw (e, step) (free_held-IsSafe d granted i e v)
]

-- From a state in which the free list is canonical and free and held regions share no byte, any
-- sequence of allocations and of releases of held regions, with or without memory for new list
-- entries, ends in such a state: no address is handed out twice.
pub run-IsSafe : (d : Device) (cs : List Call) → IsSafe d → IsSafe (run d cs)
unfolding run
run-IsSafe d [] v = v
run-IsSafe d (c ∷ cs) v = run-IsSafe (step d c) cs (step-IsSafe d c v)

-- Whether each return of memory in `cs` gets its list entry.
abbrev pub Granted : List Call → Type 0
Granted [] = Unit {0}
Granted (allocates n ∷ cs) = Granted cs
Granted (releases granted i ∷ cs) = (granted ≡ true) × Granted cs

abbrev pub bytes : Device → ℕ
bytes d = free_bytes d.free + free_bytes d.held

free_bytes-remove_at :
    (i : ℕ) (rs : List Block) {r : Block}
    → get_elem? rs i ≡ some r
    → free_bytes rs ≡ r.size + free_bytes (remove_at i rs)
free_bytes-remove_at i [] e = ground arith
free_bytes-remove_at zero (s ∷ rs) e = ground arith
free_bytes-remove_at (suc i) (s ∷ rs) {r} e = omega (arith, free_bytes-remove_at i rs e)

bytes-allocates : (d : Device) (n : ℕ) → bytes (step d (allocates n)) ≡ bytes d
unfolding step hand_out
bytes-allocates d n = ground (arith, free_bytes-allocate n d.free)

bytes-releases : (d : Device) (i : ℕ) → IsSafe d → bytes (step d (releases true i)) ≡ bytes d
unfolding step
bytes-releases d i v = elim (Option-cases (get_elem? d.held i)) [
  | inl e ↦ rw (e, step)
  | inr (r, e) ↦
      let region = held_region (is_free d.free) i d.held e v.exclusive in
      let apart = Apart-of_NotFree 0 r.base_addr r.size d.free region.0 v.valid region.2 in
      rw (e, step)
        (omega (
          arith,
          free_bytes-remove_at i d.held e,
          free_bytes-free r.base_addr r.size d.free region.0 region.1 v.valid apart,
        ))
]

-- From such a state, a sequence of allocations and releases in which every release gets its list
-- entry leaves the number of free and held bytes together unchanged.
pub bytes-run : (d : Device) (cs : List Call) → IsSafe d → Granted cs → bytes (run d cs) ≡ bytes d
unfolding run
bytes-run d [] v g = refl
bytes-run d (allocates n ∷ cs) v g =
    bytes-run (step d (allocates n)) cs (step-IsSafe d (allocates n) v) g ∙ bytes-allocates d n
bytes-run d (releases granted i ∷ cs) v (g, gs) =
    bytes-run (step d (releases granted i)) cs (step-IsSafe d (releases granted i) v) gs
    ∙ rw g (bytes-releases d i v)
