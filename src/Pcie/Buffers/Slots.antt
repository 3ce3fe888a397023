-- ===== src/Pcie/Buffers/Slots.antt =====
-- How often a pointer stands in the buffers and in the memory held: the lemmas that the buffers of a
-- PCIe device need (runtime/kernel/pcie/pcie_ioctl.c).
use tapasco.Base.{
  ℕ, zero, suc, ◌+◌, ◌<◌, ◌≡◌, refl, List, [], ◌∷◌, ◌++◌, some, ◌==◌, if◌then◌else◌, get_elem?, set,
  Bool-cases, Option-cases, inl, inr, arith,
}
use tapasco.Base.Stages.{remove}
use tapasco.Pcie.Buffers.{DmaBuf, GpBuf, first_free, kfree, set_dev_addr, cleared}

abbrev pub one : ℕ → ℕ → ℕ
one x q = if x == q then 1 else 0

abbrev pub count : ℕ → List ℕ → ℕ
count q [] = 0
count q (x ∷ xs) = one x q + count q xs

abbrev pub ptrs : List DmaBuf → List ℕ
ptrs [] = []
ptrs (b ∷ bs) = b.ptr ∷ ptrs bs

abbrev pub bufs : List GpBuf → List ℕ
bufs [] = []
bufs (b ∷ bs) = b.buf ∷ bufs bs

pub remove_counts :
    (p : ℕ) (ms : List ℕ)
    → 0 < count p ms
    → (ms' : List ℕ) × (remove p ms ≡ some ms') × ((q : ℕ) → count q ms' + one p q ≡ count q ms)
remove_counts p [] h = absurd (omega arith)
remove_counts p (m ∷ ms) h = elim (Bool-cases (p == m)) [
  | inl t ↦ (ms, rw t refl, λ q. ground arith)
  | inr n ↦
      let (ms', e, c) = remove_counts p ms (ground arith) in
      (m ∷ ms', rw (n, e) refl, λ q. omega (arith, c q))
]

-- Freeing a pointer that is held as often as it is freed.
pub kfree_counts :
    (p : ℕ) (ms : List ℕ)
    → (0 < p → 0 < count p ms)
    → (ms' : List ℕ) × (kfree p (some ms) ≡ some ms')
      × ((q : ℕ) → 0 < q → count q ms' + one p q ≡ count q ms)
kfree_counts p ms h = elim (Bool-cases (p == 0)) [
  | inl z ↦ (ms, rw z refl, λ q pos. ground arith)
  | inr n ↦
      let (ms', e, c) = remove_counts p ms (h (ground arith)) in (ms', rw (n, e) refl, λ q pos. c q)
]

pub ptrs-set :
    (xs : List DmaBuf) (i : ℕ) (b v : DmaBuf) (q : ℕ)
    → get_elem? xs i ≡ some b
    → count q (ptrs (set xs i v)) + one b.ptr q ≡ count q (ptrs xs) + one v.ptr q
ptrs-set [] i b v q e = absurd (ground arith)
ptrs-set (x ∷ xs) zero b v q e = ground arith
ptrs-set (x ∷ xs) (suc i) b v q e = omega (arith, ptrs-set xs i b v q e)

pub count-ptrs :
    (xs : List DmaBuf) (i : ℕ) (b : DmaBuf) → get_elem? xs i ≡ some b → 0 < count b.ptr (ptrs xs)
count-ptrs [] i b e = absurd (ground arith)
count-ptrs (x ∷ xs) zero b e = ground arith
count-ptrs (x ∷ xs) (suc i) b e = omega (arith, count-ptrs xs i b e)

pub first_free_lem :
    (xs : List DmaBuf) {i : ℕ}
    → first_free xs ≡ some i
    → (b : DmaBuf) × (get_elem? xs i ≡ some b) × (b.ptr ≡ 0)
first_free_lem [] e = absurd (ground arith)
first_free_lem (x ∷ xs) {i} e = elim (Bool-cases (x.ptr == 0)) [
  | inl z ↦ let i0 : i ≡ 0 = ground arith in rw i0 (x, refl, ground arith)
  | inr n ↦ elim (Option-cases (first_free xs)) [
    | inl last ↦ absurd (ground (arith, last))
    | inr (j, there) ↦ let at : i ≡ suc j = ground (arith, there) in rw at (first_free_lem xs there)
  ]
]

pub bufs-append :
    (xs ys : List GpBuf) (q : ℕ) → count q (bufs (xs ++ ys)) ≡ count q (bufs xs) + count q (bufs ys)
bufs-append [] ys q = omega arith
bufs-append (x ∷ xs) ys q = omega (arith, bufs-append xs ys q)

pub bufs-set_dev_addr : (n d : ℕ) (xs : List GpBuf) → bufs (set_dev_addr n d xs) ≡ bufs xs
bufs-set_dev_addr n d [] = refl
bufs-set_dev_addr n d (x ∷ xs) = ground (arith, bufs-set_dev_addr n d xs)

pub count-cleared : (xs : List DmaBuf) (q : ℕ) → 0 < q → count q (ptrs (cleared xs)) ≡ 0
count-cleared [] q h = refl
count-cleared (x ∷ xs) q h = ground (arith, count-cleared xs q)
