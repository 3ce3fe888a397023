-- ===== src/Svm/Memory/Canonical.antt =====
-- The set of free addresses determines the free list of runtime/kernel/pcie/pcie_svm.c.
use tapasco.Base.{ℕ, suc, ◌+◌, ◌≤◌, ◌≡◌, refl, ap, sym, List, [], ◌∷◌, arith}
use tapasco.Svm.Memory.{Block}
use tapasco.Svm.Memory.Invariant.{Ordered}
use tapasco.Svm.Memory.Cover.{is_free, not_free_below}

abbrev SameFree : List Block → List Block → Type 0
SameFree xs ys = (a : ℕ) → is_free xs a ≡ is_free ys a

same_base :
    (lo : ℕ) (x y : Block) (xs ys : List Block)
    → Ordered lo (x ∷ xs)
    → Ordered lo (y ∷ ys)
    → SameFree (x ∷ xs) (y ∷ ys)
    → y.base_addr ≤ x.base_addr
same_base lo x y xs ys (p, q, r, s) (p', q', r', s') h =
    ground (arith, h x.base_addr, not_free_below (suc (y.base_addr + y.size)) x.base_addr ys s')

same_size :
    (lo : ℕ) (x y : Block) (xs ys : List Block)
    → Ordered lo (x ∷ xs)
    → Ordered lo (y ∷ ys)
    → SameFree (x ∷ xs) (y ∷ ys)
    → x.base_addr ≡ y.base_addr
    → y.size ≤ x.size
same_size lo x y xs ys (p, q, r, s) (p', q', r', s') h e = ground (
  arith,
  h (x.base_addr + x.size),
  not_free_below (suc (x.base_addr + x.size)) (x.base_addr + x.size) xs s,
)

same_tail :
    (lo : ℕ) (x : Block) (xs ys : List Block)
    → Ordered lo (x ∷ xs)
    → Ordered lo (x ∷ ys)
    → SameFree (x ∷ xs) (x ∷ ys)
    → SameFree xs ys
same_tail lo x xs ys (p, q, r, s) (p', q', r', s') h a = ground (
  arith,
  h a,
  not_free_below (suc (x.base_addr + x.size)) a xs s,
  not_free_below (suc (x.base_addr + x.size)) a ys s',
)

pub canonical :
    (lo : ℕ) (xs ys : List Block) → Ordered lo xs → Ordered lo ys → SameFree xs ys → xs ≡ ys
canonical lo [] [] o o' h = refl
canonical lo [] (y ∷ ys) o (p, q, r, s) h = ground (arith, h y.base_addr)
canonical lo (x ∷ xs) [] (p, q, r, s) o' h = ground (arith, h x.base_addr)
canonical lo (x ∷ xs) (y ∷ ys) o o' h = rw head (
    ap (λ t. y ∷ t)
      (canonical (suc (y.base_addr + y.size)) xs ys (rw head at o).3 o'.3
        (same_tail lo y xs ys (rw head at o) o' (rw head at h))))
  where
    base : x.base_addr ≡ y.base_addr
    base =
        omega (arith, same_base lo x y xs ys o o' h, same_base lo y x ys xs o' o (λ a. sym (h a)))

    head : x ≡ y
    head = ground (
      arith,
      base,
      same_size lo x y xs ys o o' h base,
      same_size lo y x ys xs o' o (λ a. sym (h a)) (sym base),
    )
