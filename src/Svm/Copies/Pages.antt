-- ===== src/Svm/Copies/Pages.antt =====
-- The pages that the transfers between two devices move (runtime/kernel/pcie/pcie_svm.c).
use tapasco.Base.{
  ℕ, zero, suc, ◌+◌, ◌^◌, ◌≤◌, ◌<◌, ◌≡◌, refl, ap, ◌∙◌, Bool-cases, inl, inr, List, [], ◌∷◌, ◌++◌,
  ◌==◌, length, ==_iff, add64, arith,
}
use tapasco.Svm.Commands.{pfn_to_dev_addr}
use tapasco.Svm.Faults.{page_size}
use tapasco.Svm.Pages.{skip}
use tapasco.Svm.Copies.{page_at, run_pages}

-- Frames of pages of a device whose first frame is given.
abbrev pub IsOf : ℕ → ℕ → Type 0
IsOf base_pfn p = (base_pfn ≤ p) × (p < 2 ^ 64) × (p < base_pfn + 2 ^ 52)

abbrev pub AllOf : ℕ → List ℕ → Type 0
AllOf base_pfn [] = Unit {0}
AllOf base_pfn (p ∷ ps) = IsOf base_pfn p × AllOf base_pfn ps

-- Consecutive pages from two addresses on.
abbrev pub pairs : ℕ → ℕ → ℕ → List (ℕ × ℕ)
pairs zero a b = []
pairs (suc n) a b = (a, b) ∷ pairs n (add64 a page_size) (add64 b page_size)

-- Each source page with its place, the `i`-th page behind an address.
abbrev pub intended : ℕ → ℕ → ℕ → List ℕ → List (ℕ × ℕ)
intended base_pfn dst i [] = []
intended base_pfn dst i (p ∷ ps) =
    (pfn_to_dev_addr base_pfn p, page_at dst i) ∷ intended base_pfn dst (i + 1) ps

pub pfn_to_dev_addr-suc :
    (base_pfn p : ℕ)
    → IsOf base_pfn p
    → IsOf base_pfn (p + 1)
    → pfn_to_dev_addr base_pfn (p + 1) ≡ add64 (pfn_to_dev_addr base_pfn p) page_size
pfn_to_dev_addr-suc base_pfn p h k = omega arith

-- A run of frames is one transfer.
pub intended-run :
    (base_pfn dst i room p : ℕ) (ps : List ℕ)
    → AllOf base_pfn (p ∷ ps)
    → intended base_pfn dst i (p ∷ ps)
      ≡ pairs (suc (run_pages room p ps)) (pfn_to_dev_addr base_pfn p) (page_at dst i)
        ++ intended base_pfn dst (i + suc (run_pages room p ps)) (skip (run_pages room p ps) ps)
intended-run base_pfn dst i room p [] all = refl
intended-run base_pfn dst i zero p (q ∷ qs) all = refl
intended-run base_pfn dst i (suc room) p (q ∷ qs) all = elim (Bool-cases (q == p + 1)) [
  | inr other ↦ rw other refl
  | inl behind ↦
      let e : q ≡ p + 1 = (==_iff q (p + 1)).0 behind in
      let n : ℕ = run_pages room q qs in
      let next : pfn_to_dev_addr base_pfn q ≡ add64 (pfn_to_dev_addr base_pfn p) page_size =
        rw e (pfn_to_dev_addr-suc base_pfn p all.0 (rw (← e) all.1.0)) in
      let place : page_at dst (i + 1) ≡ add64 (page_at dst i) page_size = omega arith in
      let index : i + 1 + suc n ≡ i + suc (suc n) = omega arith in
      rw behind (
        ap (λ r. (pfn_to_dev_addr base_pfn p, page_at dst i) ∷ r)
          (intended-run base_pfn dst (i + 1) room q qs all.1 ∙ rw (next, place, index) refl))
]

pub AllOf-skip : (base_pfn n : ℕ) (ps : List ℕ) → AllOf base_pfn ps → AllOf base_pfn (skip n ps)
AllOf-skip base_pfn zero ps all = all
AllOf-skip base_pfn (suc n) [] all = all
AllOf-skip base_pfn (suc n) (p ∷ ps) all = AllOf-skip base_pfn n ps all.1

pub length-skip : (n : ℕ) (ps : List ℕ) → length (skip n ps) ≤ length ps
length-skip zero ps = omega arith
length-skip (suc n) [] = omega arith
length-skip (suc n) (p ∷ ps) = omega (arith, length-skip n ps)
