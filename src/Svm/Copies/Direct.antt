-- ===== src/Svm/Copies/Direct.antt =====
-- The copy between devices over PCIe (runtime/kernel/pcie/pcie_svm.c).
use tapasco.Base.{
  ℕ, zero, suc, ◌+◌, ◌-◌, ◌<◌, ◌≡◌, ◌⊎◌, refl, sym, ap, ◌∙◌, false, inl, inr, List, [], ◌∷◌, ◌++◌,
  length, Ret, Errno, ok, err, arith,
}
use mathlib.Core.List.{append_assoc}
use tapasco.Svm.Commands.{pfn_to_dev_addr, max_npages}
use tapasco.Svm.Pages.{skip}
use tapasco.Svm.Copies.{
  page_at, Order, c2h, h2c, wait_c2h, wait_h2c, dst_mac, buf_alloc, buf_map, buf_unmap, buf_free,
  run_pages, Waits, throttle, push_from, copy_dev_to_dev_pcie_e2e,
}
use tapasco.Svm.Copies.Pages.{AllOf, pairs, intended, intended-run, AllOf-skip, length-skip}

-- The pages that the commands push: from the device's address to the other one.
abbrev pub pushed : List Order → List (ℕ × ℕ)
pushed [] = []
pushed (c2h to from n net ∷ os) = pairs n from to ++ pushed os
pushed (h2c from to n net ∷ os) = pushed os
pushed (wait_c2h ∷ os) = pushed os
pushed (wait_h2c ∷ os) = pushed os
pushed (dst_mac ∷ os) = pushed os
pushed (buf_alloc ∷ os) = pushed os
pushed (buf_map ∷ os) = pushed os
pushed (buf_unmap ∷ os) = pushed os
pushed (buf_free ∷ os) = pushed os

throttle-pushed :
    (o : Waits) (i cnt : ℕ) (os : List Order) → pushed ((throttle o i cnt).2 ++ os) ≡ pushed os
throttle-pushed o i cnt os = ground arith

pub Ret-cases : (r : Ret) → (r ≡ ok) ⊎ ((e : Errno) × (r ≡ err e))
Ret-cases ok = inl refl
Ret-cases (err e) = inr (e, refl)

-- Every wait succeeds.
pub record Granted (o : Waits) : Type 0 where
  pub when_full : (i : ℕ) → o.when_full i ≡ ok
  pub c2h_done : (i : ℕ) → o.c2h_done i ≡ ok
  pub h2c_done : (i : ℕ) → o.h2c_done i ≡ ok

pub throttle-ok : (o : Waits) (i cnt : ℕ) → Granted o → (throttle o i cnt).0 ≡ ok
throttle-ok o i cnt g = ground (arith, g.when_full i)

push_from-pushed :
    (fuel : ℕ) (o : Waits) (base_pfn dst cnt i : ℕ) (ps : List ℕ)
    → AllOf base_pfn ps
    → length ps < fuel
    → (push_from fuel o base_pfn dst cnt i ps).0 ≡ ok
    → pushed (push_from fuel o base_pfn dst cnt i ps).1 ≡ intended base_pfn dst i ps
unfolding push_from
push_from-pushed zero o base_pfn dst cnt i ps all lt good = absurd (omega arith)
push_from-pushed (suc fuel) o base_pfn dst cnt i [] all lt good = refl
push_from-pushed (suc fuel) o base_pfn dst cnt i (p ∷ ps) all lt good =
    let n : ℕ = run_pages (max_npages - 1) p ps in
    let t : Ret × ℕ × List Order = throttle o i cnt in
    elim (Ret-cases t.0) [
      | inr (e, failed) ↦ absurd (ground (arith, failed, good))
      | inl granted ↦
          let command : Order = c2h (page_at dst i) (pfn_to_dev_addr base_pfn p) (suc n) false in
          let rest : Ret × List Order =
            push_from fuel o base_pfn dst (t.1 + 1) (i + suc n) (skip n ps) in
          let good' : rest.0 ≡ ok = rw (push_from, granted) at good in
          let moved =
            push_from-pushed fuel o base_pfn dst (t.1 + 1) (i + suc n) (skip n ps)
              (AllOf-skip base_pfn n ps all.1) (omega (arith, length-skip n ps)) good' in
          rw (push_from, granted, append_assoc t.2 (command ∷ []) rest.1)
            (throttle-pushed o i cnt (command ∷ rest.1)
              ∙ ap (λ r. pairs (suc n) (pfn_to_dev_addr base_pfn p) (page_at dst i) ++ r) moved
              ∙ sym (intended-run base_pfn dst i (max_npages - 1) p ps all))
    ]

push_from-ok :
    (fuel : ℕ) (o : Waits) (base_pfn dst cnt i : ℕ) (ps : List ℕ)
    → Granted o
    → (push_from fuel o base_pfn dst cnt i ps).0 ≡ ok
unfolding push_from
push_from-ok zero o base_pfn dst cnt i ps g = refl
push_from-ok (suc fuel) o base_pfn dst cnt i [] g = g.c2h_done i
push_from-ok (suc fuel) o base_pfn dst cnt i (p ∷ ps) g =
    let n : ℕ = run_pages (max_npages - 1) p ps in
    rw (push_from, throttle-ok o i cnt g)
      (push_from-ok fuel o base_pfn dst ((throttle o i cnt).1 + 1) (i + suc n) (skip n ps) g)

-- With every wait succeeding, source pages of the device, and fuel above their number, a copy
-- between devices over PCIe returns 0, and its commands push each source page to the page of the
-- same number behind the destination's address, in order.
pub copy_dev_to_dev_pcie_e2e_lem :
    (fuel : ℕ) (o : Waits) (base_pfn dst_base : ℕ) (ps : List ℕ)
    → Granted o
    → AllOf base_pfn ps
    → length ps < fuel
    → let q = copy_dev_to_dev_pcie_e2e fuel o base_pfn dst_base ps in
      (q.0 ≡ ok) × (pushed q.1 ≡ intended base_pfn dst_base 0 ps)
unfolding copy_dev_to_dev_pcie_e2e
copy_dev_to_dev_pcie_e2e_lem fuel o base_pfn dst_base ps g all lt = (
  push_from-ok fuel o base_pfn dst_base 0 0 ps g,
  push_from-pushed fuel o base_pfn dst_base 0 0 ps all lt
      (push_from-ok fuel o base_pfn dst_base 0 0 ps g),
)
