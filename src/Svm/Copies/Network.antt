-- ===== src/Svm/Copies/Network.antt =====
-- The copy between devices over the network (runtime/kernel/pcie/pcie_svm.c).
use tapasco.Base.{
  ℕ, zero, suc, ◌+◌, ◌-◌, ◌≤◌, ◌<◌, ◌≡◌, refl, sym, ap, ◌∙◌, Bool-cases, true, inl, inr, List, [],
  ◌∷◌, ◌++◌, ltb, length, lt→ltb, ok, add64, arith,
}
use mathlib.Core.List.{append_assoc, append-nil}
use native.Mathlib.Nat.{add-zero, sub-zero}
use tapasco.Svm.Commands.{pfn_to_dev_addr, max_npages}
use tapasco.Svm.Faults.{page_size}
use tapasco.Svm.Pages.{skip}
use tapasco.Svm.Copies.{
  page_at, Order, c2h, h2c, wait_h2c, run_pages, Waits, lower, prepare, send,
  copy_dev_to_dev_network,
}
use tapasco.Svm.Copies.Pages.{AllOf, pairs, intended, intended-run, AllOf-skip, length-skip}
use tapasco.Svm.Copies.Direct.{Granted}

-- Consecutive pages from an address on.
abbrev pub addrs : ℕ → ℕ → List ℕ
addrs zero a = []
addrs (suc n) a = a ∷ addrs n (add64 a page_size)

-- The pages that the source sends over the network, and the places that the destination has prepared
-- for what it receives, in order.
abbrev pub streamed : List Order → List ℕ
streamed [] = []
streamed (c2h host a n true ∷ os) = addrs n a ++ streamed os
streamed (w ∷ os) = streamed os

abbrev pub prepared : List Order → List ℕ
prepared [] = []
prepared (h2c host a n true ∷ os) = addrs n a ++ prepared os
prepared (w ∷ os) = prepared os

abbrev pub sources : ℕ → List ℕ → List ℕ
sources base_pfn [] = []
sources base_pfn (p ∷ ps) = pfn_to_dev_addr base_pfn p ∷ sources base_pfn ps

abbrev pub places : ℕ → ℕ → ℕ → List ℕ
places dst i zero = []
places dst i (suc n) = (page_at dst i) ∷ places dst (i + 1) n

abbrev firsts : List (ℕ × ℕ) → List ℕ
firsts [] = []
firsts ((a, b) ∷ r) = a ∷ firsts r

firsts-append : (xs ys : List (ℕ × ℕ)) → firsts (xs ++ ys) ≡ firsts xs ++ firsts ys
firsts-append [] ys = refl
firsts-append ((a, b) ∷ xs) ys = ap (λ r. a ∷ r) (firsts-append xs ys)

firsts-pairs : (n a b : ℕ) → firsts (pairs n a b) ≡ addrs n a
firsts-pairs zero a b = refl
firsts-pairs (suc n) a b = ap (λ r. a ∷ r) (firsts-pairs n (add64 a page_size) (add64 b page_size))

firsts-intended :
    (base_pfn dst i : ℕ) (ps : List ℕ) → firsts (intended base_pfn dst i ps) ≡ sources base_pfn ps
firsts-intended base_pfn dst i [] = refl
firsts-intended base_pfn dst i (p ∷ ps) =
    ap (λ r. pfn_to_dev_addr base_pfn p ∷ r) (firsts-intended base_pfn dst (i + 1) ps)

sources-run :
    (base_pfn room p : ℕ) (ps : List ℕ)
    → AllOf base_pfn (p ∷ ps)
    → sources base_pfn (p ∷ ps)
      ≡ addrs (suc (run_pages room p ps)) (pfn_to_dev_addr base_pfn p)
        ++ sources base_pfn (skip (run_pages room p ps) ps)
sources-run base_pfn room p ps all =
    let n : ℕ = run_pages room p ps in
    let a : ℕ = pfn_to_dev_addr base_pfn p in
    sym (firsts-intended base_pfn 0 0 (p ∷ ps))
    ∙ ap firsts (intended-run base_pfn 0 0 room p ps all)
    ∙ firsts-append (pairs (suc n) a (page_at 0 0)) (intended base_pfn 0 (0 + suc n) (skip n ps))
    ∙ rw
        (
          firsts-pairs n (add64 a page_size) (add64 (page_at 0 0) page_size),
          firsts-intended base_pfn 0 (0 + suc n) (skip n ps),
        )
        refl

send-streamed :
    (fuel base_pfn : ℕ) (ps : List ℕ)
    → AllOf base_pfn ps
    → length ps ≤ fuel
    → streamed (send fuel base_pfn ps) ≡ sources base_pfn ps
unfolding send
send-streamed zero base_pfn [] all le = refl
send-streamed zero base_pfn (p ∷ ps) all le = absurd (omega arith)
send-streamed (suc fuel) base_pfn [] all le = refl
send-streamed (suc fuel) base_pfn (p ∷ ps) all le =
    let n : ℕ = run_pages (max_npages - 1) p ps in
    ap (λ r. addrs (suc n) (pfn_to_dev_addr base_pfn p) ++ r)
      (send-streamed fuel base_pfn (skip n ps) (AllOf-skip base_pfn n ps all.1)
        (omega (arith, length-skip n ps)))
    ∙ sym (sources-run base_pfn (max_npages - 1) p ps all)

places-split :
    (dst i m n : ℕ) → m ≤ n → places dst i n ≡ addrs m (page_at dst i) ++ places dst (i + m) (n - m)
places-split dst i zero n le = rw (add-zero, sub-zero) refl
places-split dst i (suc m) zero le = absurd (omega arith)
places-split dst i (suc m) (suc n) le =
    let e : page_at dst (i + 1) ≡ add64 (page_at dst i) page_size = omega arith in
    let f : i + 1 + m ≡ i + suc m = omega arith in
    let s : n - m ≡ suc n - suc m = omega arith in
    ap (λ r. (page_at dst i) ∷ r) (places-split dst (i + 1) m n (omega arith) ∙ rw (e, f, s) refl)

prepare-prepared : (fuel dst i n : ℕ) → n ≤ fuel → prepared (prepare fuel dst i n) ≡ places dst i n
unfolding prepare
prepare-prepared zero dst i zero le = refl
prepare-prepared zero dst i (suc n) le = absurd (omega arith)
prepare-prepared (suc fuel) dst i zero le = refl
prepare-prepared (suc fuel) dst i (suc n) le =
    let m : ℕ = lower (suc n) max_npages in
    let some_pages : 0 < m = ground arith in
    let fits : m ≤ suc n = ground arith in
    rw (prepare, lt→ltb 0 (suc n) (omega arith))
      (ap (λ r. addrs m (page_at dst i) ++ r)
          (prepare-prepared fuel dst (i + m) (suc n - m) (omega arith))
        ∙ sym (places-split dst i m (suc n) fits))

prepare-streamed :
    (fuel dst i n : ℕ) (os : List Order) → streamed (prepare fuel dst i n ++ os) ≡ streamed os
unfolding prepare
prepare-streamed zero dst i n os = refl
prepare-streamed (suc fuel) dst i n os = elim (Bool-cases (ltb 0 n)) [
  | inl more ↦
      rw (prepare, more)
        (prepare-streamed fuel dst (i + lower n max_npages) (n - lower n max_npages) os)
  | inr done ↦ rw (prepare, done) refl
]

prepare-before :
    (fuel dst i n : ℕ) (os : List Order)
    → prepared (prepare fuel dst i n ++ os) ≡ prepared (prepare fuel dst i n) ++ prepared os
unfolding prepare
prepare-before zero dst i n os = refl
prepare-before (suc fuel) dst i n os = elim (Bool-cases (ltb 0 n)) [
  | inl more ↦
      let m : ℕ = lower n max_npages in
      rw (prepare, more)
        (ap (λ r. addrs m (page_at dst i) ++ r) (prepare-before fuel dst (i + m) (n - m) os)
          ∙ sym (
              append_assoc (addrs m (page_at dst i)) (prepared (prepare fuel dst (i + m) (n - m)))
                (prepared os)))
  | inr done ↦ rw (prepare, done) refl
]

send-prepared :
    (fuel base_pfn : ℕ) (ps : List ℕ) → prepared (send fuel base_pfn ps ++ wait_h2c ∷ []) ≡ []
unfolding send
send-prepared zero base_pfn ps = refl
send-prepared (suc fuel) base_pfn [] = refl
send-prepared (suc fuel) base_pfn (p ∷ ps) =
    send-prepared fuel base_pfn (skip (run_pages (max_npages - 1) p ps) ps)

send-before :
    (fuel base_pfn : ℕ) (ps : List ℕ)
    → streamed (send fuel base_pfn ps ++ wait_h2c ∷ []) ≡ streamed (send fuel base_pfn ps)
unfolding send
send-before zero base_pfn ps = refl
send-before (suc fuel) base_pfn [] = refl
send-before (suc fuel) base_pfn (p ∷ ps) =
    let n : ℕ = run_pages (max_npages - 1) p ps in
    ap (λ r. addrs (suc n) (pfn_to_dev_addr base_pfn p) ++ r)
      (send-before fuel base_pfn (skip n ps))

-- With every wait succeeding, source pages of the device, and fuel for their number, a copy
-- between devices over the network returns 0, streams the source pages in order, and has prepared
-- for them as many consecutive pages from the destination's address on.
pub copy_dev_to_dev_network_lem :
    (fuel : ℕ) (o : Waits) (base_pfn dst_base : ℕ) (ps : List ℕ)
    → Granted o
    → AllOf base_pfn ps
    → length ps ≤ fuel
    → let q = copy_dev_to_dev_network fuel o base_pfn dst_base ps in
      (q.0 ≡ ok)
      × (streamed q.1 ≡ sources base_pfn ps)
      × (prepared q.1 ≡ places dst_base 0 (length ps))
unfolding copy_dev_to_dev_network
copy_dev_to_dev_network_lem fuel o base_pfn dst_base ps g all le =
    let before_send : List Order = prepare fuel dst_base 0 (length ps) in
    let sending : List Order = send fuel base_pfn ps in
    let e = append_assoc before_send sending (wait_h2c ∷ []) in
    (
      g.h2c_done (length ps),
      ap streamed e
          ∙ prepare-streamed fuel dst_base 0 (length ps) (sending ++ wait_h2c ∷ [])
          ∙ send-before fuel base_pfn ps
          ∙ send-streamed fuel base_pfn ps all le,
      ap prepared e
          ∙ prepare-before fuel dst_base 0 (length ps) (sending ++ wait_h2c ∷ [])
          ∙ rw (send-prepared fuel base_pfn ps, append-nil)
              (prepare-prepared fuel dst_base 0 (length ps) le),
    )
