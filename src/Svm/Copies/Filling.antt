-- ===== src/Svm/Copies/Filling.antt =====
-- What filling the buffer of a copy between devices brings into it (runtime/kernel/pcie/pcie_svm.c).
use tapasco.Base.{
  ℕ, zero, suc, ◌+◌, ◌-◌, ◌≤◌, ◌<◌, ◌≡◌, refl, sym, ap, ◌∙◌, Bool-cases, false, inl, inr, List, [],
  ◌∷◌, ◌++◌, ltb, ◌==◌, length, length-append, ==_iff, ltb→lt, Ret, ok, add64, arith,
}
use mathlib.Core.List.{append_assoc, append-nil}
use native.Mathlib.Nat.{zero-add}
use tapasco.Svm.Commands.{pfn_to_dev_addr, max_npages}
use tapasco.Svm.Faults.{page_size}
use tapasco.Svm.Pages.{skip}
use tapasco.Svm.Copies.{
  page_at, Order, c2h, wait_c2h, run_pages, Waits, throttle, lower, buffer_pages, Filled, fill,
}
use tapasco.Svm.Copies.Pages.{AllOf, pfn_to_dev_addr-suc, AllOf-skip, length-skip}
use tapasco.Svm.Copies.Direct.{Granted, throttle-ok}
use tapasco.Svm.Copies.Passing.{
  Phase, filling, settled, delivered, CanFill, throttle-delivered, behind, wait_done,
}
use tapasco.Svm.Copies.Network.{addrs, sources}

abbrev pub taken : ℕ → List ℕ → List ℕ
taken zero ps = []
taken (suc n) [] = []
taken (suc n) (p ∷ ps) = p ∷ taken n ps

run_pages-le :
    (room p : ℕ) (ps : List ℕ) → (run_pages room p ps ≤ room) × (run_pages room p ps ≤ length ps)
run_pages-le room p [] = (omega arith, omega arith)
run_pages-le zero p (q ∷ qs) = (omega arith, omega arith)
run_pages-le (suc room) p (q ∷ qs) =
    let ih = run_pages-le room q qs in (ground (arith, ih.0), ground (arith, ih.1))

sources-run_pages :
    (base_pfn room p : ℕ) (ps : List ℕ)
    → AllOf base_pfn (p ∷ ps)
    → sources base_pfn (taken (suc (run_pages room p ps)) (p ∷ ps))
      ≡ addrs (suc (run_pages room p ps)) (pfn_to_dev_addr base_pfn p)
sources-run_pages base_pfn room p [] all = refl
sources-run_pages base_pfn zero p (q ∷ qs) all = refl
sources-run_pages base_pfn (suc room) p (q ∷ qs) all = elim (Bool-cases (q == p + 1)) [
  | inr other ↦ rw other refl
  | inl behind ↦
      let e : q ≡ p + 1 = (==_iff q (p + 1)).0 behind in
      let next : pfn_to_dev_addr base_pfn q ≡ add64 (pfn_to_dev_addr base_pfn p) page_size =
        rw e (pfn_to_dev_addr-suc base_pfn p all.0 (rw (← e) all.1.0)) in
      rw behind (
        ap (λ r. pfn_to_dev_addr base_pfn p ∷ r)
          (sources-run_pages base_pfn room q qs all.1 ∙ rw next refl))
]

sources-taken :
    (base_pfn n k : ℕ) (ps : List ℕ)
    → n ≤ length ps
    → sources base_pfn (taken (n + k) ps)
      ≡ sources base_pfn (taken n ps) ++ sources base_pfn (taken k (skip n ps))
sources-taken base_pfn zero k ps le = rw (zero-add k) refl
sources-taken base_pfn (suc n) k [] le = absurd (omega arith)
sources-taken base_pfn (suc n) k (p ∷ ps) le =
    let e : suc n + k ≡ suc (n + k) = omega arith in
    rw e (ap (λ r. pfn_to_dev_addr base_pfn p ∷ r) (sources-taken base_pfn n k ps (omega arith)))

sources-filled :
    (base_pfn room k p : ℕ) (ps : List ℕ)
    → AllOf base_pfn (p ∷ ps)
    → run_pages room p ps ≤ length ps
    → addrs (suc (run_pages room p ps)) (pfn_to_dev_addr base_pfn p)
        ++ sources base_pfn (taken k (skip (run_pages room p ps) ps))
      ≡ sources base_pfn (taken (suc (run_pages room p ps) + k) (p ∷ ps))
sources-filled base_pfn room k p ps all le =
    let n : ℕ = run_pages room p ps in
    sym (
      sources-taken base_pfn (suc n) k (p ∷ ps) (omega arith)
      ∙ ap (λ q. q ++ sources base_pfn (taken k (skip n ps)))
          (sources-run_pages base_pfn room p ps all))

pub skip-nil : (n : ℕ) → skip n [] ≡ []
skip-nil zero = refl
skip-nil (suc n) = refl

skip-skip : (n k : ℕ) (ps : List ℕ) → skip k (skip n ps) ≡ skip (n + k) ps
skip-skip zero k ps = rw (zero-add k) refl
skip-skip (suc n) k [] = skip-nil k ∙ sym (skip-nil (suc n + k))
skip-skip (suc n) k (p ∷ ps) =
    let e : suc n + k ≡ suc (n + k) = omega arith in rw e (skip-skip n k ps)

pub length-skip_add : (n : ℕ) (ps : List ℕ) → n ≤ length ps → length (skip n ps) + n ≡ length ps
length-skip_add zero ps le = omega arith
length-skip_add (suc n) [] le = absurd (omega arith)
length-skip_add (suc n) (p ∷ ps) le = omega (arith, length-skip_add n ps (omega arith))

length-addrs : (n a : ℕ) → length (addrs n a) ≡ n
length-addrs zero a = refl
length-addrs (suc n) a = ap suc (length-addrs n (add64 a page_size))

-- What a filling from `move_cnt` pages on does: it takes the first `k` pages, at least one if there
-- are any and the buffer has room, and not more than fit.
pub record IsFilled (base_pfn buf m : ℕ) (ps c : List ℕ) (f : Filled) : Type 0 where
  pub count : ℕ
  pub moves : f.move_cnt ≡ m + count
  pub leaves : f.left ≡ skip count ps
  pub within : (count ≤ length ps) × (m + count ≤ buffer_pages)
  pub some_page : 0 < length ps → m < buffer_pages → 0 < count
  pub brings :
      (w : Phase) (os : List Order)
      → CanFill w
      → delivered buf w c (f.orders ++ wait_c2h ∷ os)
        ≡ delivered buf settled (c ++ sources base_pfn (taken count ps)) os

pub fill-IsFilled :
    (fuel : ℕ) (o : Waits) (base_pfn buf cnt copied m : ℕ) (ps c : List ℕ)
    → Granted o
    → AllOf base_pfn ps
    → length c ≡ m
    → m ≤ buffer_pages
    → length ps < fuel
    → ((fill fuel o base_pfn buf cnt copied m ps).result ≡ ok)
      × IsFilled base_pfn buf m ps c (fill fuel o base_pfn buf cnt copied m ps)
unfolding fill
fill-IsFilled zero o base_pfn buf cnt copied m ps c g all len le lt = absurd (omega arith)
fill-IsFilled (suc fuel) o base_pfn buf cnt copied m [] c g all len le lt = (
  refl,
  record {
    count = 0;
    moves = omega arith;
    leaves = refl;
    within = (omega arith, omega arith);
    some_page = λ h k. h;
    brings = λ w os can. rw (append-nil c) (wait_done buf c w os can);
  },
)
fill-IsFilled (suc fuel) o base_pfn buf cnt copied m (p ∷ ps) c g all len le lt =
    elim (Bool-cases (ltb m buffer_pages)) [
      | inr full ↦
          rw (fill, full)
            (
              refl,
              record {
                count = 0;
                moves = omega arith;
                leaves = refl;
                within = (omega arith, omega arith);
                some_page = λ h k. absurd (ground (arith, full, k));
                brings = λ w os can. rw (append-nil c) (wait_done buf c w os can);
              },
            )
      | inl room ↦
          let r : ℕ = lower (buffer_pages - m) max_npages - 1 in
          let n : ℕ = run_pages r p ps in
          let fits = run_pages-le r p ps in
          let lt' : m < buffer_pages = ltb→lt m buffer_pages room in
          let small : r + 1 ≤ buffer_pages - m = ground (arith, lt') in
          let t : Ret × ℕ × List Order = throttle o (copied + m) cnt in
          let a : ℕ = pfn_to_dev_addr base_pfn p in
          let command : Order = c2h (page_at buf m) a (suc n) false in
          let c' : List ℕ = c ++ addrs (suc n) a in
          let len' : length c' ≡ m + suc n =
            length-append c (addrs (suc n) a) ∙ rw (len, length-addrs n (add64 a page_size)) refl in
          let (good, f) =
            fill-IsFilled fuel o base_pfn buf (t.1 + 1) copied (m + suc n) (skip n ps) c' g
              (AllOf-skip base_pfn n ps all.1) len' (omega (arith, fits.0, small))
              (omega (arith, length-skip n ps)) in
          let rest : Filled = fill fuel o base_pfn buf (t.1 + 1) copied (m + suc n) (skip n ps) in
          let k : ℕ = f.count in
          let e : suc n + k ≡ suc (n + k) = omega arith in
          rw (fill, room, throttle-ok o (copied + m) cnt g)
            (
              good,
              record {
                count = suc n + k;
                moves = f.moves ∙ omega arith;
                leaves = f.leaves ∙ skip-skip n k ps ∙ rw e refl;
                within = (
                  omega (arith, f.within.0, fits.1, length-skip_add n ps fits.1),
                  omega (arith, f.within.1),
                );
                some_page = λ h l. omega arith;
                brings = λ w os can.
                    ap (delivered buf w c) (behind t.2 command rest.orders (wait_c2h ∷ os))
                    ∙ throttle-delivered o (copied + m) cnt buf m a (suc n) w c
                        (rest.orders ++ wait_c2h ∷ os) can len
                    ∙ f.brings filling os (λ e'. ground arith)
                    ∙ ap (λ q. delivered buf settled q os)
                        (append_assoc c (addrs (suc n) a) (sources base_pfn (taken k (skip n ps)))
                          ∙ ap (λ q. c ++ q) (sources-filled base_pfn r k p ps all fits.1));
              },
            )
    ]
