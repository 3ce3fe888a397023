-- ===== src/Svm/Copies/Buffered.antt =====
-- The copy between devices through a buffer in host memory (runtime/kernel/pcie/pcie_svm.c).
use tapasco.Base.{
  ℕ, zero, suc, ◌+◌, ◌≤◌, ◌<◌, ◌≡◌, refl, sym, ap, ◌∙◌, true, false, List, [], ◌∷◌, ◌++◌, Option,
  none, some, length, ==_refl, Ret, ok, add64, arith,
}
use mathlib.Core.List.{append_assoc, append-nil}
use tapasco.Svm.Commands.{pfn_to_dev_addr}
use tapasco.Svm.Faults.{page_size}
use tapasco.Svm.Pages.{skip}
use tapasco.Svm.Copies.{
  Order, h2c, wait_c2h, wait_h2c, buf_unmap, buf_free, Waits, Filled, fill, dst_addr, empty_buffer,
  rounds, before, copy_dev_to_dev_buffered,
}
use tapasco.Svm.Copies.Pages.{AllOf, pfn_to_dev_addr-suc, AllOf-skip}
use tapasco.Svm.Copies.Direct.{Granted}
use tapasco.Svm.Copies.Network.{sources}
use tapasco.Svm.Copies.Passing.{put_at, more, settled, delivered}
use tapasco.Svm.Copies.Filling.{taken, length-skip_add, skip-nil, fill-IsFilled}

-- Destination pages with consecutive frames.
abbrev pub IsRun : List ℕ → Type 0
IsRun [] = Unit {0}
IsRun (d ∷ []) = Unit {0}
IsRun (d ∷ e ∷ ds) = (e ≡ d + 1) × IsRun (e ∷ ds)

-- Each source page with the destination page of the same number.
abbrev pub matched : ℕ → ℕ → List ℕ → List ℕ → List (ℕ × ℕ)
matched base_pfn dst_pfn [] ds = []
matched base_pfn dst_pfn (p ∷ ps) [] = []
matched base_pfn dst_pfn (p ∷ ps) (d ∷ ds) =
    (pfn_to_dev_addr base_pfn p, pfn_to_dev_addr dst_pfn d) ∷ matched base_pfn dst_pfn ps ds

IsRun-skip : (n : ℕ) (ds : List ℕ) → IsRun ds → IsRun (skip n ds)
IsRun-skip zero ds r = r
IsRun-skip (suc n) [] r = tt
IsRun-skip (suc n) (d ∷ []) r = rw (skip-nil n) tt
IsRun-skip (suc n) (d ∷ e ∷ ds) r = IsRun-skip n (e ∷ ds) r.1

-- The buffer goes to the first places of the destination.
matched-split :
    (base_pfn dst_pfn k : ℕ) (ps ds : List ℕ)
    → AllOf dst_pfn ds
    → IsRun ds
    → length ds ≡ length ps
    → k ≤ length ps
    → matched base_pfn dst_pfn ps ds
      ≡ put_at (sources base_pfn (taken k ps)) (dst_addr dst_pfn ds)
        ++ matched base_pfn dst_pfn (skip k ps) (skip k ds)
matched-split base_pfn dst_pfn zero ps ds all run len le = refl
matched-split base_pfn dst_pfn (suc k) [] ds all run len le = absurd (omega arith)
matched-split base_pfn dst_pfn (suc k) (p ∷ ps) [] all run len le = absurd (omega arith)
matched-split base_pfn dst_pfn (suc zero) (p ∷ ps) (d ∷ ds) all run len le = refl
matched-split base_pfn dst_pfn (suc (suc k)) (p ∷ []) (d ∷ ds) all run len le = absurd (omega arith)
matched-split base_pfn dst_pfn (suc (suc k)) (p ∷ q ∷ ps) (d ∷ []) all run len le =
    absurd (omega arith)
matched-split base_pfn dst_pfn (suc (suc k)) (p ∷ q ∷ ps) (d ∷ e ∷ ds) all run len le =
    let next : pfn_to_dev_addr dst_pfn e ≡ add64 (pfn_to_dev_addr dst_pfn d) page_size =
      rw run.0 (pfn_to_dev_addr-suc dst_pfn d all.0 (rw (← run.0) all.1.0)) in
    ap (λ r. (pfn_to_dev_addr base_pfn p, pfn_to_dev_addr dst_pfn d) ∷ r)
      (matched-split base_pfn dst_pfn (suc k) (q ∷ ps) (e ∷ ds) all.1 run.1 (omega arith)
          (omega arith)
        ∙ rw next refl)

length-taken :
    (base_pfn k : ℕ) (ps : List ℕ) → k ≤ length ps → length (sources base_pfn (taken k ps)) ≡ k
length-taken base_pfn zero ps le = refl
length-taken base_pfn (suc k) [] le = absurd (omega arith)
length-taken base_pfn (suc k) (p ∷ ps) le = ap suc (length-taken base_pfn k ps (omega arith))

more-more :
    (xs ys : List (ℕ × ℕ)) (r : Option (List (ℕ × ℕ))) → more xs (more ys r) ≡ more (xs ++ ys) r
more-more xs ys none = refl
more-more xs ys (some zs) = ap some (sym (append_assoc xs ys zs))

delivered-h2c :
    (buf a n : ℕ) (c : List ℕ) (os : List Order)
    → length c ≡ n
    → delivered buf settled c (h2c buf a n false ∷ wait_h2c ∷ os)
      ≡ more (put_at c a) (delivered buf settled [] os)
delivered-h2c buf a n c os len = rw (len, ==_refl buf, ==_refl n) refl

empty_buffer-ok :
    (o : Waits) (buf a copied : ℕ) (f : Filled) (rest : Ret × List Order)
    → Granted o
    → f.result ≡ ok
    → empty_buffer o buf a copied f rest
      ≡ before (f.orders ++ wait_c2h ∷ h2c buf a f.move_cnt false ∷ wait_h2c ∷ []) rest
unfolding empty_buffer
empty_buffer-ok o buf a copied f rest g good =
    rw (empty_buffer, good, g.c2h_done copied, g.h2c_done copied) refl

round-brings :
    (buf a k : ℕ) (c : List ℕ) (fo ro os : List Order) (r : Option (List (ℕ × ℕ)))
    → ((us : List Order)
        → delivered buf settled [] (fo ++ wait_c2h ∷ us) ≡ delivered buf settled c us)
    → length c ≡ k
    → delivered buf settled [] (ro ++ os) ≡ r
    → delivered buf settled [] (((fo ++ wait_c2h ∷ h2c buf a k false ∷ wait_h2c ∷ []) ++ ro) ++ os)
      ≡ more (put_at c a) r
round-brings buf a k c fo ro os r filled len after =
    let w : List Order = wait_c2h ∷ h2c buf a k false ∷ wait_h2c ∷ [] in
    ap (delivered buf settled []) (append_assoc (fo ++ w) ro os ∙ append_assoc fo w (ro ++ os))
    ∙ filled (h2c buf a k false ∷ wait_h2c ∷ (ro ++ os))
    ∙ delivered-h2c buf a k c (ro ++ os) len
    ∙ ap (more (put_at c a)) after

rounds-delivered :
    (fuel : ℕ) (o : Waits) (base_pfn dst_pfn buf copied : ℕ) (ps ds : List ℕ)
    → Granted o
    → AllOf base_pfn ps
    → AllOf dst_pfn ds
    → IsRun ds
    → length ds ≡ length ps
    → length ps < fuel
    → ((rounds fuel o base_pfn dst_pfn buf copied ps ds).0 ≡ ok)
      × ((os : List Order)
          → delivered buf settled [] ((rounds fuel o base_pfn dst_pfn buf copied ps ds).1 ++ os)
            ≡ more (matched base_pfn dst_pfn ps ds) (delivered buf settled [] os))
unfolding rounds
rounds-delivered zero o base_pfn dst_pfn buf copied ps ds g all alld run len lt =
    absurd (omega arith)
rounds-delivered (suc fuel) o base_pfn dst_pfn buf copied [] ds g all alld run len lt =
    (refl, λ os. nothing (delivered buf settled [] os))
  where
    nothing : (r : Option (List (ℕ × ℕ))) → r ≡ more [] r
    nothing none = refl
    nothing (some xs) = refl
rounds-delivered (suc fuel) o base_pfn dst_pfn buf copied (p ∷ ps) ds g all alld run len lt =
    let f : Filled = fill (suc fuel) o base_pfn buf 0 copied 0 (p ∷ ps) in
    let (good, i) =
      fill-IsFilled (suc fuel) o base_pfn buf 0 copied 0 (p ∷ ps) [] g all refl (omega arith) lt in
    let k : ℕ = i.count in
    let pos : 0 < k = i.some_page (omega arith) (omega arith) in
    let moves : f.move_cnt ≡ k = i.moves ∙ omega arith in
    let shorter = length-skip_add k (p ∷ ps) i.within.0 in
    let shorter' = length-skip_add k ds (omega (arith, i.within.0)) in
    let (done, rest) =
      rounds-delivered fuel o base_pfn dst_pfn buf (copied + k) (skip k (p ∷ ps)) (skip k ds) g
        (AllOf-skip base_pfn k (p ∷ ps) all) (AllOf-skip dst_pfn k ds alld) (IsRun-skip k ds run)
        (omega arith) (omega arith) in
    let a : ℕ = dst_addr dst_pfn ds in
    let moved : List ℕ = sources base_pfn (taken k (p ∷ ps)) in
    rw
      (
        empty_buffer-ok o buf a copied f
            (rounds fuel o base_pfn dst_pfn buf (copied + f.move_cnt) f.left (skip f.move_cnt ds)) g
            good,
        moves,
        i.leaves,
      )
      (
        done,
        λ os.
            round-brings buf a k moved f.orders
              (rounds fuel o base_pfn dst_pfn buf (copied + k) (skip k (p ∷ ps)) (skip k ds)).1 os
              (more (matched base_pfn dst_pfn (skip k (p ∷ ps)) (skip k ds))
                (delivered buf settled [] os))
              (λ us. i.brings settled us (λ e. ground arith))
              (length-taken base_pfn k (p ∷ ps) i.within.0) (rest os)
            ∙ more-more (put_at moved a) (matched base_pfn dst_pfn (skip k (p ∷ ps)) (skip k ds))
                (delivered buf settled [] os)
            ∙ ap (λ xs. more xs (delivered buf settled [] os))
                (sym (matched-split base_pfn dst_pfn k (p ∷ ps) ds alld run len i.within.0)),
      )

-- With a buffer allocated and mapped, every wait succeeding, pages of their devices, as many
-- destination pages as source pages with consecutive frames, and fuel above their number, a copy
-- between devices through the buffer returns 0. Every command fills the buffer right behind the
-- pages in it, and behind the wait for the command that emptied it; each round takes out exactly
-- the pages brought in, behind the wait for them; the buffer is given back behind the last wait;
-- and over all rounds each source page comes to the destination page of the same number, in
-- order.
pub copy_dev_to_dev_buffered_lem :
    (fuel : ℕ) (o : Waits) (base_pfn dst_pfn buf : ℕ) (ps ds : List ℕ)
    → Granted o
    → AllOf base_pfn ps
    → AllOf dst_pfn ds
    → IsRun ds
    → length ds ≡ length ps
    → length ps < fuel
    → ((copy_dev_to_dev_buffered fuel o true true base_pfn dst_pfn buf ps ds).0 ≡ ok)
      × (delivered buf settled []
            (copy_dev_to_dev_buffered fuel o true true base_pfn dst_pfn buf ps ds).1
          ≡ some (matched base_pfn dst_pfn ps ds))
unfolding copy_dev_to_dev_buffered
copy_dev_to_dev_buffered_lem fuel o base_pfn dst_pfn buf ps ds g all alld run len lt =
    let (done, all_of) =
      rounds-delivered fuel o base_pfn dst_pfn buf 0 ps ds g all alld run len lt in
    (
      done,
      all_of (buf_unmap ∷ buf_free ∷ []) ∙ ap some (append-nil (matched base_pfn dst_pfn ps ds)),
    )
