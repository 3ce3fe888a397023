-- ===== src/Svm/Pages/Free.antt =====
-- What giving pages back does to the set of free addresses (runtime/kernel/pcie/pcie_svm.c).
use tapasco.Base.{
  ℕ, zero, suc, ◌+◌, ◌-◌, ◌*◌, ◌^◌, ◌<◌, ◌≤◌, ◌≡◌, refl, Bool, true, false, ◌||◌, List, [], ◌∷◌,
  ◌==◌, length, arith, Bool-cases, inl, inr, ◌⊎◌,
}
use tapasco.Svm.Memory.{Block, free_device_memory}
use tapasco.Svm.Memory.Invariant.{IsValid, free-IsValid}
use tapasco.Svm.Memory.Cover.{in_region, is_free, free-is_free}
use tapasco.Svm.Memory.RoundTrip.{Apart-of_NotFree}
use tapasco.Svm.Commands.{pfn_to_dev_addr}
use tapasco.Svm.Faults.{page_size}
use tapasco.Svm.Pages.{contiguous_behind, skip, handle_device_pages_free}

-- A frame of the device, whose page ends below 2^64.
abbrev pub IsFrame : ℕ → ℕ → Type 0
IsFrame base p = (base < 2 ^ 64) × (base ≤ p) × (p < base + 2 ^ 52 - 1)

frame_addr : (base p : ℕ) → IsFrame base p → pfn_to_dev_addr base p ≡ (p - base) * page_size
frame_addr base p h = omega (arith, h)

frame_next :
    (base p q : ℕ)
    → IsFrame base p
    → q ≡ p + 1
    → pfn_to_dev_addr base q ≡ pfn_to_dev_addr base p + page_size
frame_next base p q f e = omega (arith, f, e)

regions_join :
    (a m x : ℕ) (others : Bool) {n : ℕ}
    → n ≡ page_size + m
    → (in_region a page_size x || (in_region (a + page_size) m x || others))
      ≡ (in_region a n x || others)
regions_join a m x others e = ground arith

abbrev pub in_pages : ℕ → List ℕ → ℕ → Bool
in_pages base [] x = false
in_pages base (p ∷ ps) x = in_region (pfn_to_dev_addr base p) page_size x || in_pages base ps x

-- Frames of the device, of which no page shares an address with `taken` or a later page.
abbrev pub AreHeld : (ℕ → Bool) → ℕ → List ℕ → Type 0
AreHeld taken base [] = Unit {0}
AreHeld taken base (p ∷ ps) =
    IsFrame base p
    × ((x : ℕ)
        → in_region (pfn_to_dev_addr base p) page_size x ≡ true
        → (taken x || in_pages base ps x) ≡ false)
    × AreHeld taken base ps

-- A run of pages is one region, which ends below 2^64.
run_fits :
    (taken : ℕ → Bool) (base p : ℕ) (ps : List ℕ)
    → AreHeld taken base (p ∷ ps)
    → pfn_to_dev_addr base p + suc (contiguous_behind p ps) * page_size < 2 ^ 64
run_fits taken base p [] (f, _, _) = omega (arith, frame_addr base p f)
run_fits taken base p (q ∷ ps) (f, _, rest) = elim (Bool-cases (q == p + 1)) [
  | inl follows ↦ rw follows (
      let next = frame_next base p q f (ground arith) in
      omega (arith, next, run_fits taken base q ps rest))
  | inr other ↦ rw other (omega (arith, frame_addr base p f))
]

run-in_pages :
    (taken : ℕ → Bool) (base p x : ℕ) (ps : List ℕ)
    → AreHeld taken base (p ∷ ps)
    → in_pages base (p ∷ ps) x ≡ (
        in_region (pfn_to_dev_addr base p) (suc (contiguous_behind p ps) * page_size) x
        || in_pages base (skip (contiguous_behind p ps) ps) x)
run-in_pages taken base p x [] h = ground arith
run-in_pages taken base p x (q ∷ ps) (f, _, rest) = elim (Bool-cases (q == p + 1)) [
  | inl follows ↦ rw follows (
      let next = frame_next base p q f (ground arith) in
      let later = run-in_pages taken base q x ps rest in
      rw (later, next)
        (regions_join (pfn_to_dev_addr base p) (suc (contiguous_behind q ps) * page_size) x _
          (omega arith)))
  | inr other ↦ rw other refl
]

-- No address of a run is taken, or in a page behind it.
run_apart :
    (taken : ℕ → Bool) (base p x : ℕ) (ps : List ℕ)
    → AreHeld taken base (p ∷ ps)
    → in_region (pfn_to_dev_addr base p) (suc (contiguous_behind p ps) * page_size) x ≡ true
    → (taken x || in_pages base (skip (contiguous_behind p ps) ps) x) ≡ false
run_apart taken base p x [] (f, clear, _) i = clear x i
run_apart taken base p x (q ∷ ps) (f, clear, rest) i = elim (Bool-cases (q == p + 1)) [
  | inr other ↦ rw other (clear x (rw other at i))
  | inl follows ↦
      let next = frame_next base p q f (ground arith) in
      let joined =
        regions_join (pfn_to_dev_addr base p) (suc (contiguous_behind q ps) * page_size) x false
          {n = suc (suc (contiguous_behind q ps)) * page_size} (omega arith) in
      rw follows (
        ground (
          arith,
          rw follows at i,
          joined,
          next,
          clear x,
          run-in_pages taken base q x ps rest,
          run_apart taken base q x ps rest,
        ))
]

skip-AreHeld :
    (taken : ℕ → Bool) (base n : ℕ) (ps : List ℕ)
    → AreHeld taken base ps
    → AreHeld taken base (skip n ps)
skip-AreHeld taken base zero ps h = h
skip-AreHeld taken base (suc n) [] h = h
skip-AreHeld taken base (suc n) (p ∷ ps) (_, _, h) = skip-AreHeld taken base n ps h

length-skip : (n : ℕ) (ps : List ℕ) → length (skip n ps) ≤ length ps
length-skip zero ps = omega arith
length-skip (suc n) [] = omega arith
length-skip (suc n) (p ∷ ps) = omega (arith, length-skip n ps)

-- Other addresses that no page has may be taken.
taken-AreHeld :
    (taken taken' : ℕ → Bool) (base : ℕ) (ps : List ℕ)
    → ((x : ℕ) → taken' x ≡ true → (taken x ≡ true) ⊎ (in_pages base ps x ≡ false))
    → AreHeld taken base ps
    → AreHeld taken' base ps
taken-AreHeld taken taken' base [] w h = tt
taken-AreHeld taken taken' base (p ∷ ps) w (f, clear, h) = (
  f,
  λ x i. ground (arith, clear x i, w x),
  taken-AreHeld taken taken' base ps (λ x t. ground (arith, w x t)) h,
)

-- Giving back pages of the device, which share no address with each other and hold no free one,
-- to a canonical free list, with memory for its entries and fuel for the number of pages, keeps
-- the list canonical and makes exactly the addresses of these pages free beside those that were,
-- in whatever runs the pages stand.
pub pages_free-is_free :
    (fuel base : ℕ) (ps : List ℕ) (bs : List Block)
    → length ps ≤ fuel
    → IsValid bs
    → AreHeld (is_free bs) base ps
    → let bs' = handle_device_pages_free fuel (λ p. true) base ps bs in
      IsValid bs' × ((x : ℕ) → is_free bs' x ≡ (is_free bs x || in_pages base ps x))
unfolding handle_device_pages_free
pages_free-is_free zero base [] bs h v a = (v, λ x. ground arith)
pages_free-is_free zero base (p ∷ ps) bs h v a = absurd (omega arith)
pages_free-is_free (suc fuel) base [] bs h v a = (v, λ x. ground arith)
pages_free-is_free (suc fuel) base (p ∷ ps) bs h v a =
    let n = contiguous_behind p ps in
    let size = suc n * page_size in
    let addr = pfn_to_dev_addr base p in
    let fits = run_fits (is_free bs) base p ps a in
    let apart =
      Apart-of_NotFree 0 addr size bs (omega arith) v
        (λ x i. ground (arith, run_apart (is_free bs) base p x ps a i)) in
    let freed : (x : ℕ)
        → is_free (free_device_memory true bs addr size) x
          ≡ (is_free bs x || in_region addr size x) =
      λ x. free-is_free addr size x bs (omega arith) fits v apart in
    let held =
      taken-AreHeld (is_free bs) (is_free (free_device_memory true bs addr size)) base (skip n ps)
        (λ x t. ground (arith, freed x, run_apart (is_free bs) base p x ps a))
        (skip-AreHeld (is_free bs) base n ps a.2) in
    let (v', all) =
      pages_free-is_free fuel base (skip n ps) (free_device_memory true bs addr size)
        (omega (arith, length-skip n ps))
        (free-IsValid true addr size bs (omega arith) fits v apart) held in
    (v', λ x. ground (arith, all x, freed x, run-in_pages (is_free bs) base p x ps a))
