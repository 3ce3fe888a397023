-- ===== src/Svm/Faults/Runs.antt =====
-- The loop of handle_iommu_page_fault in runtime/kernel/pcie/pcie_svm.c: which pages the calls of
-- svm_migrate_to_device ask for.
use tapasco.Base.{
  ℕ, zero, suc, ◌+◌, ◌^◌, ◌≤◌, ◌<◌, ◌≡◌, ◌≢◌, refl, true, ap, ◌∙◌, sym, Bool-cases, inl, inr, ◌⊎◌,
  ◌≢◌, Errno, List, [], ◌∷◌, ◌++◌, if◌then◌else◌, length, arith, Ret, ok, err,
}
use mathlib.Core.List.{append_assoc}
use tapasco.Svm.Faults.{
  masked, page_size, is_contiguous, run_behind, zero_first, Request, migrate_runs, pack_array,
}
use tapasco.Svm.Faults.Arrays.{nonzero, pack_array_lem}

-- The addresses of `n` pages from `base` on.
abbrev pub pages : ℕ → ℕ → List ℕ
pages base zero = []
pages base (suc n) = base ∷ pages (base + page_size) n

-- The pages that a list of calls asks for.
abbrev pub asked : List Request → List ℕ
asked [] = []
asked (r ∷ rs) = pages (r.base) (r.npages) ++ asked rs

-- Addresses of the device's processes: not zero, below 2^48.
pub data Addresses : List ℕ → Type 0 where
  no_more : Addresses []
  one_more : (x : ℕ) (xs : List ℕ) → 0 < x → x < 2 ^ 48 → Addresses xs → Addresses (x ∷ xs)

-- What stands behind the run that `last` is in.
abbrev behind_run : ℕ → List ℕ → List ℕ
behind_run last [] = []
behind_run last (x ∷ xs) = if is_contiguous x last then behind_run x xs else x ∷ xs

nonzero-Addresses : (xs : List ℕ) → Addresses xs → nonzero xs ≡ xs
nonzero-Addresses [] a = refl
nonzero-Addresses (x ∷ xs) (one_more y ys p l a) = ground (arith, nonzero-Addresses xs a)

nonzero-zero_first :
    (v : ℕ) (xs : List ℕ)
    → Addresses xs
    → nonzero (zero_first (run_behind v xs) xs) ≡ behind_run v xs
nonzero-zero_first v [] a = refl
nonzero-zero_first v (x ∷ xs) (one_more y ys p l a) = elim (Bool-cases (is_contiguous x v)) [
  | inl t ↦ rw t (nonzero-zero_first x xs a)
  | inr n ↦ rw n (nonzero-Addresses (x ∷ xs) (one_more x xs p l a))
]

behind_run-Addresses : (v : ℕ) (xs : List ℕ) → Addresses xs → Addresses (behind_run v xs)
behind_run-Addresses v [] a = a
behind_run-Addresses v (x ∷ xs) (one_more y ys p l a) = elim (Bool-cases (is_contiguous x v)) [
  | inl t ↦ rw t (behind_run-Addresses x xs a)
  | inr n ↦ rw n (one_more x xs p l a)
]

length-behind_run : (v : ℕ) (xs : List ℕ) → length (behind_run v xs) ≤ length xs
length-behind_run v [] = omega arith
length-behind_run v (x ∷ xs) = ground (arith, length-behind_run x xs)

masked_below : (x : ℕ) → x < 2 ^ 48 → masked x ≡ x
masked_below x h = omega arith

next_page : (v x : ℕ) → v < 2 ^ 48 → x < 2 ^ 48 → is_contiguous x v ≡ true → x ≡ v + page_size
next_page v x hv hx t = ground arith

pages-run_behind :
    (v : ℕ) (xs : List ℕ)
    → v < 2 ^ 48
    → Addresses xs
    → pages (v + page_size) (run_behind v xs) ++ behind_run v xs ≡ xs
pages-run_behind v [] h a = refl
pages-run_behind v (x ∷ xs) h (one_more y ys p l a) = elim (Bool-cases (is_contiguous x v)) [
  | inl t ↦ rw (t, sym (next_page v x h l t)) (ap (λ zs. x ∷ zs) (pages-run_behind x xs l a))
  | inr n ↦ rw n refl
]

-- What the loop asks for, and what is left when it stops.
pub record Served (rs : List Request) (r : Ret) (xs : List ℕ) : Type 0 where
  pub left : List ℕ
  pub all : asked rs ++ left ≡ xs
  pub done : (left ≡ []) ⊎ (r ≢ ok)

next-Served :
    (v : ℕ) (vs : List ℕ) (rs : List Request) (r : Ret)
    → 0 < v
    → v < 2 ^ 48
    → Addresses vs
    → Served rs r (behind_run v vs)
    → Served (record { base = masked v; npages = suc (run_behind v vs) } ∷ rs) r (v ∷ vs)
next-Served v vs rs r p l a s = record {
  left = s.left;
  all = rw (masked_below v l) (
      ap (λ zs. v ∷ zs)
        (append_assoc (pages (v + page_size) (run_behind v vs)) (asked rs) s.left
          ∙ ap (λ zs. pages (v + page_size) (run_behind v vs) ++ zs) s.all
          ∙ pages-run_behind v vs l a));
  done = s.done;
}

pack-zero_first :
    (v : ℕ) (vs : List ℕ)
    → 0 < v
    → Addresses vs
    → pack_array (zero_first (suc (run_behind v vs)) (v ∷ vs)) ≡ behind_run v vs
pack-zero_first v vs p a =
    pack_array_lem (0 ∷ zero_first (run_behind v vs) vs) ∙ nonzero-zero_first v vs a

Ret-cases : (r : Ret) → (r ≡ ok) ⊎ ((e : Errno) × (r ≡ err e))
Ret-cases ok = inl refl
Ret-cases (err e) = inr (e, refl)

err≢ok : (e : Errno) → err e ≢ ok
err≢ok e q = ground arith

-- For addresses of pages that are not zero and below 2^48, and fuel for the length of the array,
-- the calls of the loop together ask for the pages of a prefix of the array, in its order and
-- each once; the prefix is the whole array unless a call fails.
pub migrate_runs-Served :
    (f : ℕ) (migrate : Request → Ret) (xs : List ℕ)
    → length xs ≤ f
    → Addresses xs
    → let out = migrate_runs f migrate xs in Served out.0 out.1 xs
unfolding migrate_runs
migrate_runs-Served zero migrate [] h a = record { left = []; all = refl; done = inl refl }
migrate_runs-Served zero migrate (x ∷ xs) h a = absurd (omega arith)
migrate_runs-Served (suc f) migrate [] h a = record { left = []; all = refl; done = inl refl }
migrate_runs-Served (suc f) migrate (v ∷ vs) h (one_more x xs p l a) =
    let n = suc (run_behind v vs) in
    let ih =
      migrate_runs-Served f migrate (behind_run v vs) (omega (arith, length-behind_run v vs))
        (behind_run-Addresses v vs a) in
    elim (Ret-cases (migrate (record { base = masked v; npages = n }))) [
      | inl fine ↦ rw (fine, migrate_runs, pack-zero_first v vs p a) (next-Served v vs _ _ p l a ih)
      | inr (e, failed) ↦
          rw (failed, migrate_runs)
            (next-Served v vs [] (err e) p l a
              (record { left = behind_run v vs; all = refl; done = inr (err≢ok e) }))
    ]
