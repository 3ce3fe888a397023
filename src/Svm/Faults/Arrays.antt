-- ===== src/Svm/Faults/Arrays.antt =====
-- The array loops of runtime/kernel/pcie/pcie_svm.c against plain recursions over lists.
use tapasco.Base.{
  ℕ, zero, suc, ◌≤◌, ◌≡◌, ◌≢◌, inl, inr, Bool-cases, refl, List, [], ◌∷◌, ◌==◌, if◌then◌else◌,
  length, remove_at, arith,
}
use tapasco.Svm.Faults.{
  masked, dedup_from, remove_duplicates, gap_at, close_gap, pack_from, pack_array,
}

-- The entries that differ from the one before them, after an entry `p`.
abbrev unique_after : ℕ → List ℕ → List ℕ
unique_after p [] = []
unique_after p (x ∷ xs) = if masked x == masked p then unique_after p xs else x ∷ unique_after x xs

abbrev pub unique : List ℕ → List ℕ
unique [] = []
unique (x ∷ xs) = x ∷ unique_after x xs

dedup_from-suc :
    (f i y : ℕ) (xs : List ℕ) → dedup_from f (suc (suc i)) (y ∷ xs) ≡ y ∷ dedup_from f (suc i) xs
unfolding dedup_from
dedup_from-suc zero i y xs = refl
dedup_from-suc (suc f) i y xs =
    ground (arith, dedup_from-suc f i y (remove_at (suc i) xs), dedup_from-suc f (suc i) y xs)

dedup_from_lem :
    (f p : ℕ) (xs : List ℕ) → length xs ≤ f → dedup_from f 1 (p ∷ xs) ≡ p ∷ unique_after p xs
unfolding dedup_from
dedup_from_lem zero p [] h = refl
dedup_from_lem zero p (x ∷ xs) h = absurd (omega arith)
dedup_from_lem (suc f) p [] h = refl
dedup_from_lem (suc f) p (x ∷ xs) h =
    ground (arith, dedup_from_lem f p xs, dedup_from_lem f x xs, dedup_from-suc f 0 p (x ∷ xs))

-- The loop in place gives what the plain recursion gives that keeps an entry if it differs from
-- the one before it.
pub remove_duplicates_lem : (xs : List ℕ) → remove_duplicates xs ≡ unique xs
unfolding remove_duplicates dedup_from
remove_duplicates_lem [] = refl
remove_duplicates_lem (x ∷ xs) = dedup_from_lem (length (x ∷ xs)) x xs (omega arith)

-- The entries other than zero.
abbrev pub nonzero : List ℕ → List ℕ
nonzero [] = []
nonzero (x ∷ xs) = if x == 0 then nonzero xs else x ∷ nonzero xs

close_gap-suc : (g i y : ℕ) (xs : List ℕ) → close_gap g (suc i) (y ∷ xs) ≡ y ∷ close_gap g i xs
close_gap-suc zero i y xs = refl
close_gap-suc (suc g) i y xs = close_gap-suc g i y (remove_at i xs)

pack_from-suc : (f i y : ℕ) (xs : List ℕ) → pack_from f (suc i) (y ∷ xs) ≡ y ∷ pack_from f i xs
unfolding pack_from
pack_from-suc zero i y xs = refl
pack_from-suc (suc f) i y xs = ground (
  arith,
  close_gap-suc (gap_at i xs) i y xs,
  pack_from-suc f (suc i) y (close_gap (gap_at i xs) i xs),
  pack_from-suc f (suc i) y xs,
)

data StartsNonzero : List ℕ → Type 0 where
  ended : StartsNonzero []
  starts : (y : ℕ) (ys : List ℕ) → y ≢ 0 → StartsNonzero (y ∷ ys)

close_gap-StartsNonzero : (xs : List ℕ) → StartsNonzero (close_gap (gap_at 0 xs) 0 xs)
close_gap-StartsNonzero [] = ended
close_gap-StartsNonzero (x ∷ xs) = elim (Bool-cases (x == 0)) [
  | inl z ↦ rw z (close_gap-StartsNonzero xs)
  | inr n ↦ rw n (starts x xs (λ e. ground arith))
]

nonzero-close_gap : (xs : List ℕ) → nonzero (close_gap (gap_at 0 xs) 0 xs) ≡ nonzero xs
nonzero-close_gap [] = refl
nonzero-close_gap (x ∷ xs) = ground (arith, nonzero-close_gap xs)

length-close_gap : (xs : List ℕ) → length (close_gap (gap_at 0 xs) 0 xs) ≤ length xs
length-close_gap [] = omega arith
length-close_gap (x ∷ xs) = ground (arith, length-close_gap xs)

pack_from-nil : (f i : ℕ) → pack_from f i [] ≡ []
unfolding pack_from
pack_from-nil zero i = refl
pack_from-nil (suc f) i = ground arith

-- The rest of the loop, behind a place that is not zero.
pack_rest :
    (f : ℕ)
    → ((ys : List ℕ) → length ys ≤ f → pack_from f 0 ys ≡ nonzero ys)
    → (xs : List ℕ) → StartsNonzero xs
    → length xs ≤ suc f
    → pack_from f 1 xs ≡ nonzero xs
pack_rest f ih [] s h = pack_from-nil f 1
pack_rest f ih (x ∷ xs) (starts y ys ne) h =
    ground (arith, pack_from-suc f 0 x xs, ih xs (omega arith))

pack_from_lem : (f : ℕ) (xs : List ℕ) → length xs ≤ f → pack_from f 0 xs ≡ nonzero xs
unfolding pack_from
pack_from_lem zero [] h = refl
pack_from_lem zero (x ∷ xs) h = absurd (omega arith)
pack_from_lem (suc f) [] h = refl
pack_from_lem (suc f) (x ∷ xs) h = ground (
  arith,
  pack_from-suc f 0 x xs,
  pack_from_lem f xs,
  nonzero-close_gap xs,
  pack_rest f (pack_from_lem f) (close_gap (gap_at 0 xs) 0 xs) (close_gap-StartsNonzero xs)
      (omega (arith, length-close_gap xs)),
)

-- The loop in place keeps exactly the entries other than zero, in order.
pub pack_array_lem : (xs : List ℕ) → pack_array xs ≡ nonzero xs
unfolding pack_array
pack_array_lem xs = pack_from_lem (length xs) xs (omega arith)

-- The loops in place give what plain recursions give: the entries that differ from the one before
-- them, and the entries other than zero, in order.
pub arrays_lem : (xs : List ℕ) → (remove_duplicates xs ≡ unique xs) × (pack_array xs ≡ nonzero xs)
arrays_lem xs = (remove_duplicates_lem xs, pack_array_lem xs)
