-- ===== src/Base/Lists.antt =====
-- Lists measured and indexed by native numbers, under the library's names.
use Prim.Native.Nat.{ℕ, zero, suc, ◌+◌, ◌<◌}
use mathlib.Core.Path.{◌≡◌, refl, ap}
use mathlib.Core.Logic.{◌⊎◌, inl, inr}
use mathlib.Core.List.{List, [], ◌∷◌, ◌++◌}
use mathlib.Core.Option.{Option, none, some}
use native.Mathlib.Omega.{arith}

module _ {ℓ} {A : Type ℓ} where
  abbrev pub length : List A → ℕ
  length [] = 0
  length (x ∷ xs) = suc (length xs)

  abbrev pub get_elem? : List A → ℕ → Option A
  get_elem? [] i = none
  get_elem? (x ∷ xs) zero = some x
  get_elem? (x ∷ xs) (suc i) = get_elem? xs i

  -- A write out of bounds changes nothing.
  abbrev pub set : List A → ℕ → A → List A
  set [] i v = []
  set (x ∷ xs) zero v = v ∷ xs
  set (x ∷ xs) (suc i) v = x ∷ set xs i v

  -- Removal out of bounds changes nothing.
  abbrev pub remove_at : ℕ → List A → List A
  remove_at i [] = []
  remove_at zero (x ∷ xs) = xs
  remove_at (suc i) (x ∷ xs) = x ∷ remove_at i xs

  pub length-append : (xs ys : List A) → length (xs ++ ys) ≡ length xs + length ys
  length-append [] ys = omega arith
  length-append (x ∷ xs) ys = omega (arith, length-append xs ys)

  pub length-set : (xs : List A) (i : ℕ) (v : A) → length (set xs i v) ≡ length xs
  length-set [] i v = refl
  length-set (x ∷ xs) zero v = refl
  length-set (x ∷ xs) (suc i) v = ap suc (length-set xs i v)

  pub get_elem?-length : (xs : List A) (i : ℕ) → i < length xs → (x : A) × (get_elem? xs i ≡ some x)
  get_elem?-length [] i h = absurd (omega arith)
  get_elem?-length (x ∷ xs) zero h = (x, refl)
  get_elem?-length (x ∷ xs) (suc i) h = get_elem?-length xs i (omega arith)

  pub get_elem?-lt : (xs : List A) (i : ℕ) {x : A} → get_elem? xs i ≡ some x → i < length xs
  get_elem?-lt [] i e = ground arith
  get_elem?-lt (x ∷ xs) zero e = omega arith
  get_elem?-lt (x ∷ xs) (suc i) e = omega (arith, get_elem?-lt xs i e)

  -- An element of a list with one more at its end.
  pub get_elem?-snoc :
      (xs : List A) (c : A) (j : ℕ) {d : A}
      → get_elem? (xs ++ c ∷ []) j ≡ some d
      → (get_elem? xs j ≡ some d) ⊎ ((j ≡ length xs) × (c ≡ d))
  get_elem?-snoc [] c zero e = inr (refl, ap (λ o. elim o [ none ↦ c | some x ↦ x ]) e)
  get_elem?-snoc [] c (suc j) e = absurd (ground (arith, e))
  get_elem?-snoc (x ∷ xs) c zero e = inl e
  get_elem?-snoc (x ∷ xs) c (suc j) e = elim (get_elem?-snoc xs c j e) [
    | inl old ↦ inl old
    | inr (at, same) ↦ inr (ap suc at, same)
  ]

  pub get_elem?-before :
      (xs : List A) (c : A) (j : ℕ) {d : A}
      → get_elem? xs j ≡ some d
      → get_elem? (xs ++ c ∷ []) j ≡ some d
  get_elem?-before [] c j e = absurd (ground (arith, e))
  get_elem?-before (x ∷ xs) c zero e = e
  get_elem?-before (x ∷ xs) c (suc j) e = get_elem?-before xs c j e

  pub get_elem?-last : (xs : List A) (c : A) → get_elem? (xs ++ c ∷ []) (length xs) ≡ some c
  get_elem?-last [] c = refl
  get_elem?-last (x ∷ xs) c = get_elem?-last xs c

  abbrev pub get_or : List A → ℕ → A → A
  get_or [] i d = d
  get_or (x ∷ xs) zero d = x
  get_or (x ∷ xs) (suc i) d = get_or xs i d
