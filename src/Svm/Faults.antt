-- ===== src/Svm/Faults.antt =====
-- Page faults of the on-FPGA IOMMU, runtime/kernel/pcie/pcie_svm.c: the arrays of faulted addresses,
-- and the worker that serves them. An array is the list of its first `size` entries.
pub mod Arrays
pub mod Runs
mod Tests
use tapasco.Base.{
  ℕ, zero, suc, ◌+◌, ◌-◌, ◌*◌, ◌/◌, ◌%◌, ◌^◌, Bool, true, false, ◌&&◌, List, [], ◌∷◌, ◌++◌, Option,
  none, some, ltb, ◌==◌, if◌then◌else◌, length, get_or, remove_at, Ret, ok, err,
}

-- `addr & VADDR_MASK`.
abbrev pub masked : ℕ → ℕ
masked a = a % 2 ^ 48

abbrev pub page_size : ℕ
page_size = 4096

-- The loop of `remove_duplicates`: an entry that equals the one before it goes, and the entries
-- behind it move down.
pub dedup_from : ℕ → ℕ → List ℕ → List ℕ
dedup_from zero i xs = xs
dedup_from (suc fuel) i xs = elim (ltb i (length xs)) [
  | false ↦ xs
  | true ↦ elim (masked (get_or xs i 0) == masked (get_or xs (i - 1) 0)) [
    | true ↦ dedup_from fuel i (remove_at i xs)
    | false ↦ dedup_from fuel (suc i) xs
  ]
]

pub remove_duplicates : List ℕ → List ℕ
unfolding dedup_from
remove_duplicates xs = dedup_from (length xs) 1 xs

-- How many zero entries stand from index `i` on.
abbrev pub gap_at : ℕ → List ℕ → ℕ
gap_at i [] = 0
gap_at zero (x ∷ xs) = if x == 0 then suc (gap_at zero xs) else 0
gap_at (suc i) (x ∷ xs) = gap_at i xs

-- `array[j] = array[j + gap]` from `i` on, and `size -= gap`.
abbrev pub close_gap : ℕ → ℕ → List ℕ → List ℕ
close_gap zero i xs = xs
close_gap (suc gap) i xs = close_gap gap i (remove_at i xs)

pub pack_from : ℕ → ℕ → List ℕ → List ℕ
pack_from zero i xs = xs
pack_from (suc fuel) i xs = elim (ltb i (length xs)) [
  | false ↦ xs
  | true ↦ elim (get_or xs i 0 == 0) [
    | true ↦ pack_from fuel (suc i) (close_gap (gap_at i xs) i xs)
    | false ↦ pack_from fuel (suc i) xs
  ]
]

pub pack_array : List ℕ → List ℕ
unfolding pack_from
pack_array xs = pack_from (length xs) 0 xs

-- `is_contiguous(addr, last)`.
abbrev pub is_contiguous : ℕ → ℕ → Bool
is_contiguous addr last = masked addr == (masked last + page_size) % 2 ^ 64

-- How many entries behind `last` continue its run of pages.
abbrev pub run_behind : ℕ → List ℕ → ℕ
run_behind last [] = 0
run_behind last (x ∷ xs) = if is_contiguous x last then suc (run_behind x xs) else 0

-- `vaddrs[i] = 0` for the first `n` entries.
abbrev pub zero_first : ℕ → List ℕ → List ℕ
zero_first zero xs = xs
zero_first (suc n) [] = []
zero_first (suc n) (x ∷ xs) = 0 ∷ zero_first n xs

-- A call of `svm_migrate_to_device`: the first address and the number of pages.
pub record Request : Type 0 where
  pub base : ℕ
  pub npages : ℕ

-- The inner loop of `handle_iommu_page_fault`: the calls that it makes, and its result. `migrate` is
-- what `svm_migrate_to_device` returns.
pub migrate_runs : ℕ → (Request → Ret) → List ℕ → List Request × Ret
unfolding pack_array
migrate_runs zero migrate xs = ([], ok)
migrate_runs (suc fuel) migrate [] = ([], ok)
migrate_runs (suc fuel) migrate (v ∷ vs) =
    let n = suc (run_behind v vs) in
    let r : Request = record { base = masked v; npages = n } in
    let rest = migrate_runs fuel migrate (pack_array (zero_first n (v ∷ vs))) in
    elim (migrate r) [ ok ↦ (r ∷ rest.0, rest.1) | err e ↦ (r ∷ [], err e) ]
