-- ===== src/Svm/Faults/Tests.antt =====
-- Runs of the page fault loops of runtime/kernel/pcie/pcie_svm.c on concrete arrays.
use tapasco.Base.{ℕ, ◌≡◌, refl, List, [], ◌∷◌, Ret, ok, err, efault, ltb, if◌then◌else◌, arith}
use tapasco.Svm.Faults.{pack_array, Request, migrate_runs, pack_from}
use tapasco.Svm.Faults.Runs.{Addresses, no_more, one_more, Served, migrate_runs-Served}

abbrev faulted : List ℕ
faulted = 4096 ∷ 8192 ∷ 20480 ∷ []

faulted-Addresses : Addresses faulted
faulted-Addresses = one_more 4096 _ (omega arith) (omega arith) (
    one_more 8192 _ (omega arith) (omega arith)
      (one_more 20480 _ (omega arith) (omega arith) no_more))

-- The third page is not there.
abbrev migrate : Request → Ret
migrate r = if ltb 8192 r.base then err efault else ok

migrate_runs-Served_example : let out = migrate_runs 3 migrate faulted in Served out.0 out.1 faulted
migrate_runs-Served_example = migrate_runs-Served 3 migrate faulted (omega arith) faulted-Addresses

runs_of_faulted :
    (migrate_runs 3 migrate faulted).0
    ≡ record { base = 4096; npages = 2 } ∷ record { base = 20480; npages = 1 } ∷ []
unfolding migrate_runs pack_array pack_from
runs_of_faulted = refl
