-- ===== src/Ioctl/Tests.antt =====
-- Calls on the control file at concrete devices, and their theorems at inputs that meet their
-- hypotheses.
use tapasco.Base.{◌+◌, ◌≡◌, true, List, [], ◌∷◌, some, arith, length, inl}
use tapasco.Bus.{Bus}
use tapasco.Device.{no_refs}
use tapasco.Ioctl.{Kernel, Call, opens, closes, creates, destroys, run}
use tapasco.Ioctl.Invariant.{IsCounted}
use tapasco.Ioctl.Run.{run-IsCounted}
use tapasco.Ioctl.Total.{run_total}

abbrev bus : Bus
bus = record {
  devices = record { ptr = 100; dev_id = 0; vendor_id = 1; product_id = 2 } ∷ [];
  num_devs = 1;
}

-- No file is open.
abbrev idle : Kernel
idle = record { bus = bus; refs = λ p. no_refs; files = []; opened_counter = 0 }

idle-IsCounted : IsCounted 0 idle
idle-IsCounted = record { counted = λ q. ground arith; known = tt }

-- A shared user; an exclusive one that is refused; the first leaves and its file is closed.
abbrev script : List Call
script =
    opens true
    ∷ creates 0 true true 0 2
    ∷ creates 0 true true 0 0
    ∷ destroys 0 true 0 2
    ∷ closes 0
    ∷ []

run_total_example : (k' : Kernel) × (run idle script ≡ some k') × IsCounted (0 + length script) k'
run_total_example =
    run_total 0 idle script (omega arith) idle-IsCounted
      (tt, ((omega arith, inl (omega arith)), ((omega arith, inl (omega arith)), (tt, (tt, tt)))))

run-IsCounted_example : IsCounted (0 + length script) run_total_example.0
run-IsCounted_example = run-IsCounted 0 idle script (omega arith) idle-IsCounted run_total_example.1
